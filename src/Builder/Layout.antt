-- ===== src/Builder/Layout.antt =====
-- MachOCoreDumpBuilder.cpp: where the payloads of the notes and of the segments go.
use mac_mini_dump.Prelude.{
  ℕ, suc, ◌+◌, ◌*◌, ◌/◌, ◌%◌, ◌≤◌, ◌<◌, ◌≡◌, ◌≢◌, refl, ◌∙◌, ap, inl, inr, true, false, List, [],
  ◌∷◌, ◌++◌, Option, some, arith, ◌==◌, if◌then◌else◌, Bool-cases,
}
use native.Mathlib.Nat.{mod-eq_of_lt, mul-mod_left, div-add-mod', mod-lt}
use mac_mini_dump.Prelude.Words.{u64_mod}
use mac_mini_dump.Bytes.{same_string, same_string_refl}
use mac_mini_dump.DataAccess.{DataProvider}
use mac_mini_dump.Builder.{fault, returns, header_size, NoteCommand, Note, Segment, Builder}
use mac_mini_dump.Builder.Names.{IsName, Named, HaveNames, Differs, owner_string_other}
use mac_mini_dump.Builder.Offsets.{
  round_up, owner_string, note_offset_from, get_offset_for_note_command_payload,
}

next_multiple :
    (n k : ℕ)
    → n % suc k ≢ 0
    → (n ≤ (n / suc k + 1) * suc k) × ((n / suc k + 1) * suc k < n + suc k)
next_multiple n k h = (
  omega (arith, div-add-mod' n (suc k), mod-lt n {m = suc k} (omega arith)),
  omega (arith, div-add-mod' n (suc k)),
)

-- RoundUp gives the least multiple of `roundTo` that is not below the number, if that fits in 64
-- bits; with `roundTo` 0 it divides by zero.
pub round_up_least :
    (number k : ℕ)
    → number + k < u64_mod
    → ((r : ℕ) × (round_up number (suc k) ≡ returns r)
        × (number ≤ r)
        × (r < number + suc k)
        × (r % suc k ≡ 0))
      × (round_up number 0 ≡ fault)
unfolding round_up
round_up_least number k h = (
  elim (Bool-cases (number % suc k == 0)) [
    | inl exact ↦ (number, rw exact, omega arith, omega arith, ground arith)
    | inr inexact ↦
        let above = next_multiple number k (ground arith) in
        (
          (number / suc k + 1) * suc k,
          rw inexact (ap returns (mod-eq_of_lt (omega (arith, above.1)))),
          above.0,
          above.1,
          mul-mod_left (number / suc k + 1) (suc k),
        )
  ],
  refl,
)

abbrev pub payload_total : List Note → ℕ
payload_total [] = 0
payload_total ((nc, p) ∷ rest) = nc.size + payload_total rest

abbrev pub file_total : List Segment → ℕ
file_total [] = 0
file_total ((sc, p) ∷ rest) = sc.filesize + file_total rest

-- `strcmp` tells the note from each of the list.
abbrev Earlier : NoteCommand → List Note → Type 0
Earlier nc [] = Unit {0}
Earlier nc ((mc, p) ∷ rest) =
    (same_string (owner_string nc) (owner_string mc) ≡ false) × Earlier nc rest

abbrev pub DistinctNames : List (List ℕ) → Type 0
DistinctNames [] = Unit {0}
DistinctNames (s ∷ ss) = Differs s ss × DistinctNames ss

-- The notes have distinct names of at most 16 chars.
abbrev pub WellNamed : List Note → Type 0
WellNamed notes = (names : List (List ℕ)) × HaveNames names notes × DistinctNames names

IsName-at :
    (t : List ℕ) (names : List (List ℕ)) (nc : NoteCommand) (p : Option DataProvider)
    (before after : List Note)
    → HaveNames names (before ++ (nc, p) ∷ after)
    → Differs t names
    → (s : List ℕ) × IsName s × Named s nc × (s ≢ t)
IsName-at t [] nc p [] after h d = absurd h
IsName-at t (s ∷ ss) nc p [] after h d = (s, h.0, h.1, d.0)
IsName-at t [] nc p ((mc, q) ∷ before) after h d = absurd h
IsName-at t (s ∷ ss) nc p ((mc, q) ∷ before) after h d = IsName-at t ss nc p before after h.2 d.1

names-Earlier :
    (names : List (List ℕ)) (nc : NoteCommand) (p : Option DataProvider) (before after : List Note)
    → HaveNames names (before ++ (nc, p) ∷ after)
    → DistinctNames names
    → Earlier nc before
names-Earlier names nc p [] after h d = tt
names-Earlier [] nc p ((mc, q) ∷ before) after h d = absurd h
names-Earlier (t ∷ ts) nc p ((mc, q) ∷ before) after h d =
    let (s, u, e, ne) = IsName-at t ts nc p before after h.2 d.0 in
    (owner_string_other s t nc mc u h.0 e h.1 ne, names-Earlier ts nc p before after h.2 d.1)

note_offset-walk :
    (a : ℕ) (nc : NoteCommand) (p : Option DataProvider) (before after : List Note)
    → Earlier nc before
    → a + payload_total before < u64_mod
    → note_offset_from (owner_string nc) a (before ++ (nc, p) ∷ after)
      ≡ some (a + payload_total before)
unfolding note_offset_from
note_offset-walk a nc p [] after e w =
    rw (same_string_refl (owner_string nc)) (ap some (omega arith))
note_offset-walk a nc p ((mc, q) ∷ before) after e w =
    ground (arith, note_offset-walk (a + mc.size) nc p before after e.1 (omega arith))

-- The least multiple of `k` that is not below `n`.
unfoldable pub align_up : ℕ → ℕ → ℕ
align_up n k = if n % k == 0 then n else (n / k + 1) * k

pub align_up_bounds : (n k : ℕ) → (n ≤ align_up n (suc k)) × (align_up n (suc k) < n + suc k)
unfolding align_up
align_up_bounds n k = ground (arith, next_multiple n k)

pub round_up-align_up :
    (n k : ℕ) → align_up n (suc k) < u64_mod → round_up n (suc k) ≡ returns (align_up n (suc k))
unfolding round_up align_up
round_up-align_up n k h = elim (Bool-cases (n % suc k == 0)) [
  | inl exact ↦ rw exact
  | inr inexact ↦ rw inexact (ap returns (mod-eq_of_lt (rw (inexact, if◌then◌else◌) at h)))
]

pub payload_total-append :
    (before after : List Note)
    → payload_total (before ++ after) ≡ payload_total before + payload_total after
payload_total-append [] after = omega arith
payload_total-append (x ∷ before) after = omega (arith, payload_total-append before after)

pub file_total-append :
    (before after : List Segment)
    → file_total (before ++ after) ≡ file_total before + file_total after
file_total-append [] after = omega arith
file_total-append (x ∷ before) after = omega (arith, file_total-append before after)

-- Where the payloads of the notes and of the segments begin.
abbrev pub notes_start : Builder → ℕ
notes_start b = align_up (header_size + b.header.sizeofcmds) 16

abbrev pub segments_start : Builder → ℕ
segments_start b = align_up (notes_start b + payload_total b.note_cmds) 0x1000

-- The end of the file fits in 64 bits.
abbrev pub FileFits : Builder → Type 0
FileFits b = segments_start b + file_total b.segment_cmds < u64_mod

pub notes_fit : (b : Builder) → FileFits b → notes_start b + payload_total b.note_cmds < u64_mod
notes_fit b f = omega (arith, align_up_bounds (notes_start b + payload_total b.note_cmds) 0xfff)

-- In a finalized builder whose notes have distinct names, and whose file fits in 64 bits, the
-- payload of a note begins behind the payloads of the notes before it, the first at the next
-- multiple of 16 behind the load commands.
pub note_payload_offset :
    (b : Builder) (before after : List Note) (nc : NoteCommand) (p : Option DataProvider)
    → b.load_commands_finalized ≡ true
    → b.note_cmds ≡ before ++ (nc, p) ∷ after
    → WellNamed b.note_cmds
    → FileFits b
    → get_offset_for_note_command_payload (owner_string nc) b
      ≡ returns (some (notes_start b + payload_total before))
unfolding get_offset_for_note_command_payload
note_payload_offset b before after nc p fin e n f =
    rw
      (fin, round_up-align_up (header_size + b.header.sizeofcmds) 15 (omega (arith, notes_fit b f)))
      (ap (λ notes. returns (note_offset_from (owner_string nc) (notes_start b) notes)) e
        ∙ ap returns (
            note_offset-walk (notes_start b) nc p before after
              (names-Earlier n.0 nc p before after (rw e at n.1) n.2)
              (omega (
                arith,
                notes_fit b f,
                ap payload_total e,
                payload_total-append before ((nc, p) ∷ after),
              ))))
