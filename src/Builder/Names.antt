-- ===== src/Builder/Names.antt =====
-- MachOCoreDumpBuilder.cpp: the names of notes, as `strcmp` sees them.
use mac_mini_dump.Prelude.{
  ℕ, suc, ◌+◌, ◌%◌, ◌≤◌, ◌<◌, ◌≡◌, ◌≢◌, ap, ◌⊎◌, inl, inr, true, false, List, [], ◌∷◌, ◌++◌, Option,
  some, arith, length, length-append, ◌/◌, Bool-cases,
}
use mac_mini_dump.Bytes.{
  le_bytes, until_nul, same_string, same_string_refl, same_string-eq, padded, NoNul,
  until_nul-padded, until_nul_short, until_nul_injective, until_nul_full,
}
use mac_mini_dump.DataAccess.{DataProvider}
use mac_mini_dump.Builder.{NoteCommand, Note, Builder}
use mac_mini_dump.Builder.Offsets.{owner_string, set_provider, add_data_provider_for_note_command}

-- A name that a note can have: no NUL inside, and at most 16 chars.
abbrev pub IsName : List ℕ → Type 0
IsName s = NoNul s × (length s ≤ 16)

-- The note has the name.
abbrev pub Named : List ℕ → NoteCommand → Type 0
Named s nc = nc.data_owner ≡ padded 16 s

pub owner_string_other :
    (s t : List ℕ) (nc mc : NoteCommand)
    → IsName s
    → IsName t
    → Named s nc
    → Named t mc
    → s ≢ t
    → same_string (owner_string nc) (owner_string mc) ≡ false
unfolding owner_string
owner_string_other s t nc mc u v e f h =
    elim (Bool-cases (same_string (owner_string nc) (owner_string mc))) [
      | inr different ↦ different
      | inl same ↦ absurd (
          h (
            until_nul_injective 16 s t _ _ u.0 v.0 u.1 v.1
              (rw (e, f) at (same_string-eq (owner_string nc) (owner_string mc) same))))
    ]

-- `strcmp` tells every note of the list from the name.
abbrev pub OtherNames : List ℕ → List Note → Type 0
OtherNames s [] = Unit {0}
OtherNames s ((nc, p) ∷ rest) = (same_string (owner_string nc) s ≡ false) × OtherNames s rest

-- A name of fewer than 16 chars is read back; one of 16 chars is read back while the lowest byte of
-- the note's offset is 0.
pub owner_string_exact :
    (s : List ℕ) (nc : NoteCommand)
    → IsName s
    → Named s nc
    → (length s < 16) ⊎ (nc.offset % 256 ≡ 0)
    → owner_string nc ≡ s
unfolding owner_string le_bytes
owner_string_exact s nc u e (inl short) = rw e (until_nul_short 16 s _ u.0 short)
owner_string_exact s nc u e (inr clear) = rw (e, clear) (until_nul-padded 16 s _ u.0 u.1)

-- A name of 16 chars is lost once the lowest byte of the offset is not 0: `strcmp` reads on into
-- it.
pub owner_string_overrun :
    (s : List ℕ) (nc : NoteCommand)
    → NoNul s
    → length s ≡ 16
    → Named s nc
    → 0 < nc.offset % 256
    → same_string (owner_string nc) s ≡ false
unfolding owner_string le_bytes until_nul
owner_string_overrun s nc u l e h = elim (Bool-cases (same_string (owner_string nc) s)) [
  | inr different ↦ different
  | inl same ↦ absurd (omega (arith, ap length (same_string-eq (owner_string nc) s same), longer))
]
  where
    follows : List ℕ
    follows = le_bytes 7 (nc.offset / 256) ++ le_bytes 8 nc.size

    reads_on : until_nul (nc.offset % 256 ∷ follows) ≡ nc.offset % 256 ∷ until_nul follows
    reads_on = ground arith

    longer : length (owner_string nc) ≡ 16 + suc (length (until_nul follows))
    longer =
        rw
          (
            e,
            until_nul_full 16 s (nc.offset % 256 ∷ follows) u l,
            reads_on,
            length-append s (nc.offset % 256 ∷ until_nul follows),
            l,
          )
          (omega arith)

-- The names of the notes of the list, in order.
abbrev pub HaveNames : List (List ℕ) → List Note → Type 0
HaveNames [] [] = Unit {0}
HaveNames [] ((nc, p) ∷ rest) = ⊥
HaveNames (s ∷ ss) [] = ⊥
HaveNames (s ∷ ss) ((nc, p) ∷ rest) = IsName s × Named s nc × HaveNames ss rest

abbrev pub Differs : List ℕ → List (List ℕ) → Type 0
Differs s [] = Unit {0}
Differs s (t ∷ ts) = (t ≢ s) × Differs s ts

HaveNames-OtherNames :
    (s : List ℕ) (names : List (List ℕ)) (notes : List Note) (nc : NoteCommand)
    → IsName s
    → Named s nc
    → owner_string nc ≡ s
    → HaveNames names notes
    → Differs s names
    → OtherNames s notes
HaveNames-OtherNames s [] [] nc u e r h d = tt
HaveNames-OtherNames s [] ((mc, p) ∷ notes) nc u e r h d = absurd h
HaveNames-OtherNames s (t ∷ ts) [] nc u e r h d = absurd h
HaveNames-OtherNames s (t ∷ ts) ((mc, p) ∷ notes) nc u e r h d = (
  rw r at (owner_string_other t s mc nc h.0 u h.1 e d.0),
  HaveNames-OtherNames s ts notes nc u e r h.2 d.1,
)

set_provider-found :
    (s : List ℕ) (provider : DataProvider) (nc : NoteCommand) (old : Option DataProvider)
    (before after : List Note)
    → owner_string nc ≡ s
    → OtherNames s before
    → set_provider s provider (before ++ (nc, old) ∷ after)
      ≡ some (before ++ (record nc { size = provider.size }, some provider) ∷ after)
unfolding set_provider
set_provider-found s provider nc old [] after e o = rw (e, same_string_refl s)
set_provider-found s provider nc old ((mc, p) ∷ before) after e o =
    rw (o.0, set_provider-found s provider nc old before after e o.1)

-- AddDataProviderForNoteCommand finds a note among notes of other names when its own name has fewer
-- than 16 chars or the lowest byte of its offset is 0: it gives that note the provider and its
-- size, leaves all else as it was, and returns true.
pub provide-found :
    (s : List ℕ) (names : List (List ℕ)) (provider : DataProvider) (b : Builder)
    (before after : List Note) (nc : NoteCommand) (old : Option DataProvider)
    → b.note_cmds ≡ before ++ (nc, old) ∷ after
    → IsName s
    → Named s nc
    → (length s < 16) ⊎ (nc.offset % 256 ≡ 0)
    → HaveNames names before
    → Differs s names
    → add_data_provider_for_note_command s provider b ≡ (
      record b {
        note_cmds = before ++ (record nc { size = provider.size }, some provider) ∷ after;
      },
      true,
    )
unfolding add_data_provider_for_note_command
provide-found s names provider b before after nc old e u named clear h d =
    let reads : owner_string nc ≡ s = owner_string_exact s nc u named clear in
    ground (
      arith,
      e,
      ap (set_provider s provider) e,
      set_provider-found s provider nc old before after reads
          (HaveNames-OtherNames s names before nc u named reads h d),
    )
