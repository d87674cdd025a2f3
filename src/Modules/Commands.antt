-- ===== src/Modules/Commands.antt =====
-- ModuleList.cpp: load commands that are laid out one behind the other, and the fields that are
-- read of them.
use mac_mini_dump.Prelude.{
  ℕ, ◌+◌, ◌^◌, ◌≤◌, ◌<◌, ◌≡◌, ◌≢◌, refl, sym, ◌∙◌, ap, false, List, [], ◌∷◌, ◌++◌, arith, ltb, ◌==◌,
  length, drop, replicate, length-append, Bool-cases, inl, inr, ltb→lt,
}
use mathlib.Core.List.{append_assoc, append-nil}
use mac_mini_dump.Prelude.Words.{u64_mod, u32_mod}
use mac_mini_dump.Bytes.{
  le_bytes, length-le_bytes, until_nul, padded, length-padded, NoNul, until_nul_short,
  until_nul_full,
}
use mac_mini_dump.Outcome.{
  returns, ◌>>=◌, bytes_at, field, bytes_at-past, drop_past, from_le-le_bytes,
}
use mac_mini_dump.Modules.{SegmentInfo, segment_info}

-- A load command: a segment with a name, LC_UUID, or another one; `tail` and `body` are the bytes
-- that are not read.
pub data LoadCommand : Type 0 where
  segment : (name : List ℕ) (vmaddr vmsize : ℕ) (tail : List ℕ) → LoadCommand
  uuid_of : (uuid : List ℕ) (tail : List ℕ) → LoadCommand
  other : (cmd : ℕ) (body : List ℕ) → LoadCommand

abbrev pub command_number : LoadCommand → ℕ
command_number (segment name vmaddr vmsize tail) = 0x19
command_number (uuid_of uuid tail) = 0x1b
command_number (other cmd body) = cmd

-- The bytes behind `cmd` and `cmdsize`.
abbrev pub payload : LoadCommand → List ℕ
payload (segment name vmaddr vmsize tail) =
    padded 16 name ++ (le_bytes 8 vmaddr ++ (le_bytes 8 vmsize ++ tail))
payload (uuid_of uuid tail) = uuid ++ tail
payload (other cmd body) = body

abbrev pub command_bytes : LoadCommand → List ℕ
command_bytes c =
    le_bytes 4 (command_number c) ++ (le_bytes 4 (8 + length (payload c)) ++ payload c)

abbrev pub commands_bytes : List LoadCommand → List ℕ
commands_bytes [] = []
commands_bytes (c ∷ rest) = command_bytes c ++ commands_bytes rest

abbrev pub Proper : LoadCommand → Type 0
Proper (segment name vmaddr vmsize tail) =
    NoNul name × (length name ≤ 16) × (vmaddr < u64_mod) × (vmsize < u64_mod)
Proper (uuid_of uuid tail) = length uuid ≡ 16
Proper (other cmd body) = (cmd < u32_mod) × (cmd ≢ 0x19) × (cmd ≢ 0x1b)

abbrev pub AllProper : List LoadCommand → Type 0
AllProper [] = Unit {0}
AllProper (c ∷ rest) = Proper c × (8 + length (payload c) < u32_mod) × AllProper rest

-- What is kept of the segments, and the first LC_UUID.
abbrev pub kept_segments : List LoadCommand → List SegmentInfo
kept_segments [] = []
kept_segments (segment name vmaddr vmsize tail ∷ rest) =
    record { segment_name = padded 16 name; address = vmaddr; size = vmsize } ∷ kept_segments rest
kept_segments (uuid_of uuid tail ∷ rest) = kept_segments rest
kept_segments (other cmd body ∷ rest) = kept_segments rest

abbrev pub first_uuid : List LoadCommand → List ℕ
first_uuid [] = replicate 16 0
first_uuid (segment name vmaddr vmsize tail ∷ rest) = first_uuid rest
first_uuid (uuid_of uuid tail ∷ rest) = uuid
first_uuid (other cmd body ∷ rest) = first_uuid rest

command_number_small : (c : LoadCommand) → Proper c → command_number c < u32_mod
command_number_small (segment name vmaddr vmsize tail) p = omega arith
command_number_small (uuid_of uuid tail) p = omega arith
command_number_small (other cmd body) p = p.0

pub other_test : (cmd n : ℕ) → cmd ≢ n → (cmd == n) ≡ false
other_test cmd n h = ground arith

-- `before ++ (le_bytes n v ++ rest)` has `v` at the length of `before`.
pub field-past :
    (before rest : List ℕ) (offset n v : ℕ)
    → length before ≡ offset
    → v < 256 ^ n
    → field offset n (before ++ (le_bytes n v ++ rest)) ≡ returns v
field-past before rest offset n v h w = rw (
  bytes_at-past before (le_bytes n v) rest offset n h (length-le_bytes n v),
  from_le-le_bytes n v w,
)

pub read_cmd :
    (c : LoadCommand) (rest : List ℕ)
    → Proper c
    → field 0 4 (command_bytes c ++ rest) ≡ returns (command_number c)
read_cmd c rest p =
    ap (field 0 4) (append_assoc (le_bytes 4 (command_number c)) _ rest)
    ∙ field-past [] _ 0 4 (command_number c) refl (omega (arith, command_number_small c p))

pub read_cmdsize :
    (c : LoadCommand) (rest : List ℕ)
    → 8 + length (payload c) < u32_mod
    → field 4 4 (command_bytes c ++ rest) ≡ returns (8 + length (payload c))
read_cmdsize c rest h =
    ap (field 4 4) (
      append_assoc (le_bytes 4 (command_number c)) _ rest
      ∙ ap (λ l. le_bytes 4 (command_number c) ++ l)
          (append_assoc (le_bytes 4 (8 + length (payload c))) (payload c) rest))
    ∙ field-past (le_bytes 4 (command_number c)) (payload c ++ rest) 4 4 (8 + length (payload c))
        (length-le_bytes 4 _) (omega arith)

pub skip_command :
    (c : LoadCommand) (rest : List ℕ)
    → drop (8 + length (payload c)) (command_bytes c ++ rest) ≡ rest
unfolding le_bytes
skip_command c rest = drop_past (command_bytes c) rest (8 + length (payload c)) (omega arith)

padded_back :
    (name : List ℕ)
    → NoNul name
    → length name ≤ 16
    → padded 16 (until_nul (padded 16 name)) ≡ padded 16 name
unfolding until_nul
padded_back name u h = elim (Bool-cases (ltb (length name) 16)) [
  | inl short ↦ ap (padded 16) (
      ap until_nul (sym (append-nil (padded 16 name)))
      ∙ until_nul_short 16 name [] u (omega (arith, ltb→lt (length name) 16 short)))
  | inr full ↦ ap (padded 16) (
      ap until_nul (sym (append-nil (padded 16 name)))
      ∙ until_nul_full 16 name [] u (ground arith)
      ∙ append-nil name)
]

start_length_8 : (a b : ℕ) → length (le_bytes 4 a ++ le_bytes 4 b) ≡ 8
start_length_8 a b =
    omega
      (arith, length-append (le_bytes 4 a) (le_bytes 4 b), length-le_bytes 4 a, length-le_bytes 4 b)

-- A segment command gives its name, its address and its size.
pub segment_info-command :
    (name : List ℕ) (vmaddr vmsize : ℕ) (tail rest : List ℕ)
    → Proper (segment name vmaddr vmsize tail)
    → segment_info (command_bytes (segment name vmaddr vmsize tail) ++ rest)
      ≡ returns (record { segment_name = padded 16 name; address = vmaddr; size = vmsize })
unfolding segment_info
segment_info-command name vmaddr vmsize tail rest p =
    ap
      (λ l. bytes_at 8 16 l >>= λ found. field 24 8 l >>= λ address. field 32 8 l >>= λ size.
        returns
          (record { segment_name = padded 16 (until_nul found); address = address; size = size }))
      laid_out
    ∙ rw (
      bytes_at-past start (padded 16 name) numbers 8 16 start_length (length-padded 16 name),
      field_24,
      field_32,
      padded_back name p.0 p.1,
    )
  where
    start : List ℕ
    start = le_bytes 4 0x19 ++ le_bytes 4 (8 + length (payload (segment name vmaddr vmsize tail)))

    numbers : List ℕ
    numbers = le_bytes 8 vmaddr ++ (le_bytes 8 vmsize ++ (tail ++ rest))

    start_length : length start ≡ 8
    start_length = start_length_8 0x19 _

    laid_out :
        command_bytes (segment name vmaddr vmsize tail) ++ rest
        ≡ start ++ (padded 16 name ++ numbers)
    laid_out = simp append_assoc

    field_24 : field 24 8 (start ++ (padded 16 name ++ numbers)) ≡ returns vmaddr
    field_24 =
        ap (field 24 8) (sym (append_assoc start (padded 16 name) numbers))
        ∙ field-past (start ++ padded 16 name) (le_bytes 8 vmsize ++ (tail ++ rest)) 24 8 vmaddr
            (omega
              (arith, length-append start (padded 16 name), start_length, length-padded 16 name))
            (omega (arith, p.2))

    field_32 : field 32 8 (start ++ (padded 16 name ++ numbers)) ≡ returns vmsize
    field_32 =
        ap (field 32 8) (
          sym (append_assoc start (padded 16 name) numbers)
          ∙ sym (append_assoc (start ++ padded 16 name) (le_bytes 8 vmaddr) _))
        ∙ field-past ((start ++ padded 16 name) ++ le_bytes 8 vmaddr) (tail ++ rest) 32 8 vmsize
            (omega (
              arith,
              length-append (start ++ padded 16 name) (le_bytes 8 vmaddr),
              length-le_bytes 8 vmaddr,
              length-append start (padded 16 name),
              start_length,
              length-padded 16 name,
            ))
            (omega (arith, p.3))

pub uuid-command :
    (uuid tail rest : List ℕ)
    → length uuid ≡ 16
    → bytes_at 8 16 (command_bytes (uuid_of uuid tail) ++ rest) ≡ returns uuid
uuid-command uuid tail rest h =
    ap (bytes_at 8 16) laid_out
    ∙ bytes_at-past (le_bytes 4 0x1b ++ le_bytes 4 (8 + length (uuid ++ tail))) uuid (tail ++ rest)
        8 16 (start_length_8 0x1b _) h
  where
    laid_out :
        command_bytes (uuid_of uuid tail) ++ rest
        ≡ (le_bytes 4 0x1b ++ le_bytes 4 (8 + length (uuid ++ tail))) ++ (uuid ++ (tail ++ rest))
    laid_out = simp append_assoc
