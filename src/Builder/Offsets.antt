-- ===== src/Builder/Offsets.antt =====
-- MachOCoreDumpBuilder.cpp: finding a note by its name, and the offsets of the payloads.
use mac_mini_dump.Prelude.{
  ℕ, zero, suc, ◌+◌, ◌*◌, ◌/◌, ◌%◌, Bool, true, false, List, [], ◌∷◌, ◌++◌, Option, none, some,
  ◌==◌, if◌then◌else◌,
}
use mac_mini_dump.Prelude.Words.{u64_mod, add64}
use mac_mini_dump.Bytes.{le_bytes, until_nul, same_string}
use mac_mini_dump.DataAccess.{DataProvider}
use mac_mini_dump.Builder.{
  Outcome, fault, returns, header_size, NoteCommand, Note, Segment, Builder,
}

-- `number / roundTo` and `number % roundTo` trap on 0.
unfoldable pub round_up : ℕ → ℕ → Outcome ℕ
round_up number zero = fault
round_up number (suc n) =
    if number % suc n == 0 then returns number else returns ((number / suc n + 1) * suc n % u64_mod)

-- What `strcmp` reads at `data_owner`: a name of 16 chars has no NUL of its own, so the comparison
-- goes on through `offset` and `size`.
unfoldable pub owner_string : NoteCommand → List ℕ
owner_string nc = until_nul (nc.data_owner ++ (le_bytes 8 nc.offset ++ le_bytes 8 nc.size))

-- The loop of AddDataProviderForNoteCommand: the notes after it, or `none` if none has the name.
unfoldable pub set_provider : List ℕ → DataProvider → List Note → Option (List Note)
set_provider owner provider [] = none
set_provider owner provider ((nc, old) ∷ rest) =
    if same_string (owner_string nc) owner
    then some ((record nc { size = provider.size }, some provider) ∷ rest)
    else elim (set_provider owner provider rest) [
      | none ↦ none
      | some rest' ↦ some ((nc, old) ∷ rest')
    ]

unfoldable pub add_data_provider_for_note_command : List ℕ → DataProvider → Builder → Builder × Bool
add_data_provider_for_note_command owner provider b =
    elim (set_provider owner provider b.note_cmds) [
      | none ↦ (b, false)
      | some notes ↦ (record b { note_cmds = notes }, true)
    ]

-- The loop of GetOffsetForNoteCommandPayload, from a payload offset on.
unfoldable pub note_offset_from : List ℕ → ℕ → List Note → Option ℕ
note_offset_from owner payload_offset [] = none
note_offset_from owner payload_offset ((nc, provider) ∷ rest) =
    if same_string owner (owner_string nc)
    then some payload_offset
    else note_offset_from owner (add64 payload_offset nc.size) rest

abbrev pub bind_offset : Outcome ℕ → (ℕ → Outcome (Option ℕ)) → Outcome (Option ℕ)
bind_offset fault f = fault
bind_offset (returns n) f = f n

-- `none` is the result `false`, which leaves the caller's variable as it was.
unfoldable pub get_offset_for_note_command_payload : List ℕ → Builder → Outcome (Option ℕ)
get_offset_for_note_command_payload owner b =
    if b.load_commands_finalized
    then bind_offset (round_up (header_size + b.header.sizeofcmds) 16)
        (λ payload_offset. returns (note_offset_from owner payload_offset b.note_cmds))
    else returns none

-- `m_note_cmds.back ()`
abbrev pub last_note : List Note → Option NoteCommand
last_note [] = none
last_note ((nc, provider) ∷ []) = some nc
last_note (nc ∷ nc' ∷ rest) = last_note (nc' ∷ rest)

unfoldable pub segment_offset_from : ℕ → ℕ → List Segment → Option ℕ
segment_offset_from vmaddr payload_offset [] = none
segment_offset_from vmaddr payload_offset ((sc, provider) ∷ rest) =
    if vmaddr == sc.vmaddr
    then some payload_offset
    else segment_offset_from vmaddr (add64 payload_offset sc.filesize) rest

abbrev pub or_zero : Option ℕ → ℕ
or_zero none = 0
or_zero (some n) = n

unfoldable pub get_offset_for_segment_command_payload : ℕ → Builder → Outcome (Option ℕ)
get_offset_for_segment_command_payload vmaddr b =
    if b.load_commands_finalized
    then elim (last_note b.note_cmds) [
      | none ↦ fault
      | some nc ↦ elim (get_offset_for_note_command_payload (owner_string nc) b) [
        | fault ↦ fault
        | returns last_offset ↦
            bind_offset (round_up (add64 (or_zero last_offset) nc.size) 0x1000)
              (λ payload_offset. returns (segment_offset_from vmaddr payload_offset b.segment_cmds))
      ]
    ]
    else returns none
