-- ===== src/Unwind.antt =====
-- Sources/macMiniDump/Private/StackFrame.cpp: whether the function at an address has a stack frame,
-- by the compact unwind information of its module. The layouts and constants are those of
-- compact_unwind_encoding.h: a section header of 28 bytes, index entries of 12, regular pages with
-- entries of 8 and compressed pages with entries of 4.
pub mod Search
mod Examples
use mac_mini_dump.Prelude.{
  ℕ, zero, suc, ◌+◌, ◌-◌, ◌*◌, ◌/◌, ◌%◌, ◌^◌, Bool, true, false, ◌||◌, not, List, [], ◌∷◌, Option,
  none, some, ltb, leb, ◌==◌, if◌then◌else◌, take, drop,
}
use mac_mini_dump.Prelude.Words.{u32_mod, add64, sub64, add32, sub32}
use mac_mini_dump.Bytes.{from_le, until_nul, same_string}
use mac_mini_dump.Outcome.{Outcome, fault, returns, ◌>>=◌, bytes_at, field}
use mac_mini_dump.DataAccess.{Memory, read_process_memory_into}
use mac_mini_dump.Builder.{Arch, x86_64, arm64}
use mac_mini_dump.Modules.{ModuleInfo, ModuleInfos, text_name, get_module_info_for_address}
use mac_mini_dump.StackWalk.{StackFrameLookupResult, has_frame, frameless, unknown, Walker}

-- `unwindInfoAddr`, `textVmAddr` and `foundText`
pub record Sections : Type 0 where
  pub unwind_info_addr : ℕ
  pub text_vm_addr : ℕ
  pub found_text : Bool

-- "__unwind_info"
abbrev pub unwind_info_name : List ℕ
unwind_info_name = 95 ∷ 95 ∷ 117 ∷ 110 ∷ 119 ∷ 105 ∷ 110 ∷ 100 ∷ 95 ∷ 105 ∷ 110 ∷ 102 ∷ 111 ∷ []

-- The loop over the section_64 structures of 80 bytes: the last section of the name counts.
unfoldable pub sections_from : ℕ → List ℕ → ℕ → Outcome ℕ
sections_from zero sections addr = returns addr
sections_from (suc n) sections addr = do
  sectname ← bytes_at 0 16 sections
  addr' ←
      if same_string (until_nul sectname) unwind_info_name
      then field 32 8 sections
      else returns addr
  sections_from n (drop 80 sections) addr'

-- A segment_command_64, of 72 bytes, with its sections behind it.
unfoldable pub scan_segment : List ℕ → Sections → Outcome Sections
scan_segment command s = do
  segname ← bytes_at 8 16 command
  vmaddr ← field 24 8 command
  nsects ← field 64 4 command
  addr ← sections_from nsects (drop 72 command) s.unwind_info_addr
  if same_string (until_nul segname) text_name
      then returns (record { unwind_info_addr = addr; text_vm_addr = vmaddr; found_text = true })
      else returns (record s { unwind_info_addr = addr })

unfoldable pub scan_commands : ℕ → List ℕ → Sections → Outcome Sections
scan_commands zero commands s = returns s
scan_commands (suc n) commands s = do
  cmd ← field 0 4 commands
  s' ← if cmd == 0x19 then scan_segment commands s else returns s
  cmdsize ← field 4 4 commands
  scan_commands n (drop cmdsize commands) s'

-- A field of a structure that was read whole.
abbrev pub word : ℕ → ℕ → List ℕ → ℕ
word offset size bytes = from_le (take size (drop offset bytes))

-- How a binary search ends.
pub data Found : Type 0 where
  out_of_fuel read_failed : Found
  found : ℕ → Found

-- The loop of the three searches: `read` is the reading of a key, `target` what keys are compared
-- with; uint32_t arithmetic.
unfoldable pub search_loop : (ℕ → Option ℕ) → ℕ → (fuel low high : ℕ) → Found
search_loop read target zero low high = if ltb low high then out_of_fuel else found low
search_loop read target (suc fuel) low high =
    let mid = add32 low (sub32 high low / 2) in
    let above = search_loop read target fuel (add32 mid 1) high in
    let below = search_loop read target fuel low mid in
    let next : Found = elim (read mid) [
      | none ↦ read_failed
      | some key ↦ if leb key target then above else below
    ] in
    if ltb low high then next else found low

abbrev pub then_option : {A B : Type 0} → Option A → (A → Option B) → Option B
then_option none f = none
then_option (some a) f = f a

module _ (memory : Memory) where
  abbrev pub read_key : ℕ → ℕ → (List ℕ → ℕ) → ℕ → Option ℕ
  read_key entries_addr entry_size key_of i =
      then_option (read_process_memory_into memory (add64 entries_addr (i * entry_size)) entry_size)
        λ bytes. some (key_of bytes)

  -- A search with what follows it: the entry before the place where it ends is read. `none` is the
  -- return of Unknown.
  unfoldable pub find_entry :
      (entries_addr entry_size : ℕ) → (List ℕ → ℕ) → (target count : ℕ) → Option (List ℕ)
  find_entry entries_addr entry_size key_of target count =
      elim (search_loop (read_key entries_addr entry_size key_of) target count 0 count) [
        | out_of_fuel ↦ none
        | read_failed ↦ none
        | found low ↦
            if low == 0
            then none
            else read_process_memory_into memory (add64 entries_addr ((low - 1) * entry_size))
                entry_size
      ]

  -- UNWIND_SECOND_LEVEL_REGULAR
  unfoldable pub regular_encoding : (second_level_addr pc_offset : ℕ) → Option ℕ
  regular_encoding second_level_addr pc_offset =
      then_option (read_process_memory_into memory second_level_addr 8) λ page_header.
        then_option
          (find_entry (add64 second_level_addr 8) 8 (word 0 4) pc_offset (word 6 2 page_header))
          λ entry. some (word 4 4 entry)

  -- UNWIND_SECOND_LEVEL_COMPRESSED: 24 bits of function offset and 8 of the encoding's index.
  unfoldable pub compressed_encoding :
      (unwind_info_load_addr : ℕ) (unwind_header : List ℕ)
      (second_level_addr pc_offset base_function_offset : ℕ)
      → Option ℕ
  compressed_encoding unwind_info_load_addr unwind_header second_level_addr pc_offset
        base_function_offset =
      then_option (read_process_memory_into memory second_level_addr 12) λ page_header.
        then_option
          (find_entry (add64 second_level_addr 12) 4 (λ bytes. from_le bytes % 2 ^ 24)
            (sub32 pc_offset base_function_offset) (word 6 2 page_header))
          λ entry.
            let encoding_index = from_le entry / 2 ^ 24 in
            let common = word 8 4 unwind_header in
            let address =
              if ltb encoding_index common
              then add64 (add64 unwind_info_load_addr (word 4 4 unwind_header)) (encoding_index * 4)
              else add64 (add64 second_level_addr (word 8 2 page_header))
                  (sub32 encoding_index common % 2 ^ 16 * 4) in
            then_option (read_process_memory_into memory address 4) λ bytes. some (from_le bytes)

  abbrev pub page_encoding : ℕ → List ℕ → List ℕ → ℕ → Option ℕ
  page_encoding unwind_info_load_addr unwind_header entry pc_offset =
      let second_level_addr = add64 unwind_info_load_addr (word 4 4 entry) in
      then_option (read_process_memory_into memory second_level_addr 4) λ kind.
        if from_le kind == 2
        then regular_encoding second_level_addr pc_offset
        else if from_le kind == 3
        then compressed_encoding unwind_info_load_addr unwind_header second_level_addr pc_offset
            (word 0 4 entry)
        else none

  -- The encoding of the function at the offset, from the section that is loaded at the address.
  unfoldable pub find_encoding : (unwind_info_load_addr pc_offset : ℕ) → Option ℕ
  find_encoding unwind_info_load_addr pc_offset =
      then_option (read_process_memory_into memory unwind_info_load_addr 28) λ unwind_header.
        then_option
          (find_entry (add64 unwind_info_load_addr (word 20 4 unwind_header)) 12 (word 0 4)
            pc_offset (word 24 4 unwind_header))
          λ entry.
            if word 4 4 entry == 0
            then none
            else page_encoding unwind_info_load_addr unwind_header entry pc_offset

  -- `encoding & UNWIND_ARM64_MODE_MASK`: the mode is 4 bits, FRAME is 4 and FRAMELESS is 2.
  abbrev pub mode_result : Option ℕ → StackFrameLookupResult
  mode_result none = unknown
  mode_result (some encoding) =
      if encoding / 2 ^ 24 % 16 == 4
      then has_frame
      else if encoding / 2 ^ 24 % 16 == 2
      then frameless
      else unknown

  abbrev pub lookup_in_module : ModuleInfo → ℕ → Outcome StackFrameLookupResult
  lookup_in_module mi pc = do
    ncmds ← field 16 4 mi.header_and_load_command_bytes
    s ←
        scan_commands ncmds (drop 32 mi.header_and_load_command_bytes)
          (record { unwind_info_addr = 0; text_vm_addr = 0; found_text = false })
    let unwind_info_load_addr = add64 s.unwind_info_addr (sub64 mi.load_address s.text_vm_addr)
    if s.unwind_info_addr == 0 || not s.found_text
        then returns unknown
        else returns
            (mode_result (find_encoding unwind_info_load_addr (sub64 pc mi.load_address % u32_mod)))

  unfoldable pub lookup_stack_frame_for_pc : Arch → ModuleInfos → ℕ → Outcome StackFrameLookupResult
  lookup_stack_frame_for_pc x86_64 modules pc = returns unknown
  lookup_stack_frame_for_pc arm64 modules pc = elim (get_module_info_for_address modules pc) [
    | none ↦ returns unknown
    | some mi ↦ lookup_in_module mi pc
  ]

-- The walk with this lookup, over a list of modules.
abbrev pub walker_of : Arch → Memory → (ℕ → ℕ) → ModuleInfos → Walker
walker_of arch memory xpaci modules = record {
  arch = arch;
  memory = memory;
  xpaci = xpaci;
  lookup_stack_frame_for_pc = lookup_stack_frame_for_pc memory arch modules;
}
