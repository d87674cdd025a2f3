-- ===== src/Payloads.antt =====
-- Sources/macMiniDump/Private/MacMiniDump.cpp: the payloads of the notes, and the structures of
-- MachOCoreInternal.hpp as they stand in memory. A `memcpy` into the payload that goes past its end
-- is a fault. std::to_string is written out.
pub mod Store
pub mod Layout
pub mod Json
pub mod MainBinary
pub mod Reader
pub mod ReadBack
mod Examples
use mac_mini_dump.Prelude.{
  ℕ, zero, suc, ◌+◌, ◌-◌, ◌*◌, ◌/◌, ◌%◌, Bool, true, false, List, [], ◌∷◌, ◌++◌, map, Option, none,
  some, ltb, leb, ◌==◌, if◌then◌else◌, length, take, drop, replicate,
}
use mac_mini_dump.Prelude.Words.{uint64_max, add64, sub64}
use mac_mini_dump.Bytes.{le_bytes, until_nul, same_string, padded}
use mac_mini_dump.Outcome.{Outcome, fault, returns, ◌>>=◌, bytes_at, field}
use mac_mini_dump.Modules.{SegmentInfo, ModuleInfo, ModuleInfos, text_name}

-- std::to_string of a uint64_t, which has at most 20 digits.
unfoldable pub digits : ℕ → ℕ → List ℕ
digits zero n = []
digits (suc fuel) n =
    let front = digits fuel (n / 10) in
    if ltb n 10 then (48 + n) ∷ [] else front ++ (48 + n % 10) ∷ []

abbrev pub to_string : ℕ → List ℕ
to_string n = digits 20 n

-- `{"threads":[`, `{"thread_id":`, `}`, `,` and `]}`
abbrev pub json_start : List ℕ
json_start = 123 ∷ 34 ∷ 116 ∷ 104 ∷ 114 ∷ 101 ∷ 97 ∷ 100 ∷ 115 ∷ 34 ∷ 58 ∷ 91 ∷ []

abbrev pub json_thread : ℕ → List ℕ
json_thread id =
    (123 ∷ 34 ∷ 116 ∷ 104 ∷ 114 ∷ 101 ∷ 97 ∷ 100 ∷ 95 ∷ 105 ∷ 100 ∷ 34 ∷ 58 ∷ [])
    ++ (to_string id ++ 125 ∷ [])

-- The rounds of the loop after the first.
abbrev pub json_more : List ℕ → List ℕ
json_more [] = []
json_more (id ∷ ids) = 44 ∷ (json_thread id ++ json_more ids)

abbrev pub json_threads : List ℕ → List ℕ
json_threads [] = []
json_threads (id ∷ ids) = json_thread id ++ json_more ids

unfoldable pub create_process_metadata_payload : List ℕ → List ℕ
create_process_metadata_payload thread_ids =
    json_start ++ (json_threads thread_ids ++ 93 ∷ 125 ∷ [])

-- `filetype` stands at 12, and MH_EXECUTE is 2.
unfoldable pub is_main_executable : ModuleInfo → Outcome Bool
is_main_executable mi =
    field 12 4 mi.header_and_load_command_bytes >>= λ filetype. returns (filetype == 2)

unfoldable pub text_address_from : ℕ → List ℕ → Outcome ℕ
text_address_from zero commands = returns 0
text_address_from (suc n) commands = do
  cmd ← field 0 4 commands
  let next = field 4 4 commands >>= λ cmdsize. text_address_from n (drop cmdsize commands)
  let segment = bytes_at 8 16 commands >>= λ segname.
      if same_string (until_nul segname) text_name then field 24 8 commands else next
  if cmd == 0x19 then segment else next

unfoldable pub get_preferred_text_address : ModuleInfo → Outcome ℕ
get_preferred_text_address mi = do
  ncmds ← field 16 4 mi.header_and_load_command_bytes
  text_address_from ncmds (drop 32 mi.header_and_load_command_bytes)

-- The modules that the loops do not skip.
unfoldable pub other_modules : ModuleInfos → Outcome (List ModuleInfo)
other_modules [] = returns []
other_modules ((load_addr, mi) ∷ rest) = do
  main ← is_main_executable mi
  others ← other_modules rest
  returns (if main then others else mi ∷ others)

-- AllImageInfosHeader, ImageEntry and SegmentVMAddr: 24, 48 and 32 bytes.
abbrev pub header_bytes : ℕ → ℕ → List ℕ
header_bytes payload_offset n_modules =
    le_bytes 4 1
    ++ (le_bytes 4 n_modules
        ++ (le_bytes 8 (add64 payload_offset 24) ++ (le_bytes 4 48 ++ le_bytes 4 0)))

abbrev pub executing_flag : Bool → ℕ
executing_flag executing = if executing then 1 else 0

abbrev pub image_entry_bytes : ModuleInfo → ℕ → ℕ → List ℕ
image_entry_bytes mi module_path_offset seg_addrs_offset =
    le_bytes 8 module_path_offset
    ++ (padded 16 mi.uuid
        ++ (le_bytes 8 mi.load_address
            ++ (le_bytes 8 seg_addrs_offset
                ++ (le_bytes 4 (length mi.segments) ++ le_bytes 4 (executing_flag mi.executing)))))

abbrev pub segment_vmaddr_bytes : SegmentInfo → List ℕ
segment_vmaddr_bytes si =
    padded 16 (until_nul si.segment_name) ++ (le_bytes 8 si.address ++ le_bytes 8 0)

-- The tallies of the first loop; a path has its NUL.
abbrev pub module_paths_size : List ModuleInfo → ℕ
module_paths_size [] = 0
module_paths_size (mi ∷ rest) = length mi.file_path + 1 + module_paths_size rest

abbrev pub segment_count : List ModuleInfo → ℕ
segment_count [] = 0
segment_count (mi ∷ rest) = length mi.segments + segment_count rest

-- `memcpy (&result[offset], bytes, …)`
unfoldable pub store : ℕ → List ℕ → List ℕ → Outcome (List ℕ)
store offset bytes result =
    if leb (offset + length bytes) (length result)
    then returns (take offset result ++ (bytes ++ drop (offset + length bytes) result))
    else fault

unfoldable pub store_image_entries :
    List ModuleInfo → (path_offset seg_addrs_offset mem_offset : ℕ) → List ℕ → Outcome (List ℕ)
store_image_entries [] path_offset seg_addrs_offset mem_offset result = returns result
store_image_entries (mi ∷ rest) path_offset seg_addrs_offset mem_offset result =
    store mem_offset (image_entry_bytes mi path_offset seg_addrs_offset) result
    >>= store_image_entries rest (add64 path_offset (length mi.file_path + 1))
        (add64 seg_addrs_offset (length mi.segments * 32)) (mem_offset + 48)

unfoldable pub store_segments : List SegmentInfo → ℕ → List ℕ → Outcome (List ℕ)
store_segments [] mem_offset result = returns result
store_segments (si ∷ rest) mem_offset result =
    store mem_offset (segment_vmaddr_bytes si) result >>= store_segments rest (mem_offset + 32)

unfoldable pub store_segment_lists : List ModuleInfo → ℕ → List ℕ → Outcome (List ℕ)
store_segment_lists [] mem_offset result = returns result
store_segment_lists (mi ∷ rest) mem_offset result =
    store_segments mi.segments mem_offset result
    >>= store_segment_lists rest (mem_offset + length mi.segments * 32)

unfoldable pub store_paths : List ModuleInfo → ℕ → List ℕ → Outcome (List ℕ)
store_paths [] mem_offset result = returns result
store_paths (mi ∷ rest) mem_offset result =
    store mem_offset (mi.file_path ++ 0 ∷ []) result
    >>= store_paths rest (mem_offset + (length mi.file_path + 1))

abbrev pub payload_size : ℕ → List ModuleInfo → ℕ
payload_size n_modules others =
    24 + n_modules * 48 + segment_count others * 32 + module_paths_size others

-- `payloadOffset + payloadSize - modulePathsSize`, and the segments in front of it.
abbrev pub paths_start : ℕ → ℕ → List ModuleInfo → ℕ
paths_start payload_offset n_modules others =
    sub64 (add64 payload_offset (payload_size n_modules others)) (module_paths_size others)

abbrev pub lay_out : ℕ → ℕ → List ModuleInfo → Outcome (List ℕ)
lay_out payload_offset n_modules others = do
  with_header ←
      store 0 (header_bytes payload_offset n_modules) (replicate (payload_size n_modules others) 0)
  with_entries ←
      store_image_entries others (paths_start payload_offset n_modules others)
        (sub64 (paths_start payload_offset n_modules others) (segment_count others * 32)) 24
        with_header
  with_segments ← store_segment_lists others (24 + n_modules * 48) with_entries
  store_paths others (payload_size n_modules others - module_paths_size others) with_segments

-- `GetSize () - 1` of a list that is not empty.
unfoldable pub create_all_image_infos_payload : ℕ → ModuleInfos → Outcome (List ℕ)
create_all_image_infos_payload payload_offset [] = returns []
create_all_image_infos_payload payload_offset (x ∷ rest) =
    other_modules (x ∷ rest) >>= lay_out payload_offset (length rest)

abbrev pub main_bin_spec_bytes : ℕ → List ℕ → List ℕ
main_bin_spec_bytes slide uuid =
    le_bytes 4 2
    ++ (le_bytes 4 0
        ++ (le_bytes 8 uint64_max
            ++ (le_bytes 8 slide ++ (padded 16 uuid ++ (le_bytes 4 0 ++ le_bytes 4 0)))))

-- The default values of the structure where no module is the main executable.
unfoldable pub create_main_bin_spec_payload : ModuleInfos → Outcome (List ℕ)
create_main_bin_spec_payload [] = returns (main_bin_spec_bytes uint64_max [])
create_main_bin_spec_payload ((load_addr, mi) ∷ rest) = do
  main ← is_main_executable mi
  let further = create_main_bin_spec_payload rest
  let spec = get_preferred_text_address mi >>= λ text.
      returns (main_bin_spec_bytes (sub64 load_addr text) mi.uuid)
  if main then spec else further
