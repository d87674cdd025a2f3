-- ===== src/Modules.antt =====
-- Sources/macMiniDump/Private/ModuleList.hpp and .cpp. Parameters: the memory of the task,
-- `vm_region_recurse_64`, and what the constructor learns from dyld: the address that `task_info`
-- gives, and the structures of dyld_images.h at an address of the task. LC_SEGMENT_64 is 0x19 and
-- LC_UUID 0x1b; the fields stand where Misc/core.hsl has them.
pub mod Commands
pub mod Parse
pub mod Images
pub mod Lookup
mod Examples
use mac_mini_dump.Prelude.{
  ℕ, zero, suc, ◌+◌, Bool, true, false, ◌&&◌, not, List, [], ◌∷◌, ◌++◌, map, Option, none, some,
  ltb, leb, ◌==◌, if◌then◌else◌, length, drop, replicate,
}
use mac_mini_dump.Prelude.Words.{add64, sub64}
use mac_mini_dump.Bytes.{until_nul, same_string, padded}
use mac_mini_dump.Outcome.{Outcome, fault, returns, ◌>>=◌, bytes_at, field}
use mac_mini_dump.DataAccess.{Memory, read_process_memory_into, read_process_memory}
use mac_mini_dump.Regions.{RegionReply}
use mac_mini_dump.ProcessStrings.{read_process_memory_string}
use mac_mini_dump.SortedMap.{insert, candidate}

pub record SegmentInfo : Type 0 where
  pub segment_name : List ℕ
  pub address : ℕ
  pub size : ℕ

pub record ModuleInfo : Type 0 where
  pub load_address : ℕ
  pub uuid : List ℕ
  pub file_path : List ℕ
  pub segments : List SegmentInfo
  pub executing : Bool
  pub header_and_load_command_bytes : List ℕ

abbrev pub ModuleInfos : Type 0
ModuleInfos = List (ℕ × ModuleInfo)

-- "__TEXT" and "__PAGEZERO"
abbrev pub text_name : List ℕ
text_name = 95 ∷ 95 ∷ 84 ∷ 69 ∷ 88 ∷ 84 ∷ []

abbrev pub page_zero_name : List ℕ
page_zero_name = 95 ∷ 95 ∷ 80 ∷ 65 ∷ 71 ∷ 69 ∷ 90 ∷ 69 ∷ 82 ∷ 79 ∷ []

-- The fields of a segment_command_64 that are kept. `strncpy` stops at a NUL and fills up with
-- NULs.
unfoldable pub segment_info : List ℕ → Outcome SegmentInfo
segment_info command = do
  name ← bytes_at 8 16 command
  vmaddr ← field 24 8 command
  vmsize ← field 32 8 command
  returns (record { segment_name = padded 16 (until_nul name); address = vmaddr; size = vmsize })

abbrev pub when_segment : ℕ → List ℕ → Outcome (List SegmentInfo)
when_segment cmd command =
    if cmd == 0x19 then segment_info command >>= (λ new. returns (new ∷ [])) else returns []

-- The loop over the load commands, from the one that the pointer stands at.
unfoldable pub segments_from : ℕ → List ℕ → Outcome (List SegmentInfo)
segments_from zero commands = returns []
segments_from (suc n) commands = do
  cmd ← field 0 4 commands
  found ← when_segment cmd commands
  cmdsize ← field 4 4 commands
  rest ← segments_from n (drop cmdsize commands)
  returns (found ++ rest)

-- `pHeader->ncmds` stands at 16 of the header's 32 bytes.
unfoldable pub get_segments_of_module : List ℕ → Outcome (List SegmentInfo)
get_segments_of_module module_bytes = do
  ncmds ← field 16 4 module_bytes
  segments_from ncmds (drop 32 module_bytes)

unfoldable pub uuid_from : ℕ → List ℕ → Outcome (List ℕ)
uuid_from zero commands = returns (replicate 16 0)
uuid_from (suc n) commands = do
  cmd ← field 0 4 commands
  let next = field 4 4 commands >>= λ cmdsize. uuid_from n (drop cmdsize commands)
  if cmd == 0x1b then bytes_at 8 16 commands else next

unfoldable pub get_uuid_of_module : List ℕ → Outcome (List ℕ)
get_uuid_of_module module_bytes = do
  ncmds ← field 16 4 module_bytes
  uuid_from ncmds (drop 32 module_bytes)

-- `strcmp (segmentName, …) == 0`: a name of 16 chars has no NUL of its own, but differs from the
-- shorter ones asked for within them.
abbrev pub has_name : List ℕ → SegmentInfo → Bool
has_name name si = same_string (until_nul si.segment_name) name

-- The first segment of the name.
abbrev pub segment_named : List ℕ → List SegmentInfo → Option SegmentInfo
segment_named name [] = none
segment_named name (si ∷ rest) = if has_name name si then some si else segment_named name rest

unfoldable pub get_text_segment_of_module : ModuleInfo → Option SegmentInfo
get_text_segment_of_module mi = segment_named text_name mi.segments

-- 0 where there is no __TEXT.
abbrev pub slide_of : ℕ → List SegmentInfo → ℕ
slide_of load_address segments = elim (segment_named text_name segments) [
  | none ↦ 0
  | some si ↦ sub64 load_address si.address
]

abbrev pub slide_segment : ℕ → SegmentInfo → SegmentInfo
slide_segment slide si =
    if has_name page_zero_name si then si else record si { address = add64 si.address slide }

abbrev pub module_of : ℕ → List ℕ → List ℕ → Outcome ModuleInfo
module_of load_address image_file_path raw = do
  segments ← get_segments_of_module raw
  uuid ← get_uuid_of_module raw
  returns (record {
    load_address = load_address;
    uuid = uuid;
    file_path = image_file_path;
    segments = map (slide_segment (slide_of load_address segments)) segments;
    executing = false;
    header_and_load_command_bytes = raw;
  })

-- `none` is `false`. `header.sizeofcmds` stands at 20.
unfoldable pub create_module_info : Memory → ℕ → List ℕ → Outcome (Option ModuleInfo)
create_module_info memory load_address image_file_path =
    elim (read_process_memory_into memory load_address 32) [
      | none ↦ returns none
      | some header ↦ field 20 4 header >>= λ sizeofcmds.
          elim (read_process_memory memory load_address (32 + sizeofcmds)) [
            | none ↦ returns none
            | some raw ↦ module_of load_address image_file_path raw >>= λ mi. returns (some mi)
          ]
    ]

-- The other overload: the path is read from the task.
unfoldable pub create_module_info_at :
    Memory → (ℕ → ℕ → Option RegionReply) → ℕ → ℕ → Outcome (Option ModuleInfo)
create_module_info_at memory region_recurse load_address image_file_path_address =
    elim (read_process_memory_string memory region_recurse image_file_path_address 4096) [
      | none ↦ returns none
      | some image_path ↦ create_module_info memory load_address image_path
    ]

-- The fields of `dyld_image_info` and `dyld_all_image_infos` that are read.
pub record DyldImageInfo : Type 0 where
  pub image_load_address : ℕ
  pub image_file_path : ℕ

pub record DyldAllImageInfos : Type 0 where
  pub version : ℕ
  pub info_array_count : ℕ
  pub info_array : ℕ
  pub dyld_image_load_address : ℕ
  pub dyld_path : ℕ

pub record Dyld : Type 0 where
  pub task_dyld_info : Option ℕ
  pub all_image_infos : ℕ → Option DyldAllImageInfos
  pub image_info_array : ℕ → ℕ → Option (List DyldImageInfo)

-- "/usr/lib/dyld"
abbrev pub default_dyld_path : List ℕ
default_dyld_path = 47 ∷ 117 ∷ 115 ∷ 114 ∷ 47 ∷ 108 ∷ 105 ∷ 98 ∷ 47 ∷ 100 ∷ 121 ∷ 108 ∷ 100 ∷ []

abbrev pub dyld_image_path : Memory → (ℕ → ℕ → Option RegionReply) → DyldAllImageInfos → List ℕ
dyld_image_path memory region_recurse image_info =
    if ltb image_info.version 15
    then default_dyld_path
    else elim (read_process_memory_string memory region_recurse image_info.dyld_path 4096) [
      | none ↦ default_dyld_path
      | some path ↦ path
    ]

module _ (memory : Memory) (region_recurse : ℕ → ℕ → Option RegionReply) where
  -- The loop over the images. A failure empties the list.
  unfoldable pub add_images : List DyldImageInfo → ModuleInfos → Outcome ModuleInfos
  add_images [] modules = returns modules
  add_images (image ∷ rest) modules =
      create_module_info_at memory region_recurse image.image_load_address image.image_file_path
      >>= λ created. elim created [
        | none ↦ returns []
        | some mi ↦ add_images rest (insert mi.load_address mi modules)
      ]

  abbrev pub add_dyld_and_images : DyldAllImageInfos → List DyldImageInfo → Outcome ModuleInfos
  add_dyld_and_images image_info images =
      create_module_info memory image_info.dyld_image_load_address
        (dyld_image_path memory region_recurse image_info)
      >>= λ created. elim created [
        | none ↦ returns []
        | some mi ↦ add_images images (insert mi.load_address mi [])
      ]

  -- The constructor.
  unfoldable pub new_module_list : Dyld → Outcome ModuleInfos
  new_module_list dyld = elim dyld.task_dyld_info [
    | none ↦ returns []
    | some dyld_info_address ↦ elim (dyld.all_image_infos dyld_info_address) [
      | none ↦ returns []
      | some image_info ↦
          elim (dyld.image_info_array image_info.info_array image_info.info_array_count) [
            | none ↦ returns []
            | some images ↦ add_dyld_and_images image_info images
          ]
    ]
  ]

unfoldable pub is_valid : ModuleInfos → Bool
is_valid [] = false
is_valid (x ∷ modules) = true

unfoldable pub get_size : ModuleInfos → ℕ
get_size modules = length modules

unfoldable pub is_code_in_module : ℕ → ModuleInfo → Bool
is_code_in_module addr mi = elim (get_text_segment_of_module mi) [
  | none ↦ false
  | some si ↦ leb si.address addr && leb addr (add64 si.address si.size)
]

-- Each entry with its key, which stands for the pointer to the entry.
abbrev pub with_key : ℕ × ModuleInfo → ℕ × (ℕ × ModuleInfo)
with_key (k, mi) = (k, (k, mi))

unfoldable pub get_module_info_for_address_impl : ModuleInfos → ℕ → Option (ℕ × ModuleInfo)
get_module_info_for_address_impl modules address = elim (candidate address (map with_key modules)) [
  | none ↦ none
  | some entry ↦ if is_code_in_module address entry.1 then some entry else none
]

unfoldable pub get_module_info_for_address : ModuleInfos → ℕ → Option ModuleInfo
get_module_info_for_address modules address =
    elim (get_module_info_for_address_impl modules address) [
      | none ↦ none
      | some entry ↦ some entry.1
    ]

-- `executing = true` at the entry of a key.
abbrev pub set_executing : ℕ → ℕ × ModuleInfo → ℕ × ModuleInfo
set_executing key (k, mi) = (k, if k == key then record mi { executing = true } else mi)

unfoldable pub mark_as_executing : ℕ → ModuleInfos → ModuleInfos × Bool
mark_as_executing code_address modules =
    elim (get_module_info_for_address_impl modules code_address) [
      | none ↦ (modules, false)
      | some entry ↦ (map (set_executing entry.0) modules, true)
    ]

unfoldable pub invalidate : ModuleInfos → ModuleInfos
invalidate modules = []
