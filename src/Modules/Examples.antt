-- ===== src/Modules/Examples.antt =====
-- ModuleList: each theorem at an input.
use mac_mini_dump.Prelude.{
  ℕ, ◌≡◌, refl, true, false, List, [], ◌∷◌, ◌++◌, Option, none, some, arith, take, replicate,
}
use mac_mini_dump.Bytes.{le_bytes, from_le, until_nul, same_string, padded}
use mac_mini_dump.Outcome.{returns, bytes_at}
use mac_mini_dump.DataAccess.{Memory}
use mac_mini_dump.Regions.{RegionReply}
use mac_mini_dump.Modules.{
  SegmentInfo, ModuleInfo, text_name, page_zero_name, segment_named, get_text_segment_of_module,
  get_segments_of_module, get_uuid_of_module, create_module_info, DyldAllImageInfos, Dyld,
  default_dyld_path, is_code_in_module, get_module_info_for_address, mark_as_executing,
}
use mac_mini_dump.Modules.Commands.{
  LoadCommand, segment, uuid_of, commands_bytes, AllProper, kept_segments,
}
use mac_mini_dump.Modules.Parse.{parse-commands}
use mac_mini_dump.Modules.Images.{create-slide}
use mac_mini_dump.Modules.Lookup.{CodeOf, NoCode, mark-owner}

-- A __TEXT segment at 0x1000 and an LC_UUID: 64 bytes of load commands.
abbrev commands : List LoadCommand
commands = segment text_name 0x1000 0x10 [] ∷ uuid_of (replicate 16 7) [] ∷ []

abbrev header_end : List ℕ
header_end = le_bytes 4 64 ++ replicate 8 0

abbrev module_bytes : List ℕ
module_bytes = replicate 16 0 ++ (le_bytes 4 2 ++ (header_end ++ (commands_bytes commands ++ [])))

proper : AllProper commands
unfolding padded le_bytes
proper = (
  ((
    (omega arith, (omega arith, (omega arith, (omega arith, (omega arith, (omega arith, tt)))))),
    omega arith,
    omega arith,
    omega arith,
  )),
  omega arith,
  (refl, omega arith, tt),
)

parse-commands_example :
    (get_segments_of_module module_bytes ≡ returns (kept_segments commands))
    × (get_uuid_of_module module_bytes ≡ returns (replicate 16 7))
unfolding le_bytes
parse-commands_example =
    parse-commands (replicate 16 0) header_end [] commands refl refl (omega arith) proper

abbrev memory : Memory
memory address size = some (take size module_bytes)

create-slide_example :
    (mi : ModuleInfo) × (create_module_info memory 0x5000 default_dyld_path ≡ returns (some mi))
    × ((si : SegmentInfo)
        → segment_named text_name (kept_segments commands) ≡ some si
        → get_text_segment_of_module mi ≡ some (record si { address = 0x5000 }))
    × ((si : SegmentInfo)
        → segment_named page_zero_name (kept_segments commands) ≡ some si
        → segment_named page_zero_name mi.segments ≡ some si)
unfolding le_bytes from_le padded bytes_at
create-slide_example =
    create-slide memory 0x5000 64 default_dyld_path (take 32 module_bytes) module_bytes
      (replicate 16 7) (kept_segments commands) refl refl refl parse-commands_example.0
      parse-commands_example.1 (omega arith) (omega arith, tt)

abbrev no_regions : ℕ → ℕ → Option RegionReply
no_regions address depth = none

abbrev info : DyldAllImageInfos
info = record {
  version = 9;
  info_array_count = 0;
  info_array = 2;
  dyld_image_load_address = 0x5000;
  dyld_path = 0;
}

abbrev dyld : Dyld
dyld = record {
  task_dyld_info = some 1;
  all_image_infos = λ address. some info;
  image_info_array = λ address count. some [];
}

abbrev text_segment : SegmentInfo
text_segment = record { segment_name = padded 16 text_name; address = 0x5000; size = 0x10 }

abbrev loaded : ModuleInfo
loaded = record {
  load_address = 0x5000;
  uuid = replicate 16 7;
  file_path = default_dyld_path;
  segments = text_segment ∷ [];
  executing = false;
  header_and_load_command_bytes = [];
}

code : CodeOf 0x5005 0x5000 loaded
unfolding get_text_segment_of_module same_string until_nul padded
code = (text_segment, refl, refl, omega arith, omega arith, omega arith)

mark-owner_example :
    (get_module_info_for_address ((0x5000, loaded) ∷ []) 0x5005 ≡ some loaded)
    × (mark_as_executing 0x5005 ((0x5000, loaded) ∷ [])
        ≡ ((0x5000, record loaded { executing = true }) ∷ [], true))
mark-owner_example =
    mark-owner 0x5005 0 0x6000 0x5000 loaded [] [] (omega arith, tt) code (omega arith) tt

no_code : NoCode 0x9999 ((0x5000, loaded) ∷ [])
unfolding is_code_in_module get_text_segment_of_module same_string until_nul padded
no_code = (refl, tt)
