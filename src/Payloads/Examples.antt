-- ===== src/Payloads/Examples.antt =====
-- The payloads of the notes: each theorem at an input.
use mac_mini_dump.Prelude.{
  ℕ, ◌≡◌, refl, true, false, List, some, map, none, [], ◌∷◌, ◌++◌, arith, replicate,
}
use mac_mini_dump.Bytes.{le_bytes, from_le, padded, until_nul, same_string}
use mac_mini_dump.Outcome.{returns, bytes_at}
use mac_mini_dump.Modules.{
  SegmentInfo, ModuleInfo, ModuleInfos, text_name, segment_info, segments_from,
  get_segments_of_module, uuid_from, get_uuid_of_module, segment_named, slide_segment, module_of,
}
use mac_mini_dump.Payloads.{
  is_main_executable, other_modules, create_all_image_infos_payload,
  create_process_metadata_payload, create_main_bin_spec_payload, main_bin_spec_bytes,
}
use mac_mini_dump.Payloads.MainBinary.{main_bin_spec-slide}
use mac_mini_dump.Payloads.Json.{numbers, payload-numbers}
use mac_mini_dump.Payloads.Reader.{read_image_infos, image_of}
use mac_mini_dump.Payloads.ReadBack.{image_infos-read}

-- A module whose header has the file type.
abbrev module_of_type : ℕ → ℕ → ModuleInfo
module_of_type filetype load_address = record {
  load_address = load_address;
  uuid = replicate 16 7;
  file_path = 47 ∷ 97 ∷ [];
  segments = record { segment_name = text_name; address = load_address; size = 16 } ∷ [];
  executing = false;
  header_and_load_command_bytes = replicate 12 0 ++ (le_bytes 4 filetype ++ replicate 16 0);
}

-- The main executable and a library.
abbrev library : ModuleInfo
library = module_of_type 6 0x9000

abbrev modules : ModuleInfos
modules = (0x5000, module_of_type 2 0x5000) ∷ (0x9000, library) ∷ []

others-at : other_modules modules ≡ returns (library ∷ [])
unfolding other_modules is_main_executable bytes_at le_bytes from_le
others-at = refl

image_infos-read_example :
    (bytes : List ℕ) × (create_all_image_infos_payload 1000 modules ≡ returns bytes)
    × (read_image_infos 1000 bytes ≡ map image_of (library ∷ []))
image_infos-read_example =
    image_infos-read 1000 (0x5000, module_of_type 2 0x5000) ((0x9000, library) ∷ []) (library ∷ [])
      others-at refl (omega arith) (omega arith)
      (
        (
          (omega arith, (omega arith, tt)),
          refl,
          omega arith,
          omega arith,
          (omega arith, omega arith, tt),
        ),
        tt,
      )

payload-numbers_example :
    numbers none (create_process_metadata_payload (120 ∷ 7 ∷ [])) ≡ 120 ∷ 7 ∷ []
payload-numbers_example = payload-numbers (120 ∷ 7 ∷ []) (omega arith, (omega arith, tt))

-- The main executable with a __TEXT segment at 0x1000, loaded at 0x5000.
abbrev raw : List ℕ
raw =
    replicate 12 0
    ++ (le_bytes 4 2
        ++ (le_bytes 4 1
            ++ (replicate 12 0
                ++ (le_bytes 4 0x19
                    ++ (le_bytes 4 72
                        ++ (padded 16 text_name
                            ++ (le_bytes 8 0x1000 ++ (le_bytes 8 0x2000 ++ replicate 32 0))))))))

abbrev text : SegmentInfo
text = record { segment_name = padded 16 text_name; address = 0x1000; size = 0x2000 }

abbrev loaded : ModuleInfo
loaded = record {
  load_address = 0x5000;
  uuid = replicate 16 0;
  file_path = 47 ∷ 97 ∷ [];
  segments = record text { address = 0x5000 } ∷ [];
  executing = false;
  header_and_load_command_bytes = raw;
}

segments-at : get_segments_of_module raw ≡ returns (text ∷ [])
unfolding get_segments_of_module segments_from segment_info bytes_at le_bytes from_le padded
    until_nul
segments-at = refl

text-at : segment_named text_name (text ∷ []) ≡ some text
unfolding same_string until_nul padded
text-at = refl

loaded-at : module_of 0x5000 (47 ∷ 97 ∷ []) raw ≡ returns loaded
unfolding get_segments_of_module segments_from segment_info bytes_at le_bytes from_le padded
    until_nul get_uuid_of_module uuid_from same_string
loaded-at = refl

main_bin_spec-slide_example :
    (slide : ℕ) × (create_main_bin_spec_payload
        ((0x4000, library) ∷ (0x5000, record loaded { executing = true }) ∷ [])
      ≡ returns (main_bin_spec_bytes slide (replicate 16 0)))
    × (loaded.segments ≡ map (slide_segment slide) (text ∷ []))
unfolding is_main_executable bytes_at le_bytes from_le padded
main_bin_spec-slide_example =
    main_bin_spec-slide ((0x4000, library) ∷ []) [] 0x5000 (47 ∷ 97 ∷ []) raw (text ∷ []) text
      loaded true (refl, tt) segments-at text-at loaded-at refl
