-- ===== src/ProcessStrings/Examples.antt =====
-- ReadProcessMemoryString: each theorem at an input.
use mac_mini_dump.Prelude.{ℕ, ◌≡◌, refl, [], ◌∷◌, Option, some, arith, take, ◌==◌, if◌then◌else◌}
use mac_mini_dump.DataAccess.{Memory}
use mac_mini_dump.Regions.{RegionReply, UserTag}
use mac_mini_dump.ProcessStrings.{get_memory_region_end_distance, read_process_memory_string}
use mac_mini_dump.ProcessStrings.Exact.{read_string-exact}

abbrev region : RegionReply
region = record {
  address = 0x1000;
  size = 0x1000;
  depth = 0;
  protection = 1;
  user_tag = UserTag.other_tag 0;
}

abbrev next_region : RegionReply
next_region = record {
  address = 0x2000;
  size = 0x1000;
  depth = 0;
  protection = 1;
  user_tag = UserTag.other_tag 0;
}

abbrev regions : ℕ → ℕ → Option RegionReply
regions address depth = if address == 0x2000 then some next_region else some region

-- "ab" and what follows it.
abbrev memory : Memory
memory address size = some (take size (97 ∷ 98 ∷ 0 ∷ 99 ∷ []))

distance-at : get_memory_region_end_distance regions 0x1ff0 ≡ some 0x1010
unfolding get_memory_region_end_distance
distance-at = refl

read_string-exact_example :
    read_process_memory_string memory regions 0x1ff0 4096 ≡ some (97 ∷ 98 ∷ [])
read_string-exact_example =
    read_string-exact memory regions 0x1ff0 4096 0x1010 (97 ∷ 98 ∷ []) (99 ∷ []) distance-at
      (λ n h. refl) (omega arith, (omega arith, tt))
