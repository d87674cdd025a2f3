-- ===== src/Regions/Examples.antt =====
-- MemoryRegionList: each theorem at an input.
use mac_mini_dump.Prelude.{ℕ, ◌≡◌, refl, true, List, [], ◌∷◌, Option, none, some, arith}
use mac_mini_dump.Regions.{
  MemoryRegionInfo, MemoryRegions, RegionReply, UserTag, memory_stack, malloc_tiny, stack, unknown,
  region_info, scan, initial_vars, get_region_info_for_address, has_address, next_query,
}
use mac_mini_dump.Regions.Lookup.{owner, get-owner, has_address_end}
use mac_mini_dump.Regions.Scan.{first_region, scan_stale}

abbrev code_region : MemoryRegionInfo
code_region = record { vmaddr = 0x1000; vmsize = 0x1000; prot = 5; type = unknown }

abbrev stack_region : MemoryRegionInfo
stack_region = record { vmaddr = 0x4000; vmsize = 0x2000; prot = 3; type = stack }

abbrev two_regions : MemoryRegions
two_regions = (0x1000, code_region) ∷ (0x4000, stack_region) ∷ []

get-owner_example : get_region_info_for_address two_regions 0x4abc ≡ some stack_region
unfolding owner
get-owner_example = get-owner 0x4abc 0 two_regions (omega arith)

has_address_end_example : has_address two_regions 0x2000 ≡ true
has_address_end_example =
    has_address_end 0 [] ((0x4000, stack_region) ∷ []) code_region (omega arith)

abbrev heap_reply : RegionReply
heap_reply = record {
  address = 0x1000;
  size = 0x1000;
  depth = 0;
  protection = 3;
  user_tag = malloc_tiny;
}

abbrev stack_reply : RegionReply
stack_reply = record {
  address = 0x4000;
  size = 0x2000;
  depth = 0;
  protection = 3;
  user_tag = memory_stack;
}

abbrev layout : List RegionReply
layout = heap_reply ∷ stack_reply ∷ []

abbrev kernel : ℕ → ℕ → Option RegionReply
kernel address depth = first_region layout address

scan_stale_example :
    (m : MemoryRegions) × (scan kernel 3 (initial_vars 0 (UserTag.other_tag 0)) [] ≡ some m)
    × (get_region_info_for_address m 0x7000 ≡ some (region_info (next_query stack_reply)))
    × (first_region layout 0x7000 ≡ none)
scan_stale_example =
    scan_stale kernel (heap_reply ∷ []) stack_reply 0 (UserTag.other_tag 0) 0x7000 (λ a d h. refl)
      (omega arith) (omega arith) (omega arith) (omega arith)
