-- ===== src/Regions.antt =====
-- Sources/macMiniDump/Private/MemoryRegionList.hpp and .cpp.
-- The call `vm_region_recurse_64` is a parameter: it takes the address and the depth that the loop
-- passes by reference, and gives their new values with the region's size, protection and tag, or
-- `none` for a result other than KERN_SUCCESS, which leaves the caller's variables as they were.
pub mod Lookup
pub mod Scan
mod Examples
use mac_mini_dump.Prelude.{
  ℕ, zero, suc, ◌%◌, Bool, true, false, ◌&&◌, List, [], ◌∷◌, Option, none, some, ltb, leb, ◌==◌,
  length, if◌then◌else◌,
}
use mac_mini_dump.Prelude.Words.{add64}
use mac_mini_dump.SortedMap.{insert, candidate}

pub data MemoryRegionType : Type 0 where
  unknown stack heap : MemoryRegionType

-- The `user_tag` values that the code names; their numbers are the system header's.
pub data UserTag : Type 0 where
  memory_stack : UserTag
  malloc_nano malloc_tiny malloc_small malloc_large : UserTag
  malloc_large_reused malloc_large_reusable malloc_huge realloc sbrk : UserTag
  other_tag : ℕ → UserTag

pub record MemoryRegionInfo : Type 0 where
  pub vmaddr : ℕ
  pub vmsize : ℕ
  pub prot : ℕ
  pub type : MemoryRegionType

abbrev pub MemoryRegions : Type 0
MemoryRegions = List (ℕ × MemoryRegionInfo)

-- What `vm_region_recurse_64` writes: the variables of the constructor's loop.
pub record RegionReply : Type 0 where
  pub address : ℕ
  pub size : ℕ
  pub depth : ℕ
  pub protection : ℕ
  pub user_tag : UserTag

-- VM_PROT_NONE is 0.
pub region_type : UserTag → ℕ → MemoryRegionType
region_type memory_stack protection = if protection == 0 then unknown else stack
region_type malloc_nano protection = heap
region_type malloc_tiny protection = heap
region_type malloc_small protection = heap
region_type malloc_large protection = heap
region_type malloc_large_reused protection = heap
region_type malloc_large_reusable protection = heap
region_type malloc_huge protection = heap
region_type realloc protection = heap
region_type sbrk protection = heap
region_type (other_tag n) protection = unknown

-- `prot` is a uint8_t, the kernel's protection an int.
pub region_info : RegionReply → MemoryRegionInfo
region_info r = record {
  vmaddr = r.address;
  vmsize = r.size;
  prot = r.protection % 256;
  type = region_type r.user_tag r.protection;
}

-- The rest of a round, once the call has been made: the entry and the next address.
abbrev pub record_region : RegionReply → MemoryRegions → MemoryRegions
record_region r regions = insert r.address (region_info r) regions

abbrev pub next_query : RegionReply → RegionReply
next_query r = record r { address = add64 r.address r.size }

-- The constructor's loop. The failing call's round is finished too, as in the code. `none` is
-- that the fuel ran out.
pub scan : (ℕ → ℕ → Option RegionReply) → ℕ → RegionReply → MemoryRegions → Option MemoryRegions
scan region_recurse zero vars regions = none
scan region_recurse (suc fuel) vars regions = elim (region_recurse vars.address vars.depth) [
  | none ↦ some (record_region vars regions)
  | some reply ↦ scan region_recurse fuel (next_query reply) (record_region reply regions)
]

-- The loop's variables at the start: MACH_VM_MIN_ADDRESS, size and depth are 0; `info` has no
-- initial value, so it is an argument.
abbrev pub initial_vars : ℕ → UserTag → RegionReply
initial_vars protection tag = record {
  address = 0;
  size = 0;
  depth = 0;
  protection = protection;
  user_tag = tag;
}

pub is_valid : MemoryRegions → Bool
is_valid [] = true
is_valid (x ∷ regions) = false

pub get_size : MemoryRegions → ℕ
get_size regions = length regions

unfoldable pub is_in_region : ℕ → MemoryRegionInfo → Bool
is_in_region addr ri = leb ri.vmaddr addr && leb addr (add64 ri.vmaddr ri.vmsize)

unfoldable pub get_region_info_for_address : MemoryRegions → ℕ → Option MemoryRegionInfo
unfolding is_in_region
get_region_info_for_address regions address = elim (candidate address regions) [
  | none ↦ none
  | some ri ↦ if is_in_region address ri then some ri else none
]

pub has_address : MemoryRegions → ℕ → Bool
has_address regions address = elim (get_region_info_for_address regions address) [
  | none ↦ false
  | some ri ↦ true
]

pub invalidate : MemoryRegions → MemoryRegions
invalidate regions = []
