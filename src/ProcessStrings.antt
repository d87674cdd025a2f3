-- ===== src/ProcessStrings.antt =====
-- Sources/macMiniDump/Private/ReadProcessMemory.cpp: reading a C string from the task.
-- The call `vm_region_recurse_64` is a parameter, as in Regions.
pub mod Exact
mod Examples
use mac_mini_dump.Prelude.{
  ℕ, ◌+◌, ◌%◌, Bool, true, false, ◌&&◌, ◌||◌, List, [], ◌∷◌, Option, none, some, ltb, ◌==◌,
  if◌then◌else◌, take,
}
use mac_mini_dump.Prelude.Words.{add64, sub64}
use mac_mini_dump.Bytes.{until_nul}
use mac_mini_dump.DataAccess.{Memory, read_process_memory}
use mac_mini_dump.Regions.{RegionReply}

-- From the address to the end of its region, and of the next one where the first ends within a page
-- and the next follows it and is readable. VM_PROT_READ is 1.
abbrev pub end_distance : (ℕ → ℕ → Option RegionReply) → ℕ → RegionReply → ℕ
end_distance region_recurse address region =
    let next_region_base = add64 region.address region.size in
    let alone = sub64 next_region_base address in
    let extended : ℕ = elim (region_recurse next_region_base region.depth) [
      | none ↦ alone
      | some next ↦
          if next.address == next_region_base && next.protection % 2 == 1
          then sub64 (add64 next_region_base next.size) address
          else alone
    ] in
    if ltb alone 4096 then extended else alone

unfoldable pub get_memory_region_end_distance : (ℕ → ℕ → Option RegionReply) → ℕ → Option ℕ
get_memory_region_end_distance region_recurse address = elim (region_recurse address 0) [
  | none ↦ none
  | some region ↦ some (end_distance region_recurse address region)
]

-- The loop over the characters.
abbrev pub has_nul : List ℕ → Bool
has_nul [] = false
has_nul (c ∷ cs) = c == 0 || has_nul cs

abbrev pub smaller : ℕ → ℕ → ℕ
smaller size_to_read max_size = if ltb max_size size_to_read then max_size else size_to_read

-- `none` is `false`, which leaves the caller's string as it was.
unfoldable pub read_process_memory_string :
    Memory → (ℕ → ℕ → Option RegionReply) → ℕ → ℕ → Option (List ℕ)
read_process_memory_string memory region_recurse address max_size =
    elim (get_memory_region_end_distance region_recurse address) [
      | none ↦ none
      | some distance ↦
          let size_to_read = smaller distance max_size in
          elim (read_process_memory memory address size_to_read) [
            | none ↦ none
            | some characters ↦
                if has_nul (take size_to_read characters) then some (until_nul characters) else none
          ]
    ]
