-- ===== src/ProcessStrings/Exact.antt =====
-- ReadProcessMemoryString on memory that holds a C string.
use mac_mini_dump.Prelude.{
  ℕ, zero, suc, ◌+◌, ◌-◌, ◌%◌, ◌&&◌, ◌≤◌, ◌<◌, ◌≡◌, refl, ◌∙◌, ap, inl, inr, List, [], ◌∷◌, ◌++◌,
  Option, none, some, arith, min, ltb, ◌==◌, if◌then◌else◌, length, take, Bool-cases, ltb→lt,
}
use mac_mini_dump.Prelude.Words.{u64_mod, add64, sub64}
use mac_mini_dump.Bytes.{until_nul, NoNul}
use mac_mini_dump.DataAccess.{Memory, read_process_memory, read_process_memory_into}
use mac_mini_dump.Regions.{RegionReply}
use mac_mini_dump.ProcessStrings.{
  end_distance, get_memory_region_end_distance, has_nul, smaller, read_process_memory_string,
}

has_nul-take :
    (k : ℕ) (s tail : List ℕ) → NoNul s → has_nul (take k (s ++ 0 ∷ tail)) ≡ ltb (length s) k
has_nul-take zero s tail u = ground arith
has_nul-take (suc k) [] tail u = ground arith
has_nul-take (suc k) (c ∷ s) tail u = ground (arith, has_nul-take k s tail u.1)

take-take : (k : ℕ) (xs : List ℕ) → take k (take k xs) ≡ take k xs
take-take zero xs = refl
take-take (suc k) [] = refl
take-take (suc k) (x ∷ xs) = ap (◌∷◌ x) (take-take k xs)

until_nul-take :
    (k : ℕ) (s tail : List ℕ) → NoNul s → length s < k → until_nul (take k (s ++ 0 ∷ tail)) ≡ s
unfolding until_nul
until_nul-take zero s tail u h = absurd (omega arith)
until_nul-take (suc k) [] tail u h = refl
until_nul-take (suc k) (c ∷ s) tail u h = ground (arith, until_nul-take k s tail u.1 (omega arith))

smaller-min : (d max_size : ℕ) → smaller d max_size ≡ min d max_size
smaller-min d max_size = ground arith

-- When the memory from the address holds a C string and what follows, and can be read as far as the
-- regions that the code asks for reach, ReadProcessMemoryString gives exactly that string if it
-- ends, its NUL included, within the regions and within the maximum; otherwise it fails.
pub read_string-exact :
    (memory : Memory) (region_recurse : ℕ → ℕ → Option RegionReply) (address max_size d : ℕ)
    (s tail : List ℕ)
    → get_memory_region_end_distance region_recurse address ≡ some d
    → ((n : ℕ) → n ≤ d → memory address n ≡ some (take n (s ++ 0 ∷ tail)))
    → NoNul s
    → read_process_memory_string memory region_recurse address max_size
      ≡ (if ltb (length s) (min d max_size) then some s else none)
unfolding read_process_memory_string read_process_memory read_process_memory_into
read_string-exact memory region_recurse address max_size d s tail e readable u =
    rw
      (
        read_process_memory_string,
        read_process_memory,
        read_process_memory_into,
        e,
        smaller-min d max_size,
        readable (min d max_size) (ground arith),
        ap (λ k. take k (take (min d max_size) (s ++ 0 ∷ tail))) (smaller-min d max_size)
            ∙ take-take (min d max_size) (s ++ 0 ∷ tail),
        has_nul-take (min d max_size) s tail u,
      )
      (elim (Bool-cases (ltb (length s) (min d max_size))) [
        | inl ends ↦ rw (
          ends,
          until_nul-take (min d max_size) s tail u (ltb→lt (length s) (min d max_size) ends),
        )
        | inr cut ↦ rw cut
      ])

module _ (region_recurse : ℕ → ℕ → Option RegionReply) (address : ℕ) (region next : RegionReply)
    (f : region_recurse (region.address + region.size) region.depth ≡ some next)
    (high : address < region.address + region.size)
    (fits : region.address + region.size + next.size < u64_mod) where
  abbrev region_end : ℕ
  region_end = region.address + region.size

  no_wrap : add64 region.address region.size ≡ region_end
  no_wrap = omega arith

  alone : sub64 region_end address ≡ region_end - address
  alone = omega arith

  both : sub64 (add64 region_end next.size) address ≡ region_end + next.size - address
  both = omega arith

  distance_cases : end_distance region_recurse address region ≡ (
      if ltb (region_end - address) 4096
      then (if next.address == region_end && next.protection % 2 == 1
          then region_end + next.size - address
          else region_end - address)
      else region_end - address)
  distance_cases = rw (end_distance, no_wrap, f) (ground arith)

-- For an address in a region that ends below 2 ^ 64, with the next region ending there too, the
-- distance reaches the end of the region, and at most the end of the next one, which counts only
-- within a page.
pub distance-bounds :
    (region_recurse : ℕ → ℕ → Option RegionReply) (address : ℕ) (region next : RegionReply)
    → region_recurse address 0 ≡ some region
    → region_recurse (region.address + region.size) region.depth ≡ some next
    → region.address ≤ address
    → address < region.address + region.size
    → region.address + region.size + next.size < u64_mod
    → (d : ℕ) × (get_memory_region_end_distance region_recurse address ≡ some d)
      × (region.address + region.size ≤ address + d)
      × (address + d ≤ region.address + region.size + next.size)
      × (region.address + region.size < address + 4096
          → next.address ≡ region.address + region.size
          → next.protection % 2 ≡ 1
          → address + d ≡ region.address + region.size + next.size)
unfolding get_memory_region_end_distance
distance-bounds region_recurse address region next e f low high fits = (
  end_distance region_recurse address region,
  rw (get_memory_region_end_distance, e),
  ground (arith, cases),
  ground (arith, cases),
  λ near follows prot. ground (arith, cases),
)
  where
    cases : end_distance region_recurse address region ≡ (
        if ltb (region.address + region.size - address) 4096
        then (if next.address == region.address + region.size && next.protection % 2 == 1
            then region.address + region.size + next.size - address
            else region.address + region.size - address)
        else region.address + region.size - address)
    cases = distance_cases region_recurse address region next f high fits
