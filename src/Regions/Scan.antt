-- ===== src/Regions/Scan.antt =====
-- The constructor of MemoryRegionList: what its loop collects from a kernel that lists the regions
-- of the task in order.
use mac_mini_dump.Prelude.{
  ℕ, zero, suc, ◌+◌, ◌≤◌, ◌<◌, ◌≡◌, refl, ◌∙◌, ap, inl, inr, false, List, [], ◌∷◌, ◌++◌, map,
  Option, none, some, arith, ltb, if◌then◌else◌, length, Option-cases,
}
use mathlib.Core.List.{append_assoc}
use mac_mini_dump.Prelude.Words.{u64_mod}
use mac_mini_dump.SortedMap.{Under, insert}
use mac_mini_dump.SortedMap.Laws.{insert_last, Under-append, Under-mono}
use mac_mini_dump.Regions.Lookup.{Disjoint, owner, get-owner}
use mac_mini_dump.Regions.{
  MemoryRegionInfo, MemoryRegions, RegionReply, UserTag, region_info, scan, initial_vars, is_valid,
  next_query, get_region_info_for_address,
}

-- What `vm_region_recurse_64` is documented to give: the region that holds the address, or the next
-- one above it; and an error where there is none.
pub first_region : List RegionReply → ℕ → Option RegionReply
first_region [] a = none
first_region (r ∷ rest) a = if ltb a (r.address + r.size) then some r else first_region rest a

-- The regions of a task: non-empty, disjoint, in order, below the end of the address space.
abbrev pub IsLayout : ℕ → List RegionReply → Type 0
IsLayout lo [] = Unit {0}
IsLayout lo (r ∷ rest) =
    (lo ≤ r.address)
    × (0 < r.size)
    × (r.address + r.size < u64_mod)
    × IsLayout (r.address + r.size) rest

abbrev pub entry : RegionReply → ℕ × MemoryRegionInfo
entry r = (r.address, region_info r)

-- The variables after the last successful call: its region's, with the address moved past it.
abbrev pub last_vars : RegionReply → List RegionReply → RegionReply
last_vars vars [] = vars
last_vars vars (r ∷ rest) = last_vars (next_query r) rest

first_region_past :
    (r : RegionReply) (rest : List RegionReply) (a : ℕ)
    → r.address + r.size ≤ a
    → first_region (r ∷ rest) a ≡ first_region rest a
unfolding first_region
first_region_past r rest a h = ground arith

first_region_next :
    (r : RegionReply) (rest : List RegionReply) (a : ℕ)
    → a < r.address + r.size
    → first_region (r ∷ rest) a ≡ some r
unfolding first_region
first_region_next r rest a h = ground arith

first_region-nil : (a : ℕ) → first_region [] a ≡ none
unfolding first_region
first_region-nil a = refl

-- The kernel answers from `a` on as the list of the regions does.
abbrev pub Documents : (ℕ → ℕ → Option RegionReply) → ℕ → List RegionReply → Type 0
Documents region_recurse lo layout = (a d : ℕ) → lo ≤ a → region_recurse a d ≡ first_region layout a

module _ (region_recurse : ℕ → ℕ → Option RegionReply) where
  scan-from :
      (layout : List RegionReply) (vars : RegionReply) (regions : MemoryRegions)
      → Documents region_recurse vars.address layout
      → IsLayout vars.address layout
      → Under vars.address regions
      → scan region_recurse (suc (length layout)) vars regions
        ≡ some (regions ++ (map entry layout ++ entry (last_vars vars layout) ∷ []))
  unfolding scan
  scan-from [] vars regions k l u =
      rw (k vars.address vars.depth (omega arith), first_region-nil, scan)
        (ap some (insert_last vars.address (region_info vars) regions u))
  scan-from (r ∷ rest) vars regions k l u =
      rw
        (
          k vars.address vars.depth (omega arith),
          first_region_next r rest vars.address (omega arith),
          scan,
        )
        (scan-from rest (next_query r) (insert r.address (region_info r) regions)
            (λ a d h. k a d (omega arith) ∙ first_region_past r rest a (omega arith)) (rw wrap l.3)
            (rw (wrap, insert_last r.address (region_info r) regions (Under-mono regions l.0 u))
              (Under-append _ regions _ (Under-mono regions (omega arith) u) (omega arith, tt)))
          ∙ rw (insert_last r.address (region_info r) regions (Under-mono regions l.0 u))
              (ap some (append_assoc regions _ _)))
    where
      wrap : (next_query r).address ≡ r.address + r.size
      wrap = omega arith

  pub scan-layout :
      (layout : List RegionReply) (protection : ℕ) (tag : UserTag)
      → Documents region_recurse 0 layout
      → IsLayout 0 layout
      → scan region_recurse (suc (length layout)) (initial_vars protection tag) []
        ≡ some (map entry layout ++ entry (last_vars (initial_vars protection tag) layout) ∷ [])
  scan-layout layout protection tag k l = scan-from layout (initial_vars protection tag) [] k l tt

insert-is_valid :
    (k : ℕ) (v : MemoryRegionInfo) (m : MemoryRegions) → is_valid (insert k v m) ≡ false
unfolding is_valid
insert-is_valid k v [] = refl
insert-is_valid k v ((j, w) ∷ m) = ground arith

-- Whatever the kernel answers, `IsValid` is false of every list that the constructor has built.
pub scan-is_valid :
    (region_recurse : ℕ → ℕ → Option RegionReply) (fuel : ℕ) (vars : RegionReply)
    (regions m : MemoryRegions)
    → scan region_recurse fuel vars regions ≡ some m
    → is_valid m ≡ false
unfolding scan
scan-is_valid region_recurse zero vars regions m e = cc
scan-is_valid region_recurse (suc fuel) vars regions m e =
    elim (Option-cases (region_recurse vars.address vars.depth)) [
      | inl none_left ↦
          ground (arith, none_left, e, insert-is_valid vars.address (region_info vars) regions)
      | inr (r, found) ↦
          scan-is_valid region_recurse fuel (next_query r)
            (insert r.address (region_info r) regions) m (ground (arith, found, e))
    ]

abbrev Collected : List RegionReply → RegionReply → MemoryRegions
Collected layout stale = map entry layout ++ entry stale ∷ []

Collected-Disjoint :
    (lo : ℕ) (before : List RegionReply) (r : RegionReply)
    → IsLayout lo (before ++ r ∷ [])
    → (r.address + r.size) + r.size < u64_mod
    → Disjoint lo (Collected (before ++ r ∷ []) (next_query r))
unfolding region_info
Collected-Disjoint lo [] r l w = omega arith
Collected-Disjoint lo (q ∷ before) r l w =
    (l.0, refl, l.1, l.2, Collected-Disjoint (q.address + q.size) before r l.3 w)

IsLayout-bound :
    (lo : ℕ) (before : List RegionReply) (r : RegionReply)
    → IsLayout lo (before ++ r ∷ [])
    → (lo ≤ r.address) × (r.address + r.size < u64_mod)
IsLayout-bound lo [] r l = omega arith
IsLayout-bound lo (q ∷ before) r l = omega (arith, IsLayout-bound (q.address + q.size) before r l.3)

owner_stale :
    (x lo : ℕ) (before : List RegionReply) (r : RegionReply)
    → IsLayout lo (before ++ r ∷ [])
    → r.address + r.size ≤ x
    → x < (r.address + r.size) + r.size
    → owner x (Collected (before ++ r ∷ []) (next_query r)) ≡ some (region_info (next_query r))
unfolding owner region_info
owner_stale x lo [] r l p q = ground arith
owner_stale x lo (q' ∷ before) r l p q = ground (
  arith,
  owner_stale x (q'.address + q'.size) before r l.3 p q,
  IsLayout-bound (q'.address + q'.size) before r l.3,
)

last_vars-append :
    (vars : RegionReply) (before : List RegionReply) (r : RegionReply)
    → last_vars vars (before ++ r ∷ []) ≡ next_query r
last_vars-append vars [] r = refl
last_vars-append vars (q ∷ before) r = last_vars-append (next_query q) before r

-- After the scan of a non-empty list of regions, an address in the stretch of the last region's
-- size that follows the last region is looked up as memory with that region's protection and type,
-- though the kernel lists no region there.
pub scan_stale :
    (region_recurse : ℕ → ℕ → Option RegionReply) (before : List RegionReply) (r : RegionReply)
    (protection : ℕ) (tag : UserTag) (x : ℕ)
    → Documents region_recurse 0 (before ++ r ∷ [])
    → IsLayout 0 (before ++ r ∷ [])
    → (r.address + r.size) + r.size < u64_mod
    → r.address + r.size ≤ x
    → x < (r.address + r.size) + r.size
    → (m : MemoryRegions) × (scan region_recurse
          (suc (length (before ++ r ∷ [])))
          (initial_vars protection tag)
          []
        ≡ some m)
      × (get_region_info_for_address m x ≡ some (region_info (next_query r)))
      × (first_region (before ++ r ∷ []) x ≡ none)
scan_stale region_recurse before r protection tag x k l w p q = (
  Collected (before ++ r ∷ []) (next_query r),
  scan-layout region_recurse (before ++ r ∷ []) protection tag k l
      ∙ rw (last_vars-append (initial_vars protection tag) before r),
  ground (
    arith,
    get-owner x 0 (Collected (before ++ r ∷ []) (next_query r)) (Collected-Disjoint 0 before r l w),
    owner_stale x 0 before r l p q,
  ),
  unmapped 0 before l,
)
  where
    unmapped :
        (lo : ℕ) (b : List RegionReply)
        → IsLayout lo (b ++ r ∷ [])
        → first_region (b ++ r ∷ []) x ≡ none
    unmapped lo [] l' = first_region_past r [] x p ∙ first_region-nil x
    unmapped lo (q' ∷ b) l' =
        first_region_past q' (b ++ r ∷ []) x
          (omega (arith, IsLayout-bound (q'.address + q'.size) b r l'.3))
        ∙ unmapped (q'.address + q'.size) b l'.3
