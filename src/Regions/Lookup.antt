-- ===== src/Regions/Lookup.antt =====
-- MemoryRegionList::GetRegionInfoForAddress and HasAddress: the binary lookup against searches
-- over all the regions.
use mac_mini_dump.Prelude.{
  ℕ, suc, ◌+◌, ◌≤◌, ◌<◌, ◌≡◌, refl, sym, ap, ◌∙◌, ◌⊎◌, inl, inr, true, ◌&&◌, [], ◌∷◌, ◌++◌, Option,
  none, some, arith, ltb, leb, ◌==◌, if◌then◌else◌, Bool-cases,
}
use mac_mini_dump.Prelude.Words.{u64_mod, add64}
use mac_mini_dump.SortedMap.{Rising, candidate}
use mac_mini_dump.SortedMap.Laws.{floor_value, first_value, candidate-floor, floor_none}
use mac_mini_dump.Regions.{
  MemoryRegionInfo, MemoryRegions, is_in_region, get_region_info_for_address, has_address,
}

-- The map's keys are the regions' addresses; the regions are non-empty, disjoint and in order, and
-- none reaches the end of the address space.
abbrev pub Disjoint : ℕ → MemoryRegions → Type 0
Disjoint lo [] = Unit {0}
Disjoint lo ((k, ri) ∷ rest) =
    (lo ≤ k)
    × (ri.vmaddr ≡ k)
    × (0 < ri.vmsize)
    × (k + ri.vmsize < u64_mod)
    × Disjoint (k + ri.vmsize) rest

-- The region [vmaddr, vmaddr + vmsize) that the address lies in.
unfoldable pub owner : ℕ → MemoryRegions → Option MemoryRegionInfo
owner x [] = none
owner x ((k, ri) ∷ rest) =
    if leb ri.vmaddr x && ltb x (ri.vmaddr + ri.vmsize) then some ri else owner x rest

-- The region that ends at the address.
pub ending_at : ℕ → MemoryRegions → Option MemoryRegionInfo
ending_at x [] = none
ending_at x ((k, ri) ∷ rest) = if x == ri.vmaddr + ri.vmsize then some ri else ending_at x rest

Disjoint-Rising : (lo : ℕ) (m : MemoryRegions) → Disjoint lo m → Rising lo m
Disjoint-Rising lo [] d = tt
Disjoint-Rising lo ((k, ri) ∷ m) d = (d.0, rising_down m (Disjoint-Rising (k + ri.vmsize) m d.4))
  where
    rising_down : (n : MemoryRegions) → Rising (k + ri.vmsize) n → Rising (suc k) n
    rising_down [] r = tt
    rising_down ((j, v) ∷ n) r = (omega arith, r.1)

-- What the lookup makes of the entry that it looks at.
abbrev checked : ℕ → Option MemoryRegionInfo → Option MemoryRegionInfo
checked x none = none
checked x (some ri) = if is_in_region x ri then some ri else none

abbrev owner_or_ending : ℕ → MemoryRegions → Option MemoryRegionInfo
owner_or_ending x m = elim (owner x m) [ none ↦ ending_at x m | some ri ↦ some ri ]

none_below :
    (x lo : ℕ) (m : MemoryRegions)
    → x < lo
    → Disjoint lo m
    → (owner x m ≡ none) × (ending_at x m ≡ none)
unfolding owner ending_at
none_below x lo [] h d = (refl, refl)
none_below x lo ((k, ri) ∷ m) h d = ground (arith, none_below x (k + ri.vmsize) m (omega arith) d.4)

no_end_at : (x : ℕ) (m : MemoryRegions) → Disjoint x m → ending_at x m ≡ none
unfolding ending_at
no_end_at x [] d = refl
no_end_at x ((k, ri) ∷ m) d = ground (arith, none_below x (k + ri.vmsize) m (omega arith) d.4)

-- A region that starts at the address owns it.
owner_at_start :
    (x : ℕ) (m : MemoryRegions)
    → Disjoint x m
    → (floor_value x m ≡ none) ⊎ ((ri : MemoryRegionInfo) × (owner x m ≡ some ri))
unfolding owner
owner_at_start x [] d = inl refl
owner_at_start x ((k, ri) ∷ m) d = elim (Bool-cases (leb k x)) [
  | inl near ↦ inr (ri, ground arith)
  | inr far ↦ inl (rw far)
]

checked-floor :
    (x lo : ℕ) (m : MemoryRegions)
    → Disjoint lo m
    → checked x (floor_value x m) ≡ owner_or_ending x m
unfolding owner ending_at is_in_region
checked-floor x lo [] d = refl
checked-floor x lo ((k, ri) ∷ m) d = ground (
  arith,
  none_below x (k + ri.vmsize) m,
  floor_none x (k + ri.vmsize) m,
  Disjoint-Rising (k + ri.vmsize) m d.4,
  λ (e : k + ri.vmsize ≡ x). owner_at_start x m (rw e at d.4),
  λ (e : k + ri.vmsize ≡ x). no_end_at x m (rw e at d.4),
  checked-floor x (k + ri.vmsize) m d.4,
)

checked_first :
    (x lo : ℕ) (m : MemoryRegions)
    → Disjoint lo m
    → floor_value x m ≡ none
    → checked x (first_value m) ≡ none
unfolding is_in_region
checked_first x lo [] d h = refl
checked_first x lo ((k, ri) ∷ m) d h = ground arith

get-checked :
    (x : ℕ) (m : MemoryRegions) → get_region_info_for_address m x ≡ checked x (candidate x m)
unfolding get_region_info_for_address is_in_region
get-checked x m = ground arith

-- On an ordered map of disjoint regions the lookup gives the region [vmaddr, vmaddr + vmsize) that
-- the address lies in, and where there is none, the region that ends at the address. In all other
-- cases it gives none.
pub get-owner :
    (x lo : ℕ) (m : MemoryRegions)
    → Disjoint lo m
    → get_region_info_for_address m x
      ≡ elim (owner x m) [ none ↦ ending_at x m | some ri ↦ some ri ]
get-owner x lo m d = ground (
  arith,
  get-checked x m,
  candidate-floor x lo m (Disjoint-Rising lo m d),
  checked-floor x lo m d,
  checked_first x lo m d,
)

ending_at_append :
    (before after : MemoryRegions) (ri : MemoryRegionInfo)
    → (r : MemoryRegionInfo) × (ending_at
          (ri.vmaddr + ri.vmsize)
          (before ++ (ri.vmaddr, ri) ∷ after)
        ≡ some r)
unfolding ending_at
ending_at_append [] after ri = (ri, ground arith)
ending_at_append ((k, r) ∷ before) after ri =
    elim (Bool-cases (ri.vmaddr + ri.vmsize == r.vmaddr + r.vmsize)) [
      | inl here ↦ (r, rw here)
      | inr further ↦ let (found, e) = ending_at_append before after ri in (found, rw (further) e)
    ]

-- On such a map `HasAddress` holds at the end of every region, though [vmaddr, vmaddr + vmsize)
-- does not hold that address.
pub has_address_end :
    (lo : ℕ) (before after : MemoryRegions) (ri : MemoryRegionInfo)
    → Disjoint lo (before ++ (ri.vmaddr, ri) ∷ after)
    → has_address (before ++ (ri.vmaddr, ri) ∷ after) (ri.vmaddr + ri.vmsize) ≡ true
unfolding has_address
has_address_end lo before after ri d = ground (
  arith,
  get-owner (ri.vmaddr + ri.vmsize) lo (before ++ (ri.vmaddr, ri) ∷ after) d,
  ending_at_append before after ri,
)

-- The region that the lookup gives holds the address, its end included.
pub get-in_region :
    (x : ℕ) (m : MemoryRegions) (ri : MemoryRegionInfo)
    → get_region_info_for_address m x ≡ some ri
    → (ri.vmaddr ≤ x) × (x ≤ add64 ri.vmaddr ri.vmsize)
unfolding is_in_region
get-in_region x m ri h = checked-in (candidate x m) (sym (get-checked x m) ∙ h)
  where
    some_injective : {r : MemoryRegionInfo} → some r ≡ some ri → r ≡ ri
    some_injective {r} e = ap (λ o. elim o [ none ↦ r | some q ↦ q ]) e

    none_some : none ≡ some ri → ⊥
    none_some e = cc

    in_bounds : is_in_region x ri ≡ true → (ri.vmaddr ≤ x) × (x ≤ add64 ri.vmaddr ri.vmsize)
    in_bounds t = ground arith

    checked-in :
        (o : Option MemoryRegionInfo)
        → checked x o ≡ some ri
        → (ri.vmaddr ≤ x) × (x ≤ add64 ri.vmaddr ri.vmsize)
    checked-in none e = cc
    checked-in (some r) e = elim (Bool-cases (is_in_region x r)) [
      | inl inside ↦
          in_bounds (sym (ap (is_in_region x) (some_injective (rw inside at e))) ∙ inside)
      | inr outside ↦ absurd (none_some (rw outside at e))
    ]
