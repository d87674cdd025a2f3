-- ===== src/Modules/Lookup.antt =====
-- ModuleList::MarkAsExecuting and GetModuleInfoForAddress.
use mac_mini_dump.Prelude.{
  ℕ, suc, ◌+◌, ◌≤◌, ◌<◌, ◌≡◌, ◌≢◌, refl, ◌∙◌, ap, inl, inr, true, false, [], ◌∷◌, ◌++◌, map, some,
  arith, leb, Bool-cases,
}
use mac_mini_dump.Prelude.Words.{u64_mod}
use mac_mini_dump.SortedMap.{Rising, candidate}
use mac_mini_dump.SortedMap.Laws.{floor_value, or_else, candidate-floor, floor_none}
use mac_mini_dump.Modules.{
  SegmentInfo, ModuleInfo, ModuleInfos, get_text_segment_of_module, is_code_in_module, with_key,
  get_module_info_for_address_impl, get_module_info_for_address, set_executing, mark_as_executing,
}

Rising-with_key : (lo : ℕ) (m : ModuleInfos) → Rising lo m → Rising lo (map with_key m)
Rising-with_key lo [] r = tt
Rising-with_key lo ((k, mi) ∷ m) r = (r.0, Rising-with_key (suc k) m r.1)

Rising-reaches :
    (lo k : ℕ) (mi : ModuleInfo) (before after : ModuleInfos)
    → Rising lo (before ++ (k, mi) ∷ after)
    → lo ≤ k
Rising-reaches lo k mi [] after r = r.0
Rising-reaches lo k mi ((j, u) ∷ before) after r =
    omega (arith, r.0, Rising-reaches (suc j) k mi before after r.1)

-- The last key at most `x` is `k`, when the keys behind it are above `x`.
floor-split :
    (x lo n k : ℕ) (mi : ModuleInfo) (before after : ModuleInfos)
    → Rising lo (before ++ (k, mi) ∷ after)
    → k ≤ x
    → x < n
    → Rising n after
    → floor_value x (map with_key (before ++ (k, mi) ∷ after)) ≡ some (k, mi)
floor-split x lo n k mi [] after r h w a =
    ground (arith, floor_none x n (map with_key after) w (Rising-with_key n after a))
floor-split x lo n k mi ((j, u) ∷ before) after r h w a = ground (
  arith,
  Rising-reaches (suc j) k mi before after r.1,
  floor-split x (suc j) n k mi before after r.1 h w a,
)

-- No entry of the list has the key.
abbrev KeyFree : ℕ → ModuleInfos → Type 0
KeyFree k [] = Unit {0}
KeyFree k ((j, mi) ∷ m) = (j ≢ k) × KeyFree k m

Rising-KeyFree : (k n : ℕ) (m : ModuleInfos) → k < n → Rising n m → KeyFree k m
Rising-KeyFree k n [] h r = tt
Rising-KeyFree k n ((j, mi) ∷ m) h r =
    (λ e. omega arith, Rising-KeyFree k (suc j) m (omega arith) r.1)

before-KeyFree :
    (lo k : ℕ) (mi : ModuleInfo) (before after : ModuleInfos)
    → Rising lo (before ++ (k, mi) ∷ after)
    → KeyFree k before
before-KeyFree lo k mi [] after r = tt
before-KeyFree lo k mi ((j, u) ∷ before) after r =
    let above = Rising-reaches (suc j) k mi before after r.1 in
    (λ e. omega arith, before-KeyFree (suc j) k mi before after r.1)

set_executing-KeyFree : (k : ℕ) (m : ModuleInfos) → KeyFree k m → map (set_executing k) m ≡ m
set_executing-KeyFree k [] f = refl
set_executing-KeyFree k ((j, mi) ∷ m) f = ground (arith, set_executing-KeyFree k m f.1)

set_executing-split :
    (k : ℕ) (mi : ModuleInfo) (before after : ModuleInfos)
    → KeyFree k before
    → KeyFree k after
    → map (set_executing k) (before ++ (k, mi) ∷ after)
      ≡ before ++ (k, record mi { executing = true }) ∷ after
set_executing-split k mi [] after f g = ground (arith, set_executing-KeyFree k after g)
set_executing-split k mi ((j, u) ∷ before) after f g =
    ground (arith, set_executing-split k mi before after f.1 g)

-- The address lies in the __TEXT segment [address, address + size) of the module, which begins at
-- its key.
abbrev pub CodeOf : ℕ → ℕ → ModuleInfo → Type 0
CodeOf x k mi =
    (si : SegmentInfo) × (get_text_segment_of_module mi ≡ some si)
    × (si.address ≡ k)
    × (k ≤ x)
    × (x < k + si.size)
    × (k + si.size < u64_mod)

impl-owner :
    (x lo n k : ℕ) (mi : ModuleInfo) (before after : ModuleInfos)
    → Rising lo (before ++ (k, mi) ∷ after)
    → CodeOf x k mi
    → x < n
    → Rising n after
    → get_module_info_for_address_impl (before ++ (k, mi) ∷ after) x ≡ some (k, mi)
unfolding get_module_info_for_address_impl is_code_in_module
impl-owner x lo n k mi before after r (si, text, at_key, low, high, fits) w a =
    rw
      (
        get_module_info_for_address_impl,
        is_code_in_module,
        candidate-floor x lo (map with_key (before ++ (k, mi) ∷ after)) (Rising-with_key lo _ r),
        floor-split x lo n k mi before after r low w a,
        text,
      )
      (ground arith)

-- In a map with rising keys, for an address in the __TEXT segment of a module that begins at its
-- key, with the keys of later modules above the address: GetModuleInfoForAddress finds that module,
-- and MarkAsExecuting sets `executing` there, changes nothing else, and returns true.
pub mark-owner :
    (x lo n k : ℕ) (mi : ModuleInfo) (before after : ModuleInfos)
    → Rising lo (before ++ (k, mi) ∷ after)
    → CodeOf x k mi
    → x < n
    → Rising n after
    → (get_module_info_for_address (before ++ (k, mi) ∷ after) x ≡ some mi)
      × (mark_as_executing x (before ++ (k, mi) ∷ after)
          ≡ (before ++ (k, record mi { executing = true }) ∷ after, true))
unfolding get_module_info_for_address mark_as_executing
mark-owner x lo n k mi before after r c w a = (
  rw (get_module_info_for_address, impl-owner x lo n k mi before after r c w a),
  rw (mark_as_executing, impl-owner x lo n k mi before after r c w a)
      (ap (λ m. (m, true))
        (set_executing-split k mi before after (before-KeyFree lo k mi before after r)
          (Rising-KeyFree k n after (omega (arith, c.3)) a))),
)

-- No module has the address in its code.
abbrev pub NoCode : ℕ → ModuleInfos → Type 0
NoCode x [] = Unit {0}
NoCode x ((k, mi) ∷ m) = (is_code_in_module x mi ≡ false) × NoCode x m

floor-NoCode :
    (x : ℕ) (m : ModuleInfos) (entry : ℕ × ModuleInfo)
    → NoCode x m
    → is_code_in_module x entry.1 ≡ false
    → is_code_in_module x (or_else (floor_value x (map with_key m)) entry).1 ≡ false
floor-NoCode x [] entry c h = h
floor-NoCode x ((k, mi) ∷ m) entry c h = elim (Bool-cases (leb k x)) [
  | inl near ↦ rw near (floor-NoCode x m (k, mi) c.1 c.0)
  | inr far ↦ rw far h
]

candidate-NoCode :
    (x lo k : ℕ) (mi : ModuleInfo) (m : ModuleInfos)
    → Rising lo ((k, mi) ∷ m)
    → NoCode x ((k, mi) ∷ m)
    → (entry : ℕ × ModuleInfo) × (candidate x (map with_key ((k, mi) ∷ m)) ≡ some entry)
      × (is_code_in_module x entry.1 ≡ false)
candidate-NoCode x lo k mi m r c = elim (Bool-cases (leb k x)) [
  | inl near ↦ (
    or_else (floor_value x (map with_key m)) (k, mi),
    candidate-floor x lo (map with_key ((k, mi) ∷ m)) (Rising-with_key lo ((k, mi) ∷ m) r)
        ∙ rw near,
    floor-NoCode x m (k, mi) c.1 c.0,
  )
  | inr far ↦ (
    (k, mi),
    candidate-floor x lo (map with_key ((k, mi) ∷ m)) (Rising-with_key lo ((k, mi) ∷ m) r) ∙ rw far,
    c.0,
  )
]

-- In a map with rising keys, MarkAsExecuting changes nothing and returns false for an address that
-- is in the code of no module.
pub mark_none :
    (x lo : ℕ) (m : ModuleInfos) → Rising lo m → NoCode x m → mark_as_executing x m ≡ (m, false)
unfolding mark_as_executing get_module_info_for_address_impl
mark_none x lo [] r c = refl
mark_none x lo ((k, mi) ∷ m) r c =
    let (entry, found, outside) = candidate-NoCode x lo k mi m r c in
    rw (mark_as_executing, get_module_info_for_address_impl, found, outside)
