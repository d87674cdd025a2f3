-- ===== src/SortedMap.antt =====
-- std::map with integer keys, as the list of its entries in key order, and its iterators.
-- What the code of DisjointIntervalSet, MemoryRegionList and ModuleList uses of it.
pub mod Laws
use mac_mini_dump.Prelude.{
  ℕ, Bool, true, false, List, [], ◌∷◌, Option, none, some, ltb, leb, ◌==◌, if◌then◌else◌, suc, ◌≤◌,
  ◌<◌,
}

-- An iterator: the entries before it, the nearest first, and those from it on.
pub record Cursor {ℓ} (V : Type ℓ) : Type ℓ where
  pub before : List (ℕ × V)
  pub after : List (ℕ × V)

module _ {ℓ} {V : Type ℓ} where
  -- The map that the iterator walks over.
  abbrev pub unwind : List (ℕ × V) → List (ℕ × V) → List (ℕ × V)
  unwind [] after = after
  unwind (x ∷ before) after = unwind before (x ∷ after)

  -- The first entry whose key is greater than `k`.
  abbrev pub upper_bound_from : ℕ → List (ℕ × V) → List (ℕ × V) → Cursor V
  upper_bound_from k before [] = record { before = before; after = [] }
  upper_bound_from k before ((j, v) ∷ rest) =
      let further = upper_bound_from k ((j, v) ∷ before) rest in
      if leb j k then further else record { before = before; after = (j, v) ∷ rest }

  -- The first entry whose key is not less than `k`.
  abbrev pub lower_bound_from : ℕ → List (ℕ × V) → List (ℕ × V) → Cursor V
  lower_bound_from k before [] = record { before = before; after = [] }
  lower_bound_from k before ((j, v) ∷ rest) =
      let further = lower_bound_from k ((j, v) ∷ before) rest in
      if ltb j k then further else record { before = before; after = (j, v) ∷ rest }

  -- `if (it != begin ()) --it`
  abbrev pub step_back : List (ℕ × V) → List (ℕ × V) → Cursor V
  step_back [] after = record { before = []; after = after }
  step_back (x ∷ before) after = record { before = before; after = x ∷ after }

  -- `m[k] = v`
  abbrev pub assign : ℕ → V → List (ℕ × V) → List (ℕ × V)
  assign k v [] = (k, v) ∷ []
  assign k v ((j, w) ∷ rest) =
      if ltb k j
      then (k, v) ∷ (j, w) ∷ rest
      else if ltb j k
      then (j, w) ∷ assign k v rest
      else (k, v) ∷ rest

  -- `m.insert ({ k, v })` and `m.emplace (k, v)`: an entry that is there stays.
  abbrev pub insert : ℕ → V → List (ℕ × V) → List (ℕ × V)
  insert k v [] = (k, v) ∷ []
  insert k v ((j, w) ∷ rest) =
      if ltb k j
      then (k, v) ∷ (j, w) ∷ rest
      else if ltb j k
      then (j, w) ∷ insert k v rest
      else (j, w) ∷ rest

  -- Every key lies below `k`.
  abbrev pub Under : ℕ → List (ℕ × V) → Type 0
  Under k [] = Unit {0}
  Under k ((j, v) ∷ rest) = (j < k) × Under k rest

  -- The keys rise strictly, the first from `k` on.
  abbrev pub Rising : ℕ → List (ℕ × V) → Type 0
  Rising k [] = Unit {0}
  Rising k ((j, v) ∷ rest) = (k ≤ j) × Rising (suc j) rest

  -- The entry that `GetRegionInfoForAddress` and `GetModuleInfoForAddressImpl` look at, with the
  -- same iterator steps: the last one where `lower_bound` finds none, otherwise the one it finds or
  -- the one before it.
  abbrev pub candidate_at : ℕ → List (ℕ × V) → List (ℕ × V) → Option V
  candidate_at k [] [] = none
  candidate_at k ((j, v) ∷ before) [] = some v
  candidate_at k [] ((j, v) ∷ rest) = some v
  candidate_at k ((i, u) ∷ before) ((j, v) ∷ rest) = if k == j then some v else some u

  abbrev pub candidate : ℕ → List (ℕ × V) → Option V
  candidate k m = let it = lower_bound_from k [] m in candidate_at k it.before it.after
