-- ===== src/SortedMap/Laws.antt =====
-- Laws of the sorted map: the entry that the lookups look at, and insertion past the end.
use mac_mini_dump.Prelude.{
  ℕ, suc, ◌≤◌, ◌<◌, ◌≡◌, refl, ◌⊎◌, inl, List, [], ◌∷◌, ◌++◌, Option, none, some, arith, leb,
  if◌then◌else◌,
}
use mac_mini_dump.SortedMap.{lower_bound_from, insert, Under, Rising, candidate_at, candidate}

module _ {ℓ} {V : Type ℓ} where
  abbrev pub or_else : Option V → V → V
  or_else none v = v
  or_else (some u) v = u

  -- The value of the last entry whose key is at most `k`.
  abbrev pub floor_value : ℕ → List (ℕ × V) → Option V
  floor_value k [] = none
  floor_value k ((j, v) ∷ rest) = if leb j k then some (or_else (floor_value k rest) v) else none

  abbrev pub first_value : List (ℕ × V) → Option V
  first_value [] = none
  first_value ((j, v) ∷ rest) = some v

module _ {V : Type 0} where
  pub floor_none : (k lo : ℕ) (m : List (ℕ × V)) → k < lo → Rising lo m → floor_value k m ≡ none
  floor_none k lo [] h r = refl
  floor_none k lo ((j, v) ∷ m) h r = ground arith

  candidate-walk :
      (k : ℕ) (i : ℕ) (u : V) (before m : List (ℕ × V))
      → i < k
      → Rising (suc i) m
      → let it = lower_bound_from k ((i, u) ∷ before) m in
        candidate_at k it.before it.after ≡ some (or_else (floor_value k m) u)
  candidate-walk k i u before [] h r = refl
  candidate-walk k i u before ((j, v) ∷ m) h r =
      ground (
        arith,
        λ (p : j < k). candidate-walk k j v ((i, u) ∷ before) m p r.1,
        floor_none k (suc j) m,
      )

  -- On a sorted map the lookups look at the last entry whose key is at most the address; where
  -- there is none, at the first entry.
  pub candidate-floor :
      (k lo : ℕ) (m : List (ℕ × V))
      → Rising lo m
      → candidate k m ≡ elim (floor_value k m) [ none ↦ first_value m | some v ↦ some v ]
  candidate-floor k lo [] r = refl
  candidate-floor k lo ((j, v) ∷ m) r =
      ground (arith, λ (p : j < k). candidate-walk k j v [] m p r.1, floor_none k (suc j) m)

module _ {ℓ} {V : Type ℓ} where
  -- A key above all others goes to the end.
  pub insert_last : (k : ℕ) (v : V) (m : List (ℕ × V)) → Under k m → insert k v m ≡ m ++ (k, v) ∷ []
  insert_last k v [] u = refl
  insert_last k v ((j, w) ∷ m) u = ground (arith, insert_last k v m u.1)

  pub Under-append : (k : ℕ) (m n : List (ℕ × V)) → Under k m → Under k n → Under k (m ++ n)
  Under-append k [] n u v = v
  Under-append k (x ∷ m) n u v = (u.0, Under-append k m n u.1 v)

  pub Under-mono : {j k : ℕ} (m : List (ℕ × V)) → j ≤ k → Under j m → Under k m
  Under-mono [] h u = tt
  Under-mono (x ∷ m) h u = (omega arith, Under-mono m h u.1)

module _ {ℓ} {V : Type ℓ} where
  -- The map has the key.
  abbrev pub HasKey : ℕ → List (ℕ × V) → Type 0
  HasKey k [] = ⊥
  HasKey k ((j, v) ∷ m) = (j ≡ k) ⊎ HasKey k m

  pub insert-HasKey : (k : ℕ) (v : V) (m : List (ℕ × V)) → HasKey k (insert k v m)
  insert-HasKey k v [] = inl refl
  insert-HasKey k v ((j, w) ∷ m) = ground (arith, insert-HasKey k v m)

  pub insert-HasKey_other :
      (k l : ℕ) (v : V) (m : List (ℕ × V)) → HasKey l m → HasKey l (insert k v m)
  insert-HasKey_other k l v [] h = absurd h
  insert-HasKey_other k l v ((j, w) ∷ m) h = ground (arith, insert-HasKey_other k l v m)

  pub insert-Rising :
      (lo k : ℕ) (v : V) (m : List (ℕ × V)) → lo ≤ k → Rising lo m → Rising lo (insert k v m)
  insert-Rising lo k v [] h r = (h, tt)
  insert-Rising lo k v ((j, w) ∷ m) h r = ground (arith, insert-Rising (suc j) k v m)
