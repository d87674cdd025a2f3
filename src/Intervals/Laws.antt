-- ===== src/Intervals/Laws.antt =====
-- DisjointIntervalSet (MacMiniDump.cpp): the laws of insertion and of `ForEach`.
use mac_mini_dump.Prelude.{
  ℕ, zero, suc, ◌+◌, min, max, ◌≤◌, ◌<◌, ◌≡◌, refl, Bool, false, ◌||◌, ◌&&◌, List, [], ◌∷◌, arith,
  ltb, leb,
}
use mac_mini_dump.Prelude.Words.{u64_mod}
use mac_mini_dump.Intervals.{Interval, insert_and_merge_if_needed}
use mac_mini_dump.Intervals.Reference.{Separated, insert_spec, insert-insert_spec}

-- Some interval holds the address.
abbrev pub covers : ℕ → List Interval → Bool
covers x [] = false
covers x ((s, e) ∷ rest) = (leb s x && ltb x e) || covers x rest

-- No end wraps.
abbrev pub Fits : List Interval → Type 0
Fits [] = Unit {0}
Fits ((s, e) ∷ rest) = (e < u64_mod) × Fits rest

pub Separated-mono : {j k : ℕ} (m : List Interval) → j ≤ k → Separated k m → Separated j m
Separated-mono [] h s = tt
Separated-mono ((a, b) ∷ m) h s = (omega arith, s.1, s.2)

insert_spec-Separated :
    (lo start end : ℕ) (m : List Interval)
    → lo ≤ start
    → start < end
    → Separated lo m
    → Separated lo (insert_spec start end m)
unfolding insert_spec
insert_spec-Separated lo start end [] h p s = (h, p, tt)
insert_spec-Separated lo start end ((a, b) ∷ m) h p s = ground (
  arith,
  λ (q : b < start). insert_spec-Separated (suc b) start end m q p s.2,
  insert_spec-Separated lo (min start a) (max end b) m (omega arith) (omega arith)
      (Separated-mono m (omega arith) s.2),
)

insert_spec-Fits :
    (start end : ℕ) (m : List Interval) → end < u64_mod → Fits m → Fits (insert_spec start end m)
unfolding insert_spec
insert_spec-Fits start end [] h f = (h, tt)
insert_spec-Fits start end ((a, b) ∷ m) h f = ground (
  arith,
  insert_spec-Fits start end m h f.1,
  insert_spec-Fits (min start a) (max end b) m (omega arith) f.1,
)

pub covers_below : (x lo : ℕ) (m : List Interval) → x < lo → Separated lo m → covers x m ≡ false
covers_below x lo [] h s = refl
covers_below x lo ((a, b) ∷ m) h s = ground (arith, covers_below x (suc b) m (omega arith) s.2)

covers-insert_spec :
    (x lo start end : ℕ) (m : List Interval)
    → start < end
    → Separated lo m
    → covers x (insert_spec start end m) ≡ ((leb start x && ltb x end) || covers x m)
unfolding insert_spec
covers-insert_spec x lo start end [] p s = refl
covers-insert_spec x lo start end ((a, b) ∷ m) p s = ground (
  arith,
  covers-insert_spec x (suc b) start end m p s.2,
  covers-insert_spec x (suc b) (min start a) (max end b) m (omega arith) s.2,
)

insert_empty : (start : ℕ) (m : List Interval) → insert_and_merge_if_needed start 0 m ≡ m
unfolding insert_and_merge_if_needed
insert_empty start m = refl

-- For a valid map and an interval whose end does not wrap, the map after an insertion is valid
-- again: sorted, with non-empty intervals that a gap parts, and with no end that wraps.
pub insert-Separated :
    (start length : ℕ) (m : List Interval)
    → start + length < u64_mod
    → Separated 0 m
    → Fits m
    → Separated 0 (insert_and_merge_if_needed start length m)
      × Fits (insert_and_merge_if_needed start length m)
insert-Separated start zero m w s f = rw insert_empty (s, f)
insert-Separated start (suc n) m w s f = rw (insert-insert_spec start (suc n) m s (omega arith) w) (
  insert_spec-Separated 0 start (start + suc n) m (omega arith) (omega arith) s,
  insert_spec-Fits start (start + suc n) m w f,
)

-- For a valid map and an interval whose end does not wrap, an address is covered after the
-- insertion exactly when it was covered before or lies in [start, start + length).
pub covers-insert :
    (x start length : ℕ) (m : List Interval)
    → start + length < u64_mod
    → Separated 0 m
    → covers x (insert_and_merge_if_needed start length m)
      ≡ ((leb start x && ltb x (start + length)) || covers x m)
covers-insert x start zero m w s = rw insert_empty (ground arith)
covers-insert x start (suc n) m w s =
    rw (insert-insert_spec start (suc n) m s (omega arith) w)
      (covers-insert_spec x 0 start (start + suc n) m (omega arith) s)
