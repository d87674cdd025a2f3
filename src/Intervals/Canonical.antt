-- ===== src/Intervals/Canonical.antt =====
-- DisjointIntervalSet (MacMiniDump.cpp): a map is determined by the addresses that it covers.
use mac_mini_dump.Prelude.{
  ℕ, suc, ◌+◌, ◌<◌, ◌≡◌, refl, Bool, false, ◌||◌, ◌&&◌, List, [], ◌∷◌, arith, ltb, leb, map,
}
use mac_mini_dump.Prelude.Words.{u64_mod}
use mac_mini_dump.Intervals.{Interval, insert_and_merge_if_needed, for_each}
use mac_mini_dump.Intervals.Reference.{Separated}
use mac_mini_dump.Intervals.Laws.{
  covers, Fits, Separated-mono, insert-Separated, covers-insert, covers_below,
}

-- The insertions of (start, length) pairs, one after the other.
unfoldable pub insert_all : List (ℕ × ℕ) → List Interval → List Interval
insert_all [] m = m
insert_all ((start, length) ∷ rest) m = insert_all rest (insert_and_merge_if_needed start length m)

abbrev pub AllFit : List (ℕ × ℕ) → Type 0
AllFit [] = Unit {0}
AllFit ((start, length) ∷ rest) = (start + length < u64_mod) × AllFit rest

abbrev pub requested : ℕ → List (ℕ × ℕ) → Bool
requested x [] = false
requested x ((start, length) ∷ rest) = (leb start x && ltb x (start + length)) || requested x rest

abbrev pub AllPositive : List (ℕ × ℕ) → Type 0
AllPositive [] = Unit {0}
AllPositive ((start, length) ∷ rest) = (0 < length) × AllPositive rest

insert_all-Separated :
    (rs : List (ℕ × ℕ)) (m : List Interval)
    → AllFit rs
    → Separated 0 m
    → Fits m
    → Separated 0 (insert_all rs m) × Fits (insert_all rs m)
unfolding insert_all
insert_all-Separated [] m w s f = (s, f)
insert_all-Separated ((start, length) ∷ rs) m w s f =
    let (s', f') = insert-Separated start length m w.0 s f in
    insert_all-Separated rs (insert_and_merge_if_needed start length m) w.1 s' f'

covers-insert_all :
    (x : ℕ) (rs : List (ℕ × ℕ)) (m : List Interval)
    → AllFit rs
    → Separated 0 m
    → Fits m
    → covers x (insert_all rs m) ≡ (requested x rs || covers x m)
unfolding insert_all
covers-insert_all x [] m w s f = refl
covers-insert_all x ((start, length) ∷ rs) m w s f =
    let (s', f') = insert-Separated start length m w.0 s f in
    ground (
      arith,
      covers-insert_all x rs (insert_and_merge_if_needed start length m) w.1 s' f',
      covers-insert x start length m w.0 s,
    )

Separated-unique :
    (lo : ℕ) (m n : List Interval)
    → Separated lo m
    → Separated lo n
    → ((x : ℕ) → covers x m ≡ covers x n)
    → m ≡ n
Separated-unique lo [] [] s t h = refl
Separated-unique lo [] ((c, d) ∷ n) s t h = ground (arith, h c)
Separated-unique lo ((a, b) ∷ m) [] s t h = ground (arith, h a)
Separated-unique lo ((a, b) ∷ m) ((c, d) ∷ n) s t h = ground (
  arith,
  starts,
  ends,
  Separated-unique (suc b) m n s.2 (Separated-mono n (omega (arith, ends)) t.2) rest,
)
  where
    starts : a ≡ c
    starts = ground (arith, h a, h c, covers_below a (suc d) n, covers_below c (suc b) m)

    ends : b ≡ d
    ends = ground (arith, starts, h b, h d, covers_below b (suc b) m, covers_below d (suc d) n)

    rest : (x : ℕ) → covers x m ≡ covers x n
    rest x = ground (arith, starts, ends, h x, covers_below x (suc b) m, covers_below x (suc d) n)

-- Two sequences of insertions into the empty map, none of which wraps, build the same map when they
-- ask for the same addresses: neither the order nor the grouping of the requests matters.
pub insert_all-canonical :
    (rs qs : List (ℕ × ℕ))
    → AllFit rs
    → AllFit qs
    → ((x : ℕ) → requested x rs ≡ requested x qs)
    → insert_all rs [] ≡ insert_all qs []
insert_all-canonical rs qs v w h =
    Separated-unique 0 (insert_all rs []) (insert_all qs []) (insert_all-Separated rs [] v tt tt).0
      (insert_all-Separated qs [] w tt tt).0
      (λ x.
        ground (arith, h x, covers-insert_all x rs [] v tt tt, covers-insert_all x qs [] w tt tt))

-- On a valid map the calls of `ForEach` give back the intervals: each has the start of an interval
-- and its exact length, which is positive.
pub for_each-exact :
    (lo : ℕ) (m : List Interval)
    → Separated lo m
    → Fits m
    → (map (λ c. (c.0, c.0 + c.1)) (for_each m) ≡ m) × AllPositive (for_each m)
unfolding for_each
for_each-exact lo [] s f = (refl, tt)
for_each-exact lo ((a, b) ∷ m) s f = ground (arith, for_each-exact (suc b) m s.2 f.1)
