-- ===== src/Intervals/Reference.antt =====
-- DisjointIntervalSet (MacMiniDump.cpp): a recursive description of the insertion, the invariant
-- of the map, and the proof that the iterator code computes the description.
use mac_mini_dump.Prelude.{
  ℕ, suc, ◌+◌, min, max, ◌≤◌, ◌<◌, ◌≡◌, refl, ◌∙◌, ap, List, [], ◌∷◌, arith, ltb, if◌then◌else◌,
}
use mac_mini_dump.Prelude.Words.{u64_mod}
use mac_mini_dump.SortedMap.{unwind, upper_bound_from, assign, Under}
use mac_mini_dump.Intervals.{Interval, merge_loop, merge_from, insert_and_merge_if_needed}

-- Every interval is non-empty, and a gap parts it from the next; the first starts at `lo` or later.
abbrev pub Separated : ℕ → List Interval → Type 0
Separated lo [] = Unit {0}
Separated lo ((s, e) ∷ rest) = (lo ≤ s) × (s < e) × Separated (suc e) rest

-- The insertion as a recursion on the intervals: those that end below `start` stay, those that
-- begin above `end` stay, and the ones between are joined to the new one.
unfoldable pub insert_spec : ℕ → ℕ → List Interval → List Interval
insert_spec start end [] = (start, end) ∷ []
insert_spec start end ((s, e) ∷ rest) =
    let later = insert_spec start end rest in
    let joined = insert_spec (min start s) (max end e) rest in
    if ltb e start
    then (s, e) ∷ later
    else if ltb end s
    then (start, end) ∷ (s, e) ∷ rest
    else joined

assign-unwind :
    (k v : ℕ) (before m : List Interval)
    → Under k before
    → assign k v (unwind before m) ≡ unwind before (assign k v m)
assign-unwind k v [] m u = refl
assign-unwind k v ((s, e) ∷ before) m u =
    assign-unwind k v before ((s, e) ∷ m) u.1 ∙ ap (unwind before) (ground arith)

Under-mono : {j k : ℕ} (before : List Interval) → j ≤ k → Under j before → Under k before
Under-mono [] h u = tt
Under-mono ((s, e) ∷ before) h u = (omega arith, Under-mono before h u.1)

Under-min :
    (j k : ℕ) (before : List Interval) → Under j before → Under k before → Under (min j k) before
Under-min j k [] u v = tt
Under-min j k ((s, e) ∷ before) u v = (omega arith, Under-min j k before u.1 v.1)

merge_loop-insert_spec :
    (start end lo : ℕ) (before m : List Interval)
    → start < end
    → Under start before
    → Under lo before
    → Separated lo m
    → merge_loop start end before m ≡ unwind before (insert_spec start end m)
unfolding merge_loop insert_spec
merge_loop-insert_spec start end lo before [] h u v s = assign-unwind start end before [] u
merge_loop-insert_spec start end lo before ((a, b) ∷ rest) h u v s = ground (
  arith,
  λ (p : start ≤ b).
      merge_loop-insert_spec (min start a) (max end b) (suc b) before rest (omega arith)
        (Under-min start a before u (Under-mono before s.0 v)) (Under-mono before (omega arith) v)
        s.2,
  λ (p : b < start).
      merge_loop-insert_spec start end (suc b) ((a, b) ∷ before) rest h (omega arith, u)
        (omega arith, Under-mono before (omega arith) v) s.2,
  assign-unwind start end before ((a, b) ∷ rest) u,
)

insert_spec_pass :
    (start end a b : ℕ) (rest : List Interval)
    → b < start
    → insert_spec start end ((a, b) ∷ rest) ≡ (a, b) ∷ insert_spec start end rest
unfolding insert_spec
insert_spec_pass start end a b rest h = ground arith

walk-insert_spec :
    (start end : ℕ) (before : List Interval) (x : Interval) (m : List Interval)
    → start < end
    → x.0 ≤ start
    → Under x.0 before
    → Separated x.0 (x ∷ m)
    → merge_from start end (upper_bound_from start (x ∷ before) m)
      ≡ unwind before (insert_spec start end (x ∷ m))
unfolding merge_from
walk-insert_spec start end before (a, b) [] h p u s =
    merge_loop-insert_spec start end a before ((a, b) ∷ []) h (Under-mono before p u) u s
walk-insert_spec start end before (a, b) ((c, d) ∷ rest) h p u s = ground (
  arith,
  insert_spec_pass start end a b ((c, d) ∷ rest),
  λ (q : c ≤ start).
      walk-insert_spec start end ((a, b) ∷ before) (c, d) rest h q
        (omega arith, Under-mono before (omega arith) u) (omega arith, s.2.1, s.2.2),
  merge_loop-insert_spec start end a before ((a, b) ∷ (c, d) ∷ rest) h (Under-mono before p u) u s,
)

-- For a map that meets the invariant the iterator code computes the recursive description, as long
-- as the end of the new interval does not wrap.
pub insert-insert_spec :
    (start length : ℕ) (m : List Interval)
    → Separated 0 m
    → 0 < length
    → start + length < u64_mod
    → insert_and_merge_if_needed start length m ≡ insert_spec start (start + length) m
unfolding insert_and_merge_if_needed merge_from
insert-insert_spec start length [] s p w =
    ground (arith, merge_loop-insert_spec start (start + length) 0 [] [] (omega arith) tt tt tt)
insert-insert_spec start length ((a, b) ∷ rest) s p w = ground (
  arith,
  λ (q : a ≤ start).
      walk-insert_spec start (start + length) [] (a, b) rest (omega arith) q tt
        (omega arith, s.1, s.2),
  merge_loop-insert_spec start (start + length) 0 [] ((a, b) ∷ rest) (omega arith) tt tt s,
)
