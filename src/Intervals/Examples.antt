-- ===== src/Intervals/Examples.antt =====
-- DisjointIntervalSet: runs on small sets, and each theorem at an input.
use mac_mini_dump.Prelude.{◌+◌, ◌≡◌, refl, ◌&&◌, ◌||◌, List, [], ◌∷◌, arith, leb, ltb}
use mac_mini_dump.Intervals.{Interval, insert_and_merge_if_needed, merge_from, merge_loop, for_each}
use mac_mini_dump.Intervals.Reference.{Separated, insert_spec, insert-insert_spec}
use mac_mini_dump.Intervals.Laws.{covers, Fits, insert-Separated, covers-insert}
use mac_mini_dump.Intervals.Canonical.{insert_all, insert_all-canonical}

program : Unit {0}
unfolding insert_and_merge_if_needed for_each insert_all insert_spec
program = tt

-- [0, 10), [20, 30) and [40, 50)
abbrev three : List Interval
three = (0, 10) ∷ (20, 30) ∷ (40, 50) ∷ []

-- [25, 40) touches the last two.
merges : insert_and_merge_if_needed 25 15 three ≡ (0, 10) ∷ (20, 50) ∷ []
unfolding program merge_from merge_loop
merges = refl

fills_gap : insert_and_merge_if_needed 12 3 three ≡ (0, 10) ∷ (12, 15) ∷ (20, 30) ∷ (40, 50) ∷ []
unfolding program merge_from merge_loop
fills_gap = refl

insert-insert_spec_example : insert_and_merge_if_needed 25 15 three ≡ insert_spec 25 40 three
insert-insert_spec_example =
    insert-insert_spec 25 15 three (omega arith) (omega arith) (omega arith)

insert-Separated_example :
    Separated 0 (insert_and_merge_if_needed 5 30 three)
    × Fits (insert_and_merge_if_needed 5 30 three)
insert-Separated_example = insert-Separated 5 30 three (omega arith) (omega arith) (omega arith)

covers-insert_example :
    covers 35 (insert_and_merge_if_needed 25 15 three)
    ≡ ((leb 25 35 && ltb 35 (25 + 15)) || covers 35 three)
covers-insert_example = covers-insert 35 25 15 three (omega arith) (omega arith)

insert_all-canonical_example : insert_all ((5, 10) ∷ (0, 5) ∷ []) [] ≡ insert_all ((0, 15) ∷ []) []
insert_all-canonical_example =
    insert_all-canonical ((5, 10) ∷ (0, 5) ∷ []) ((0, 15) ∷ []) (omega arith) (omega arith)
      (λ x. ground arith)
