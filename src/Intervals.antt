-- ===== src/Intervals.antt =====
-- class DisjointIntervalSet of Sources/macMiniDump/Private/MacMiniDump.cpp. An interval is the
-- entry (start, end) of the map `m_intervals`.
pub mod Reference
pub mod Laws
pub mod Canonical
mod Examples
use mac_mini_dump.Prelude.{
  ℕ, ◌+◌, min, max, Bool, true, false, List, [], ◌∷◌, map, ltb, leb, ◌==◌, if◌then◌else◌,
}
use mac_mini_dump.Prelude.Words.{add64, sub64}
use mac_mini_dump.SortedMap.{Cursor, unwind, upper_bound_from, step_back, assign}

abbrev pub Interval : Type 0
Interval = ℕ × ℕ

-- The `while` loop, over the iterator; then `m_intervals[start] = end`.
unfoldable pub merge_loop : ℕ → ℕ → List Interval → List Interval → List Interval
merge_loop start end before [] = assign start end (unwind before [])
merge_loop start end before ((first, second) ∷ rest) =
    let merged = merge_loop (min start first) (max end second) before rest in
    let passed = merge_loop start end ((first, second) ∷ before) rest in
    if leb first end
    then (if leb start second then merged else passed)
    else assign start end (unwind before ((first, second) ∷ rest))

-- The walk from the iterator that `upper_bound` and `--it` give.
pub merge_from : ℕ → ℕ → Cursor ℕ → List Interval
merge_from start end it =
    let back = step_back it.before it.after in merge_loop start end back.before back.after

unfoldable pub insert_and_merge_if_needed : ℕ → ℕ → List Interval → List Interval
unfolding merge_from
insert_and_merge_if_needed start length intervals =
    if length == 0
    then intervals
    else merge_from start (add64 start length) (upper_bound_from start [] intervals)

-- The calls that `ForEach` makes, in order.
unfoldable pub for_each : List Interval → List (ℕ × ℕ)
for_each = map (λ i. (i.0, sub64 i.1 i.0))
