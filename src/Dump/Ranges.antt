-- ===== src/Dump/Ranges.antt =====
-- AddThreadsToCore (MacMiniDump.cpp): the segments and the threads that it adds to the builder.
use mac_mini_dump.Prelude.{
  ℕ, ◌+◌, ◌-◌, ◌≤◌, ◌<◌, ◌≡◌, ◌≢◌, refl, Bool, true, false, List, [], ◌∷◌, arith,
}
use mac_mini_dump.Prelude.Words.{u64_mod, uint64_max, add64}
use mac_mini_dump.Intervals.{Interval}
use mac_mini_dump.Intervals.Reference.{Separated}
use mac_mini_dump.Intervals.Laws.{Fits, insert-Separated}
use mac_mini_dump.Regions.{MemoryRegionInfo}
use mac_mini_dump.Builder.{Segment}
use mac_mini_dump.Builder.Segments.{OtherStarts, DistinctStarts}
use mac_mini_dump.Dump.{Collected, add_surroundings, add_call_stack, add_stack}

-- Segments with rising, disjoint and nonempty ranges of memory, the first from `lo` on.
abbrev pub Ordered : ℕ → List Segment → Type 0
Ordered lo [] = Unit {0}
Ordered lo ((sc, p) ∷ rest) =
    (lo ≤ sc.vmaddr) × (0 < sc.filesize) × Ordered (sc.vmaddr + sc.filesize) rest

Ordered-OtherStarts :
    (v lo : ℕ) (segments : List Segment) → v < lo → Ordered lo segments → OtherStarts v segments
Ordered-OtherStarts v lo [] h o = tt
Ordered-OtherStarts v lo ((sc, p) ∷ rest) h o = (
  λ e. omega (arith, e, o.0),
  Ordered-OtherStarts v (sc.vmaddr + sc.filesize) rest (omega (arith, o.0)) o.2,
)

pub Ordered-DistinctStarts :
    (lo : ℕ) (segments : List Segment) → Ordered lo segments → DistinctStarts segments
Ordered-DistinctStarts lo [] o = tt
Ordered-DistinctStarts lo ((sc, p) ∷ rest) o = (
  Ordered-OtherStarts sc.vmaddr (sc.vmaddr + sc.filesize) rest (omega (arith, o.1)) o.2,
  Ordered-DistinctStarts (sc.vmaddr + sc.filesize) rest o.2,
)

-- No program counter of the call stack is so large that the end of its surroundings wraps around.
abbrev pub SafeIps : List ℕ → Type 0
SafeIps [] = Unit {0}
SafeIps (ip ∷ rest) = (ip ≢ uint64_max - 256) × SafeIps rest

abbrev pub Kept : List Interval → Type 0
Kept ranges = Separated 0 ranges × Fits ranges

add_surroundings-Kept :
    (ip : ℕ) (ranges : List Interval)
    → ip ≢ uint64_max - 256
    → Kept ranges
    → Kept (add_surroundings ip ranges)
add_surroundings-Kept ip ranges safe k =
    ground
      (arith, λ (w : ip - 256 + 513 < u64_mod). insert-Separated (ip - 256) 513 ranges w k.0 k.1)

pub add_call_stack-Kept :
    (ips : List ℕ) (c : Collected)
    → SafeIps ips
    → Kept c.memory_ranges_to_add
    → Kept (add_call_stack ips c).memory_ranges_to_add
      × ((add_call_stack ips c).builder ≡ c.builder)
      × ((add_call_stack ips c).thread_ids ≡ c.thread_ids)
unfolding add_call_stack
add_call_stack-Kept [] c safe k = (k, refl, refl)
add_call_stack-Kept (ip ∷ ips) c safe k =
    add_call_stack-Kept ips _ safe.1 (add_surroundings-Kept ip c.memory_ranges_to_add safe.0 k)

pub add_stack-Kept :
    (sp : ℕ) (ri : MemoryRegionInfo) (wanted : Bool) (ranges : List Interval)
    → ri.vmaddr + ri.vmsize < u64_mod
    → (ri.vmaddr ≤ sp) × (sp ≤ add64 ri.vmaddr ri.vmsize)
    → Kept ranges
    → Kept (add_stack sp ri wanted ranges)
add_stack-Kept sp ri false ranges w inside k = k
add_stack-Kept sp ri true ranges w inside k =
    insert-Separated _ _ ranges (omega (arith, inside.0, inside.1)) k.0 k.1
