-- ===== src/Dump/Growth.antt =====
-- AddThreadsToCore (MacMiniDump.cpp): its loop over the threads, and the segments for the collected
-- ranges.
use mac_mini_dump.Prelude.{
  ℕ, ◌+◌, ◌≤◌, ◌<◌, ◌≡◌, refl, sym, ◌∙◌, ap, inl, inr, Bool, true, false, List, [], ◌∷◌, ◌++◌,
  Option, some, arith, if◌then◌else◌, length, length-append, Option-cases,
}
use mathlib.Core.List.{append_assoc, append-nil}
use mac_mini_dump.Prelude.Words.{u64_mod, sub64}
use mac_mini_dump.DataAccess.{process_memory, DataProvider}
use mac_mini_dump.Intervals.{Interval, for_each}
use mac_mini_dump.Intervals.Reference.{Separated}
use mac_mini_dump.Intervals.Laws.{Fits, Separated-mono}
use mac_mini_dump.Regions.{MemoryRegionInfo, MemoryRegions, get_region_info_for_address}
use mac_mini_dump.Regions.Lookup.{get-in_region}
use mac_mini_dump.Builder.{Builder, Segment, new_segment, add_thread_command, add_segment_command}
use mac_mini_dump.StackWalk.{Walker, Registers, walk_stack}
use mac_mini_dump.Dump.{
  ThreadState, registers, TaskThread, CrashContext, Collected, add_call_stack, state_of,
  stack_added, with_thread, add_thread, add_threads, get_memory_protection,
  add_segment_command_from_process_memory, add_ranges,
}
use mac_mini_dump.Dump.Ranges.{Ordered, SafeIps, Kept, add_call_stack-Kept, add_stack-Kept}

-- The builder that the threads were added to, and what is collected since: as many thread commands
-- as ids.
pub record Grown (b : Builder) (c : Collected) : Type 0 where
  pub kept : Kept c.memory_ranges_to_add
  pub segments : c.builder.segment_cmds ≡ b.segment_cmds
  pub open_still : c.builder.load_commands_finalized ≡ b.load_commands_finalized
  pub threads : length c.builder.thread_cmds ≡ length b.thread_cmds + length c.thread_ids

one_more : {A : Type 0} (xs : List A) (x : A) → length (xs ++ x ∷ []) ≡ length xs + 1
one_more xs x = omega (arith, length-append xs (x ∷ []))

module _ (walker : Walker) (regions : MemoryRegions) (crash_context : Option CrashContext)
    (this_thread fuel : ℕ)
    (regions_fit : (sp : ℕ) (ri : MemoryRegionInfo)
      → get_region_info_for_address regions sp ≡ some ri
      → ri.vmaddr + ri.vmsize < u64_mod) where
  -- The stack walk of the thread ends, with addresses whose surroundings do not wrap around.
  abbrev pub WalkEnds : TaskThread → Type 0
  WalkEnds t =
      (s : ThreadState)
      → state_of crash_context t ≡ some s
      → (ips : List ℕ) × (walk_stack walker fuel regions (registers walker.arch s) ≡ some ips)
        × SafeIps ips

  abbrev pub AllWalksEnd : List TaskThread → Type 0
  AllWalksEnd [] = Unit {0}
  AllWalksEnd (t ∷ threads) = WalkEnds t × AllWalksEnd threads

  stack_added-Grown :
      (b : Builder) (t : TaskThread) (r : Registers) (c : Collected)
      → Grown b c
      → Grown b (stack_added walker regions crash_context this_thread t r c)
  stack_added-Grown b t r c g =
      elim (Option-cases (get_region_info_for_address regions r.stack_pointer)) [
        | inl missing ↦ rw (stack_added, missing) g
        | inr (ri, there) ↦
            rw (stack_added, there)
              (record {
                kept =
                    add_stack-Kept r.stack_pointer ri _ c.memory_ranges_to_add
                      (regions_fit r.stack_pointer ri there)
                      (get-in_region r.stack_pointer regions ri there) g.kept;
                segments = g.segments;
                open_still = g.open_still;
                threads = g.threads;
              })
      ]

  call_stack-Grown :
      (b : Builder) (ips : List ℕ) (c : Collected)
      → SafeIps ips
      → Grown b c
      → Grown b (add_call_stack ips c)
  call_stack-Grown b ips c safe g =
      let (kept, same, ids) = add_call_stack-Kept ips c safe g.kept in
      record {
        kept = kept;
        segments = ap (λ (d : Builder). d.segment_cmds) same ∙ g.segments;
        open_still = ap (λ (d : Builder). d.load_commands_finalized) same ∙ g.open_still;
        threads =
            ap (λ (d : Builder). length d.thread_cmds) same
            ∙ (g.threads ∙ ap (λ l. length b.thread_cmds + length l) (sym ids));
      }

  with_thread-Grown :
      (b : Builder) (t : TaskThread) (s : ThreadState) (c : Collected)
      → Grown b c
      → Grown b (with_thread walker regions crash_context this_thread t s c)
  unfolding add_thread_command
  with_thread-Grown b t s c g = record {
    kept = g.kept;
    segments = g.segments;
    open_still = g.open_still;
    threads =
        omega (arith, g.threads, one_more c.builder.thread_cmds _, one_more c.thread_ids t.tid);
  }

  add_thread-Grown :
      (b : Builder) (t : TaskThread) (c : Collected)
      → WalkEnds t
      → Grown b c
      → (c' : Collected) × (add_thread walker regions crash_context this_thread fuel t c ≡ some c')
        × Grown b c'
  unfolding add_thread
  add_thread-Grown b t c ends g = elim (Option-cases (state_of crash_context t)) [
    | inl skipped ↦ (c, rw (add_thread, skipped), g)
    | inr (s, state) ↦
        let (ips, walked, safe) = ends s state in
        (
          _,
          rw (add_thread, state, walked),
          stack_added-Grown b t (registers walker.arch s) _
              (call_stack-Grown b ips _ safe (with_thread-Grown b t s c g)),
        )
  ]

  pub add_threads-Grown :
      (b : Builder) (threads : List TaskThread) (c : Collected)
      → AllWalksEnd threads
      → Grown b c
      → (c' : Collected) × (add_threads walker regions crash_context this_thread fuel threads c
          ≡ some c')
        × Grown b c'
  unfolding add_threads
  add_threads-Grown b [] c ends g = (c, refl, g)
  add_threads-Grown b (t ∷ threads) c ends g =
      let (c1, first, g1) = add_thread-Grown b t c ends.0 g in
      let (c2, rest, g2) = add_threads-Grown b threads c1 ends.1 g1 in
      (c2, rw (add_threads, first) rest, g2)

-- Ranges as `ForEach` passes them: nonempty, in order, disjoint.
abbrev RangesFrom : ℕ → List (ℕ × ℕ) → Type 0
RangesFrom lo [] = Unit {0}
RangesFrom lo ((start, length) ∷ rest) =
    (lo ≤ start) × (0 < length) × RangesFrom (start + length) rest

pub for_each-RangesFrom :
    (lo : ℕ) (m : List Interval) → Separated lo m → Fits m → RangesFrom lo (for_each m)
unfolding for_each
for_each-RangesFrom lo [] s f = tt
for_each-RangesFrom lo ((a, e) ∷ m) s f = (
  s.0,
  omega (arith, s.1),
  rw same (for_each-RangesFrom e m (Separated-mono m (omega arith) s.2) f.1),
)
  where
    same : a + sub64 e a ≡ e
    same = omega (arith, s.1, f.0)

Ordered-mono : {j k : ℕ} (segments : List Segment) → j ≤ k → Ordered k segments → Ordered j segments
Ordered-mono [] h o = tt
Ordered-mono ((sc, p) ∷ rest) h o = (omega (arith, o.0), o.1, o.2)

pub add_segment_open :
    (vmaddr prot : ℕ) (provider : Option DataProvider) (b : Builder)
    → b.load_commands_finalized ≡ false
    → (add_segment_command vmaddr prot provider b).0
      ≡ record b { segment_cmds = b.segment_cmds ++ new_segment vmaddr prot provider ∷ [] }
unfolding add_segment_command
add_segment_open vmaddr prot provider b f = ap (λ (r : Bool). (open_result r).0) f
  where
    open_result : Bool → Builder × Bool
    open_result q = if q then (b, false) else (
      record b { segment_cmds = b.segment_cmds ++ new_segment vmaddr prot provider ∷ [] },
      true,
    )

pub add_ranges-Ordered :
    (protection : ℕ → ℕ → Option ℕ) (lo : ℕ) (ranges : List (ℕ × ℕ)) (b : Builder)
    → RangesFrom lo ranges
    → b.load_commands_finalized ≡ false
    → (added : List Segment) × (add_ranges protection ranges b
        ≡ record b { segment_cmds = b.segment_cmds ++ added })
      × Ordered lo added
unfolding add_ranges add_segment_command_from_process_memory add_segment_command
add_ranges-Ordered protection lo [] b r f = ([], rw (append-nil b.segment_cmds), tt)
add_ranges-Ordered protection lo ((start, size) ∷ rest) b r f =
    elim (Option-cases (get_memory_protection protection start size)) [
      | inl unknown ↦
          let (added, e, o) = add_ranges-Ordered protection (start + size) rest b r.2 f in
          (
            added,
            rw (add_ranges, add_segment_command_from_process_memory, unknown) e,
            Ordered-mono added (omega (arith, r.0)) o,
          )
      | inr (prot, known) ↦
          let segment : Segment =
            new_segment start prot
              (some (record { size = size; data_ptr = process_memory start size })) in
          let (added, e, o) =
            add_ranges-Ordered protection (start + size) rest
              (record b { segment_cmds = b.segment_cmds ++ segment ∷ [] }) r.2 f in
          (
            segment ∷ added,
            rw (add_ranges, add_segment_command_from_process_memory, known)
                (ap (add_ranges protection rest) (add_segment_open start prot segment.1 b f)
                  ∙ e
                  ∙ ap (λ l. record b { segment_cmds = l })
                      (append_assoc b.segment_cmds (segment ∷ []) added)),
            (r.0, r.1, o),
          )
    ]
