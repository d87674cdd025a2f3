-- ===== src/Dump/CoreBuilder.antt =====
-- AddThreadsToCore (MacMiniDump.cpp): what the builder that it fills is like, whatever the threads
-- are.
use mac_mini_dump.Prelude.{
  ℕ, ◌+◌, ◌≤◌, ◌<◌, ◌≡◌, refl, ap, inl, inr, ◌⊎◌, true, false, List, [], ◌∷◌, ◌++◌, Option, none,
  some, arith, Option-cases,
}
use mac_mini_dump.Prelude.Words.{u64_mod}
use mac_mini_dump.DataAccess.{Memory, DataProvider, process_memory}
use mac_mini_dump.Intervals.{for_each}
use mac_mini_dump.Regions.{MemoryRegions, get_region_info_for_address}
use mac_mini_dump.Builder.{
  Builder, Segment, segment_command_size, new_segment, add_thread_command, add_segment_command,
  Arch, new_builder,
}
use mac_mini_dump.Builder.Commands.{
  Consistent, add_thread-Consistent, add_segment-Consistent, new-Consistent,
}
use mac_mini_dump.Builder.Plan.{cells, SegmentsReady}
use mac_mini_dump.Builder.Reader.{process_memory-Reads}
use mac_mini_dump.Modules.{ModuleInfos}
use mac_mini_dump.StackWalk.{Walker, Registers, walk_stack}
use mac_mini_dump.Dump.{
  ThreadState, registers, gpr_bytes, exc_bytes, TaskThread, CrashContext, Collected, add_call_stack,
  state_of, stack_added, with_thread, add_thread, add_threads, get_memory_protection,
  add_segment_command_from_process_memory, add_ranges, add_threads_to_core,
}
use mac_mini_dump.Dump.Ranges.{Ordered}
use mac_mini_dump.Dump.Growth.{add_segment_open}

some_path : (c c' : Collected) → some c ≡ some c' → c ≡ c'
some_path c c' e = ap (λ o. elim o [ none ↦ c | some x ↦ x ]) e

-- Every segment is read from the memory at its own address.
abbrev pub FromMemory : List Segment → Type 0
FromMemory [] = Unit {0}
FromMemory ((sc, none) ∷ rest) = ⊥
FromMemory ((sc, some p) ∷ rest) =
    (p ≡ record { size = sc.filesize; data_ptr = process_memory sc.vmaddr sc.filesize })
    × (sc.cmdsize ≡ segment_command_size)
    × FromMemory rest

FromMemory-append : (xs ys : List Segment) → FromMemory xs → FromMemory ys → FromMemory (xs ++ ys)
FromMemory-append [] ys f g = g
FromMemory-append ((sc, none) ∷ xs) ys f g = absurd f
FromMemory-append ((sc, some p) ∷ xs) ys f g = (f.0, f.1, FromMemory-append xs ys f.2 g)

-- A builder to which threads and ranges of memory were added, and no notes yet.
pub record CoreBuilder (b : Builder) : Type 0 where
  pub consistent : Consistent b
  pub open_still : b.load_commands_finalized ≡ false
  pub no_notes : b.note_cmds ≡ []
  pub from_memory : FromMemory b.segment_cmds

pub new-CoreBuilder : (arch : Arch) → CoreBuilder (new_builder arch)
unfolding new_builder
new-CoreBuilder arch = record {
  consistent = new-Consistent arch;
  open_still = refl;
  no_notes = refl;
  from_memory = tt;
}

add_thread-CoreBuilder :
    (gpr exc : List ℕ) (b : Builder) → CoreBuilder b → CoreBuilder (add_thread_command gpr exc b).0
unfolding add_thread_command
add_thread-CoreBuilder gpr exc b c = record {
  consistent = add_thread-Consistent gpr exc b c.open_still c.consistent;
  open_still = c.open_still;
  no_notes = c.no_notes;
  from_memory = c.from_memory;
}

add_call_stack-builder : (ips : List ℕ) (c : Collected) → (add_call_stack ips c).builder ≡ c.builder
unfolding add_call_stack
add_call_stack-builder [] c = refl
add_call_stack-builder (ip ∷ ips) c = add_call_stack-builder ips _

module _ (walker : Walker) (regions : MemoryRegions) (crash_context : Option CrashContext)
    (this_thread fuel : ℕ) where
  stack_added-builder :
      (t : TaskThread) (r : Registers) (c : Collected)
      → (stack_added walker regions crash_context this_thread t r c).builder ≡ c.builder
  stack_added-builder t r c =
      elim (Option-cases (get_region_info_for_address regions r.stack_pointer)) [
        | inl missing ↦ rw (stack_added, missing)
        | inr (ri, there) ↦ rw (stack_added, there)
      ]

  -- A round that does not run out of fuel skips the thread, or adds a thread command.
  add_thread-builder :
      (t : TaskThread) (c c' : Collected)
      → add_thread walker regions crash_context this_thread fuel t c ≡ some c'
      → (c'.builder ≡ c.builder)
        ⊎ ((s : ThreadState) × (c'.builder
              ≡ (add_thread_command
                  (gpr_bytes walker.arch s)
                  (exc_bytes walker.arch s)
                  c.builder).0))
  unfolding add_thread
  add_thread-builder t c c' e = elim (Option-cases (state_of crash_context t)) [
    | inl skipped ↦ inl (ground arith)
    | inr (s, state) ↦
        elim (Option-cases (walk_stack walker fuel regions (registers walker.arch s))) [
          | inl endless ↦ absurd (ground arith)
          | inr (ips, walked) ↦ inr (
            s,
            ground (
              arith,
              stack_added-builder t (registers walker.arch s)
                  (add_call_stack ips (with_thread walker regions crash_context this_thread t s c)),
              add_call_stack-builder ips
                  (with_thread walker regions crash_context this_thread t s c),
            ),
          )
        ]
  ]

  add_thread_step :
      (t : TaskThread) (c c' : Collected)
      → add_thread walker regions crash_context this_thread fuel t c ≡ some c'
      → CoreBuilder c.builder
      → CoreBuilder c'.builder
  add_thread_step t c c' e core = elim (add_thread-builder t c c' e) [
    | inl same ↦ rw same core
    | inr (s, added) ↦
        rw added (
          add_thread-CoreBuilder (gpr_bytes walker.arch s) (exc_bytes walker.arch s) c.builder core)
  ]

  add_threads-CoreBuilder :
      (threads : List TaskThread) (c c' : Collected)
      → add_threads walker regions crash_context this_thread fuel threads c ≡ some c'
      → CoreBuilder c.builder
      → CoreBuilder c'.builder
  unfolding add_threads
  add_threads-CoreBuilder [] c c' e core = rw (← some_path c c' e) core
  add_threads-CoreBuilder (t ∷ threads) c c' e core =
      elim (Option-cases (add_thread walker regions crash_context this_thread fuel t c)) [
        | inl endless ↦ absurd (ground arith)
        | inr (c1, first) ↦
            add_threads-CoreBuilder threads c1 c' (rw (first, add_threads) at e)
              (add_thread_step t c c1 first core)
      ]

module _ (protection : ℕ → ℕ → Option ℕ) where
  add_range-CoreBuilder :
      (start size prot : ℕ) (b : Builder)
      → CoreBuilder b
      → CoreBuilder
          (add_segment_command start prot
            (some (record { size = size; data_ptr = process_memory start size }))
            b).0
  add_range-CoreBuilder start size prot b core = record {
    consistent = add_segment-Consistent start prot provider b core.consistent;
    open_still = rw opened core.open_still;
    no_notes = rw opened core.no_notes;
    from_memory = rw opened (
        FromMemory-append b.segment_cmds (new_segment start prot provider ∷ []) core.from_memory
          (refl, refl, tt));
  }
    where
      provider : Option DataProvider
      provider = some (record { size = size; data_ptr = process_memory start size })

      opened :
          (add_segment_command start prot provider b).0
          ≡ record b { segment_cmds = b.segment_cmds ++ new_segment start prot provider ∷ [] }
      opened = add_segment_open start prot provider b core.open_still

  add_ranges-CoreBuilder :
      (ranges : List (ℕ × ℕ)) (b : Builder)
      → CoreBuilder b
      → CoreBuilder (add_ranges protection ranges b)
  unfolding add_ranges add_segment_command_from_process_memory
  add_ranges-CoreBuilder [] b core = core
  add_ranges-CoreBuilder ((start, size) ∷ ranges) b core =
      elim (Option-cases (get_memory_protection protection start size)) [
        | inl unknown ↦
            rw (add_ranges, add_segment_command_from_process_memory, unknown)
              (add_ranges-CoreBuilder ranges b core)
        | inr (prot, known) ↦
            rw (add_ranges, add_segment_command_from_process_memory, known)
              (add_ranges-CoreBuilder ranges _ (add_range-CoreBuilder start size prot b core))
      ]

  -- Whatever AddThreadsToCore adds to a new builder: the commands have the right sizes, the load
  -- commands are not finalized, there is no note, and each segment is read from the memory at its
  -- address.
  pub add_threads_to_core-CoreBuilder :
      (walker : Walker) (regions : MemoryRegions) (crash_context : Option CrashContext)
      (this_thread fuel : ℕ) (threads : List TaskThread) (b : Builder) (modules : ModuleInfos)
      (c : Collected)
      → add_threads_to_core protection walker regions crash_context this_thread fuel
          (some threads)
          b
          modules
        ≡ some (c, true)
      → CoreBuilder b
      → CoreBuilder c.builder
  unfolding add_threads_to_core
  add_threads_to_core-CoreBuilder walker regions crash_context this_thread fuel threads b modules c
        e core =
      let start : Collected = record {
        builder = b;
        modules = modules;
        thread_ids = [];
        memory_ranges_to_add = [];
      } in
      elim (Option-cases
        (add_threads walker regions crash_context this_thread fuel threads start)) [
          | inl endless ↦ absurd (ground arith)
          | inr (c1, walked) ↦
              let added : add_ranges protection (for_each c1.memory_ranges_to_add) c1.builder
                  ≡ c.builder =
                ground arith in
              rw (← added) (
                add_ranges-CoreBuilder (for_each c1.memory_ranges_to_add) c1.builder (
                  add_threads-CoreBuilder walker regions crash_context this_thread fuel threads
                    start c1 walked core))
        ]

-- The memory of every segment can be read, as `content` has it.
abbrev pub Readable : Memory → (ℕ → ℕ) → List Segment → Type 0
Readable memory content [] = Unit {0}
Readable memory content ((sc, p) ∷ rest) =
    (sc.vmaddr + sc.filesize < u64_mod)
    × ((a n : ℕ)
        → sc.vmaddr ≤ a
        → a + n ≤ sc.vmaddr + sc.filesize
        → memory a n ≡ some (cells content a n))
    × Readable memory content rest

unfoldable pub Readable-SegmentsReady :
    (memory : Memory) (content : ℕ → ℕ) (lo : ℕ) (segments : List Segment)
    → FromMemory segments
    → Ordered lo segments
    → Readable memory content segments
    → SegmentsReady memory segments
Readable-SegmentsReady memory content lo [] f o r = tt
Readable-SegmentsReady memory content lo ((sc, none) ∷ rest) f o r = absurd f
Readable-SegmentsReady memory content lo ((sc, some p) ∷ rest) f o r = (
  (
    λ a. content (sc.vmaddr + a),
    rw f.0 ((process_memory-Reads memory sc.vmaddr sc.filesize content r.0 r.1).0),
  ),
  rw f.0 o.1,
  rw f.0,
  f.1,
  Readable-SegmentsReady memory content (sc.vmaddr + sc.filesize) rest f.2 o.2 r.2,
)
