-- ===== src/Dump.antt =====
-- Sources/macMiniDump/Private/MacMiniDump.cpp: AddThreadsToCore and AddNotesToCore, over the
-- builder, the list of modules and the intervals of memory. Parameters: what the kernel says of
-- each thread (`thread_info` and `thread_get_state`), its memory, and `mach_vm_region_recurse`. The
-- stack walk runs on fuel, so `none` is that it ran out.
pub mod Ranges
pub mod Growth
pub mod Threads
pub mod Notes
pub mod CoreBuilder
mod Examples
use mac_mini_dump.Prelude.{
  ℕ, zero, suc, ◌+◌, ◌-◌, ◌%◌, Bool, true, false, ◌&&◌, ◌||◌, not, List, [], ◌∷◌, ◌++◌, Option,
  none, some, ltb, leb, ◌==◌, if◌then◌else◌,
}
use mac_mini_dump.Prelude.Words.{uint64_max, add64, sub64}
use mac_mini_dump.DataAccess.{process_memory}
use mac_mini_dump.Intervals.{Interval, insert_and_merge_if_needed, for_each}
use mac_mini_dump.Regions.{MemoryRegionInfo, MemoryRegions, get_region_info_for_address}
use mac_mini_dump.Builder.{Arch, Builder, add_note_command, add_thread_command, add_segment_command}
use mac_mini_dump.Modules.{ModuleInfos, mark_as_executing}
use mac_mini_dump.StackWalk.{Walker, Registers, walk_stack}
use mac_mini_dump.ThreadStates.{set_bytes, make_gpr, make_exc, registers_of}

-- The states of a thread, as `thread_get_state` gives them.
pub record ThreadState : Type 0 where
  pub ts : List ℕ
  pub es : List ℕ

-- The GPR and EXC structures that are made of them, as they stand in memory, and the registers that
-- are read.
abbrev pub gpr_bytes : Arch → ThreadState → List ℕ
gpr_bytes arch s = set_bytes (make_gpr arch s.ts)

abbrev pub exc_bytes : Arch → ThreadState → List ℕ
exc_bytes arch s = set_bytes (make_exc arch s.es)

abbrev pub registers : Arch → ThreadState → Registers
registers arch s = registers_of arch (make_gpr arch s.ts) (make_exc arch s.es)

-- A thread of `task_threads`: `state` is `none` when a call of `thread_get_state` fails, and `tid`
-- is 0 when `thread_info` does.
pub record TaskThread : Type 0 where
  pub port : ℕ
  pub tid : ℕ
  pub state : Option ThreadState

pub record CrashContext : Type 0 where
  pub crashed_tid : ℕ
  pub state : ThreadState

-- What the loop over the threads changes.
pub record Collected : Type 0 where
  pub builder : Builder
  pub modules : ModuleInfos
  pub thread_ids : List ℕ
  pub memory_ranges_to_add : List Interval

abbrev pub surroundings_range : ℕ
surroundings_range = 256

abbrev pub add_surroundings : ℕ → List Interval → List Interval
add_surroundings ip ranges =
    if leb surroundings_range ip && leb ip (uint64_max - surroundings_range)
    then insert_and_merge_if_needed (ip - surroundings_range) 513 ranges
    else ranges

-- The loop over a call stack.
unfoldable pub add_call_stack : List ℕ → Collected → Collected
add_call_stack [] c = c
add_call_stack (ip ∷ call_stack) c = add_call_stack call_stack (record c {
  memory_ranges_to_add = add_surroundings ip c.memory_ranges_to_add;
  modules = (mark_as_executing ip c.modules).0;
})

-- From the crash context for the crashing thread; `none` is `continue`.
unfoldable pub state_of : Option CrashContext → TaskThread → Option ThreadState
state_of none t = t.state
state_of (some crash) t = if t.tid == crash.crashed_tid then some crash.state else t.state

abbrev pub is_given : Option CrashContext → Bool
is_given none = false
is_given (some crash) = true

-- The memory of the stack from the stack pointer to the end of its region, unless the thread is the
-- current one and there is no crash context.
abbrev pub add_stack : ℕ → MemoryRegionInfo → Bool → List Interval → List Interval
add_stack sp region_info wanted ranges =
    let stack_start = add64 region_info.vmaddr region_info.vmsize in
    let length_in_bytes = sub64 stack_start sp in
    if wanted
    then insert_and_merge_if_needed (sub64 stack_start length_in_bytes) length_in_bytes ranges
    else ranges

module _ (walker : Walker) (regions : MemoryRegions) (crash_context : Option CrashContext)
    (this_thread : ℕ) where
  abbrev pub stack_wanted : TaskThread → Bool
  stack_wanted t = not (t.port == this_thread) || is_given crash_context

  abbrev pub stack_added : TaskThread → Registers → Collected → Collected
  stack_added t r c = elim (get_region_info_for_address regions r.stack_pointer) [
    | none ↦ c
    | some region_info ↦ record c {
      memory_ranges_to_add =
          add_stack r.stack_pointer region_info (stack_wanted t) c.memory_ranges_to_add;
    }
  ]

  abbrev pub with_thread : TaskThread → ThreadState → Collected → Collected
  with_thread t s c = record c {
    builder = (add_thread_command (gpr_bytes walker.arch s) (exc_bytes walker.arch s) c.builder).0;
    thread_ids = c.thread_ids ++ t.tid ∷ [];
  }

  -- One round of the loop over the threads.
  unfoldable pub add_thread : ℕ → TaskThread → Collected → Option Collected
  add_thread fuel t c = elim (state_of crash_context t) [
    | none ↦ some c
    | some s ↦ elim (walk_stack walker fuel regions (registers walker.arch s)) [
      | none ↦ none
      | some call_stack ↦
          some (
            stack_added t (registers walker.arch s) (add_call_stack call_stack (with_thread t s c)))
    ]
  ]

  unfoldable pub add_threads : ℕ → List TaskThread → Collected → Option Collected
  add_threads fuel [] c = some c
  add_threads fuel (t ∷ threads) c = elim (add_thread fuel t c) [
    | none ↦ none
    | some c' ↦ add_threads fuel threads c'
  ]

module _ (vm_region_protection : ℕ → ℕ → Option ℕ) where
  -- The protection is stored in a uint8_t.
  unfoldable pub get_memory_protection : ℕ → ℕ → Option ℕ
  get_memory_protection addr size = elim (vm_region_protection addr size) [
    | none ↦ none
    | some protection ↦ some (protection % 256)
  ]

  unfoldable pub add_segment_command_from_process_memory : ℕ → ℕ → Builder → Builder × Bool
  add_segment_command_from_process_memory start_address length_in_bytes b =
      elim (get_memory_protection start_address length_in_bytes) [
        | none ↦ (b, false)
        | some prot ↦
            add_segment_command start_address prot
              (some (record {
                size = length_in_bytes;
                data_ptr = process_memory start_address length_in_bytes;
              }))
              b
      ]

  -- The function that AddThreadsToCore passes to `ForEach`, over its calls.
  unfoldable pub add_ranges : List (ℕ × ℕ) → Builder → Builder
  add_ranges [] b = b
  add_ranges ((start, length) ∷ rest) b =
      add_ranges rest (add_segment_command_from_process_memory start length b).0

  -- AddThreadsToCore, given the result of `task_threads`: the builder, the modules and the ids with
  -- the result, or `none` where a stack walk ran out of fuel.
  unfoldable pub add_threads_to_core :
      Walker
      → MemoryRegions
      → Option CrashContext
      → ℕ
      → ℕ
      → Option (List TaskThread)
      → Builder
      → ModuleInfos
      → Option (Collected × Bool)
  add_threads_to_core walker regions crash_context this_thread fuel task_threads b modules =
      let start : Collected = record {
        builder = b;
        modules = modules;
        thread_ids = [];
        memory_ranges_to_add = [];
      } in
      elim task_threads [
        | none ↦ some (start, false)
        | some threads ↦
            elim (add_threads walker regions crash_context this_thread fuel threads start) [
              | none ↦ none
              | some c ↦ some (
                record c { builder = add_ranges (for_each c.memory_ranges_to_add) c.builder },
                true,
              )
            ]
      ]

-- "addrable bits", "all image infos", "main bin spec", "process metadata"
abbrev pub addrable_bits_owner : List ℕ
addrable_bits_owner = 97 ∷ 100 ∷ 100 ∷ 114 ∷ 97 ∷ 98 ∷ 108 ∷ 101 ∷ 32 ∷ 98 ∷ 105 ∷ 116 ∷ 115 ∷ []

abbrev pub all_image_infos_owner : List ℕ
all_image_infos_owner =
    97 ∷ 108 ∷ 108 ∷ 32 ∷ 105 ∷ 109 ∷ 97 ∷ 103 ∷ 101 ∷ 32 ∷ 105 ∷ 110 ∷ 102 ∷ 111 ∷ 115 ∷ []

abbrev pub main_bin_spec_owner : List ℕ
main_bin_spec_owner = 109 ∷ 97 ∷ 105 ∷ 110 ∷ 32 ∷ 98 ∷ 105 ∷ 110 ∷ 32 ∷ 115 ∷ 112 ∷ 101 ∷ 99 ∷ []

abbrev pub process_metadata_owner : List ℕ
process_metadata_owner =
    112 ∷ 114 ∷ 111 ∷ 99 ∷ 101 ∷ 115 ∷ 115 ∷ 32 ∷ 109 ∷ 101 ∷ 116 ∷ 97 ∷ 100 ∷ 97 ∷ 116 ∷ 97 ∷ []

unfoldable pub add_notes_to_core : Builder → Builder × Bool
add_notes_to_core b =
    let b1 = (add_note_command addrable_bits_owner none b).0 in
    let b2 = (add_note_command all_image_infos_owner none b1).0 in
    let b3 = (add_note_command main_bin_spec_owner none b2).0 in
    let b4 = (add_note_command process_metadata_owner none b3).0 in (b4, true)
