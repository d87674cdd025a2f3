-- ===== src/StackWalk/Examples.antt =====
-- WalkStack: each theorem at an input.
use mac_mini_dump.Prelude.{false, ◌≡◌, refl, ap, [], ◌∷◌, none, some, arith, ◌==◌, if◌then◌else◌}
use mac_mini_dump.Bytes.{le_bytes, from_le}
use mac_mini_dump.Outcome.{returns}
use mac_mini_dump.DataAccess.{Memory, read_process_memory_into}
use mac_mini_dump.Builder.{x86_64}
use mac_mini_dump.StackWalk.{
  Walker, Registers, unknown, deref_ptr, top_pc_no_stack_frame, walk_stack,
}
use mac_mini_dump.StackWalk.Chain.{Chain, last_frame, frame, walk-Chain, walk-Endless}

-- Two frames, at 100 and at 200; the second is the last.
abbrev two_frames : Memory
two_frames address size =
    if address == 100
    then some (le_bytes 8 200)
    else if address == 108
    then some (le_bytes 8 7000)
    else none

abbrev walker : Memory → Walker
walker memory = record {
  arch = x86_64;
  memory = memory;
  xpaci = λ ip. ip;
  lookup_stack_frame_for_pc = λ pc. returns unknown;
}

abbrev registers : Registers
registers = record {
  base_pointer = 100;
  instruction_pointer = 5000;
  stack_pointer = 90;
  lr = 0;
  esr = 0;
}

two_frames-Chain : Chain (walker two_frames) 100 (deref_ptr two_frames 108 ∷ [])
unfolding deref_ptr read_process_memory_into le_bytes from_le
two_frames-Chain = frame 200 refl (omega arith) (last_frame refl)

walk-Chain_example : walk_stack (walker two_frames) 5 [] registers ≡ some (5000 ∷ 7000 ∷ [])
unfolding deref_ptr read_process_memory_into le_bytes from_le top_pc_no_stack_frame
walk-Chain_example =
    walk-Chain (walker two_frames) 5 [] registers (deref_ptr two_frames 108 ∷ []) false refl
      two_frames-Chain (omega arith)

-- A frame that points to itself.
abbrev self_frame : Memory
self_frame address size = some (le_bytes 8 100)

self_frame-at : deref_ptr self_frame 100 ≡ 100
unfolding deref_ptr read_process_memory_into le_bytes from_le
self_frame-at = refl

walk-Endless_example : walk_stack (walker self_frame) 1000 [] registers ≡ none
walk-Endless_example =
    walk-Endless (walker self_frame) (λ bp. bp ≡ 100) 1000 [] registers
      (λ bp e. (
        omega (arith, ap (deref_ptr self_frame) e, self_frame-at),
        omega (arith, ap (deref_ptr self_frame) e, self_frame-at),
      ))
      (omega arith) refl
