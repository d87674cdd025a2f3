-- ===== src/ThreadStates/Examples.antt =====
-- The states of a thread and ThreadInfo: each theorem at an input.
use mac_mini_dump.Prelude.{
  ℕ, ◌≡◌, refl, true, false, none, some, List, [], ◌∷◌, ◌++◌, replicate, length,
}
use mac_mini_dump.Builder.{arm64, x86_64, ThreadCommand, new_builder, add_thread_command}
use mac_mini_dump.Suspension.{Counts}
use mac_mini_dump.ThreadStates.{
  gpr_size, exc_size, gpr_kind, exc_kind, set_bytes, make_gpr, make_exc,
}
use mac_mini_dump.ThreadStates.Info.{StateCalls, inspected, thread_info-counts}
use mac_mini_dump.ThreadStates.Command.{read_thread_command, thread_command-states}

abbrev ts : List ℕ
ts = replicate 264 5 ++ replicate 8 0

abbrev es : List ℕ
es = replicate 16 1

thread_command-states_example :
    (tc : ThreadCommand) × ((add_thread_command
        (set_bytes (make_gpr arm64 ts))
        (set_bytes (make_exc arm64 es))
        (new_builder arm64)).0.thread_cmds
      ≡ (new_builder arm64).thread_cmds ++ tc ∷ [])
    × (length tc.bytes ≡ tc.cmdsize)
    × (read_thread_command tc.bytes ≡ some ((gpr_kind arm64, ts) ∷ (exc_kind arm64, es) ∷ []))
unfolding gpr_size exc_size
thread_command-states_example = thread_command-states arm64 ts es (new_builder arm64) refl refl

-- A thread that another has suspended once; it cannot be suspended again, yet it can be resumed.
abbrev calls : StateCalls
calls = record { get_gpr = λ t. some (replicate 168 0); get_exc = λ t. none }

abbrev counts : Counts
counts = λ t. 1

thread_info-counts_example : inspected x86_64 calls (λ t. false) (λ t. true) 7 true counts 7 ≡ 0
thread_info-counts_example =
    thread_info-counts x86_64 calls (λ t. false) (λ t. true) 7 7 true counts
