-- ===== src/WriteDump/Resumed.antt =====
-- MiniDumpWriteDumpImpl (MacMiniDump.cpp): the task or its threads are resumed on every path.
use mac_mini_dump.Prelude.{
  ℕ, ◌+◌, ◌-◌, ◌≡◌, refl, true, List, Option, none, some, arith, inl, inr, Bool-cases,
}
use mac_mini_dump.DataAccess.{Memory}
use mac_mini_dump.Stream.{OStream}
use mac_mini_dump.Builder.{Builder}
use mac_mini_dump.Builder.Build.{Flow, crashes, stops, goes_on}
use mac_mini_dump.Suspension.{suspend_all_threads_except_current_one, resume_threads}
use mac_mini_dump.Suspension.Balance.{resume-suspend}
use mac_mini_dump.Dump.{CrashContext}
use mac_mini_dump.WriteDump.{
  System, Kernel, Run, ends_abruptly, result, dump_body, with_deferred, dump_suspended, dump_other,
  mini_dump_write_dump_impl,
}

-- The run returns with such a kernel, or it ends abruptly since the body does, from some stream.
abbrev pub AtEnd : {S : Type 0} → (S → Flow (Builder × S)) → Run S → (Kernel → Type 0) → Type 0
AtEnd {S} body ends_abruptly P = (s : S) × (body s ≡ crashes)
AtEnd body (result ok s k) P = P k

-- The suspend counts of the task, and of the threads that still answer, are what they were.
abbrev pub Restored : System → Kernel → Kernel → Type 0
Restored system k k' =
    (k'.task_count ≡ k.task_count)
    × ((p : ℕ) → system.answers_later p ≡ true → k'.thread_counts p ≡ k.thread_counts p)

module _ {S : Type 0} (stream : OStream S) (memory : Memory) (system : System) where
  deferred-AtEnd :
      (crash_context : Option CrashContext) (s : S) (flow : Flow (Builder × S)) (k k' : Kernel)
      → dump_body stream memory system crash_context s ≡ flow
      → Restored system k k'
      → AtEnd
          (dump_body stream memory system crash_context)
          (with_deferred stream memory system flow k')
          (Restored system k)
  deferred-AtEnd crash_context s crashes k k' e r = (s, e)
  deferred-AtEnd crash_context s (stops x) k k' e r = r
  deferred-AtEnd crash_context s (goes_on x) k k' e r = r

  abbrev self_run : Option CrashContext → S → Kernel → Option (List ℕ) → Run S
  self_run crash_context s k threads =
      let (counts, suspended) =
        suspend_all_threads_except_current_one system.answers system.this_thread threads
          k.thread_counts in
      dump_suspended stream memory system crash_context s k
        (record k { thread_counts = counts }, suspended)

  not_listed-AtEnd :
      (crash_context : Option CrashContext) (s : S) (k : Kernel)
      → AtEnd
          (dump_body stream memory system crash_context)
          (self_run crash_context s k none)
          (Restored system k)
  unfolding suspend_all_threads_except_current_one
  not_listed-AtEnd crash_context s k = (refl, λ p a. refl)

  listed-AtEnd :
      (crash_context : Option CrashContext) (s : S) (k : Kernel) (threads : List ℕ)
      → AtEnd
          (dump_body stream memory system crash_context)
          (self_run crash_context s k (some threads))
          (Restored system k)
  listed-AtEnd crash_context s k threads =
      let (counts', suspended, e, counted, this, back) =
        resume-suspend system.answers system.answers_later system.this_thread threads
          k.thread_counts in
      rw e (
        deferred-AtEnd crash_context s (dump_body stream memory system crash_context s) k
          (record k { thread_counts = resume_threads system.answers_later suspended counts' }) refl
          (refl, back))

  self-AtEnd :
      (crash_context : Option CrashContext) (s : S) (k : Kernel) (threads : Option (List ℕ))
      → AtEnd
          (dump_body stream memory system crash_context)
          (self_run crash_context s k threads)
          (Restored system k)
  self-AtEnd crash_context s k none = not_listed-AtEnd crash_context s k
  self-AtEnd crash_context s k (some threads) = listed-AtEnd crash_context s k threads

  other-AtEnd :
      (crash_context : Option CrashContext) (s : S) (k : Kernel)
      → AtEnd
          (dump_body stream memory system crash_context)
          (dump_other stream memory system crash_context s k)
          (Restored system k)
  unfolding dump_body
  other-AtEnd crash_context s k = elim (Bool-cases system.task_suspend) [
    | inl suspends ↦ rw suspends (
        deferred-AtEnd crash_context s (dump_body stream memory system crash_context s) k
          (record k { task_count = k.task_count + 1 - 1 }) refl (omega arith, λ p a. refl))
    | inr refused ↦ rw refused (refl, λ p a. refl)
  ]

  -- Whatever the calls of the system answer, and wherever the dump fails: unless the part between
  -- suspension and the deferred block ends abruptly, MiniDumpWriteDumpImpl returns, and then, with
  -- either result, the suspend count of the task and that of every thread that still answers are
  -- what they were before.
  pub write_dump-Restored :
      (crash_context : Option CrashContext) (s : S) (k : Kernel)
      → AtEnd
          (dump_body stream memory system crash_context)
          (mini_dump_write_dump_impl stream memory system crash_context s k)
          (Restored system k)
  unfolding mini_dump_write_dump_impl dump_body
  write_dump-Restored crash_context s k = elim (Bool-cases system.pid_for_task) [
    | inr unknown ↦ rw (mini_dump_write_dump_impl, unknown) (refl, λ p a. refl)
    | inl known ↦ elim (Bool-cases (stream.set_size 0 s).1) [
      | inr kept ↦ rw (mini_dump_write_dump_impl, known, kept) (refl, λ p a. refl)
      | inl emptied ↦ elim (Bool-cases system.self_dump) [
        | inl own ↦
            rw (mini_dump_write_dump_impl, known, emptied, own)
              (self-AtEnd crash_context (stream.set_size 0 s).0 k system.threads)
        | inr foreign ↦
            rw (mini_dump_write_dump_impl, known, emptied, foreign)
              (other-AtEnd crash_context (stream.set_size 0 s).0 k)
      ]
    ]
  ]
