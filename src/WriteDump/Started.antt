-- ===== src/WriteDump/Started.antt =====
-- MiniDumpWriteDumpImpl (MacMiniDump.cpp): from the call to the part between suspension and the
-- deferred block.
use mac_mini_dump.Prelude.{
  ℕ, ◌+◌, ◌-◌, ◌≡◌, ◌∙◌, ap, true, false, List, Option, some, if◌then◌else◌,
}
use mac_mini_dump.DataAccess.{Memory}
use mac_mini_dump.Stream.{OStream}
use mac_mini_dump.Suspension.{suspend_all_threads_except_current_one}
use mac_mini_dump.Dump.{CrashContext}
use mac_mini_dump.WriteDump.{
  System, Kernel, result, dump_body, with_deferred, dump_suspended, dump_self, dump_other,
  mini_dump_write_dump_impl,
}

module _ {S : Type 0} (stream : OStream S) (memory : Memory) (system : System)
    (crash_context : Option CrashContext) (s : S) (k : Kernel)
    (emptied : (stream.set_size 0 s).1 ≡ true) where
  abbrev pub truncated : S
  truncated = (stream.set_size 0 s).0

  started :
      system.pid_for_task ≡ true
      → mini_dump_write_dump_impl stream memory system crash_context s k ≡ (
          if system.self_dump
          then dump_self stream memory system crash_context truncated k
          else dump_other stream memory system crash_context truncated k)
  unfolding mini_dump_write_dump_impl
  started known =
      ap
        (λ q.
          if q
          then (if (stream.set_size 0 s).1
              then (if system.self_dump
                  then dump_self stream memory system crash_context truncated k
                  else dump_other stream memory system crash_context truncated k)
              else result false truncated k)
          else result false s k)
        known
      ∙ ap
          (λ q.
            if q
            then (if system.self_dump
                then dump_self stream memory system crash_context truncated k
                else dump_other stream memory system crash_context truncated k)
            else result false truncated k)
          emptied

  pub foreign_run :
      system.pid_for_task ≡ true
      → system.self_dump ≡ false
      → system.task_suspend ≡ true
      → mini_dump_write_dump_impl stream memory system crash_context s k
        ≡ with_deferred stream memory system
            (dump_body stream memory system crash_context truncated)
            (record k { task_count = k.task_count + 1 - 1 })
  foreign_run known foreign suspends =
      started known
      ∙ ap
          (λ q.
            if q
            then dump_self stream memory system crash_context truncated k
            else dump_other stream memory system crash_context truncated k)
          foreign
      ∙ ap
          (λ q.
            if q
            then with_deferred stream memory system
                (dump_body stream memory system crash_context truncated)
                (record k { task_count = k.task_count + 1 - 1 })
            else result false truncated k)
          suspends

  abbrev pub own_start : Option (List ℕ) → Kernel × Option (List ℕ)
  own_start ports =
      let (counts, suspended) =
        suspend_all_threads_except_current_one system.answers system.this_thread ports
          k.thread_counts in
      (record k { thread_counts = counts }, suspended)

  pub own_run :
      (ports : List ℕ)
      → system.pid_for_task ≡ true
      → system.self_dump ≡ true
      → system.threads ≡ some ports
      → mini_dump_write_dump_impl stream memory system crash_context s k
        ≡ dump_suspended stream memory system crash_context truncated k (own_start (some ports))
  own_run ports known own listed =
      started known
      ∙ ap
          (λ q.
            if q
            then dump_self stream memory system crash_context truncated k
            else dump_other stream memory system crash_context truncated k)
          own
      ∙ ap (λ q. dump_suspended stream memory system crash_context truncated k (own_start q)) listed
