-- ===== src/Suspension.antt =====
-- Sources/macMiniDump/Private/MacMiniDump.cpp: SuspendAllThreadsExceptCurrentOne and ResumeThreads.
-- The state is the suspend count that the kernel keeps for each thread port. `answers` says for
-- which ports a call on the thread succeeds: threads end between the calls. The references to the
-- ports are the ports themselves.
pub mod Balance
mod Examples
use mac_mini_dump.Prelude.{
  ℕ, ◌+◌, ◌-◌, Bool, true, false, List, [], ◌∷◌, Option, none, some, ◌==◌, if◌then◌else◌,
}

abbrev pub Counts : Type 0
Counts = ℕ → ℕ

abbrev pub set_count : ℕ → ℕ → Counts → Counts
set_count port n counts p = if p == port then n else counts p

unfoldable pub thread_suspend : (ℕ → Bool) → ℕ → Counts → Counts × Bool
thread_suspend answers port counts =
    if answers port then (set_count port (counts port + 1) counts, true) else (counts, false)

-- A thread that is not suspended cannot be resumed.
unfoldable pub thread_resume : (ℕ → Bool) → ℕ → Counts → Counts × Bool
thread_resume answers port counts =
    if answers port
    then (if counts port == 0
        then (counts, false)
        else (set_count port (counts port - 1) counts, true))
    else (counts, false)

-- The loop over the threads, with the references that it moves to `suspendedThreads`.
unfoldable pub suspend_loop : (ℕ → Bool) → ℕ → List ℕ → Counts → Counts × List ℕ
suspend_loop answers this_thread [] counts = (counts, [])
suspend_loop answers this_thread (port ∷ rest) counts =
    let (counts', succeeds) = thread_suspend answers port counts in
    let skipped = suspend_loop answers this_thread rest counts in
    let further = suspend_loop answers this_thread rest counts' in
    if port == this_thread
    then skipped
    else if succeeds
    then (further.0, port ∷ further.1)
    else further

-- `none` is `false`: `task_threads` failed, and nothing was suspended.
unfoldable pub suspend_all_threads_except_current_one :
    (ℕ → Bool) → ℕ → Option (List ℕ) → Counts → Counts × Option (List ℕ)
suspend_all_threads_except_current_one answers this_thread none counts = (counts, none)
suspend_all_threads_except_current_one answers this_thread (some threads) counts =
    let (counts', suspended) = suspend_loop answers this_thread threads counts in
    (counts', some suspended)

unfoldable pub resume_threads : (ℕ → Bool) → List ℕ → Counts → Counts
resume_threads answers [] counts = counts
resume_threads answers (port ∷ rest) counts =
    resume_threads answers rest (thread_resume answers port counts).0
