-- ===== src/Suspension/Balance.antt =====
-- MacMiniDump.cpp: every thread that was suspended is resumed.
use mac_mini_dump.Prelude.{
  ℕ, ◌+◌, ◌-◌, ◌≤◌, ◌≡◌, refl, Bool, true, List, [], ◌∷◌, some, arith, ◌==◌, if◌then◌else◌,
}
use mac_mini_dump.Suspension.{
  Counts, set_count, thread_suspend, thread_resume, suspend_loop,
  suspend_all_threads_except_current_one, resume_threads,
}

abbrev pub occurrences : ℕ → List ℕ → ℕ
occurrences p [] = 0
occurrences p (q ∷ rest) = (if p == q then 1 else 0) + occurrences p rest

suspend_loop-count :
    (answers : ℕ → Bool) (this_thread : ℕ) (threads : List ℕ) (counts : Counts) (p : ℕ)
    → let (counts', suspended) = suspend_loop answers this_thread threads counts in
      counts' p ≡ counts p + occurrences p suspended
unfolding suspend_loop thread_suspend
suspend_loop-count answers this_thread [] counts p = omega arith
suspend_loop-count answers this_thread (q ∷ threads) counts p = ground (
  arith,
  suspend_loop-count answers this_thread threads counts p,
  suspend_loop-count answers this_thread threads (set_count q (counts q + 1) counts) p,
)

suspend_loop-this :
    (answers : ℕ → Bool) (this_thread : ℕ) (threads : List ℕ) (counts : Counts)
    → occurrences this_thread (suspend_loop answers this_thread threads counts).1 ≡ 0
unfolding suspend_loop thread_suspend
suspend_loop-this answers this_thread [] counts = refl
suspend_loop-this answers this_thread (q ∷ threads) counts = ground (
  arith,
  suspend_loop-this answers this_thread threads counts,
  suspend_loop-this answers this_thread threads (set_count q (counts q + 1) counts),
)

resume_threads-count :
    (answers : ℕ → Bool) (suspended : List ℕ) (counts : Counts) (p : ℕ)
    → answers p ≡ true
    → occurrences p suspended ≤ counts p
    → resume_threads answers suspended counts p + occurrences p suspended ≡ counts p
unfolding resume_threads thread_resume
resume_threads-count answers [] counts p a h = omega arith
resume_threads-count answers (q ∷ suspended) counts p a h = ground (
  arith,
  resume_threads-count answers suspended counts p a,
  resume_threads-count answers suspended (set_count q (counts q - 1) counts) p a,
)

-- Whatever threads the task has and whichever can be suspended: after ResumeThreads on the threads
-- that SuspendAllThreadsExceptCurrentOne gives, the suspend count of each thread that still answers
-- is what it was before; in between, each thread was suspended as often as it is among those given,
-- and the current thread never.
pub resume-suspend :
    (answers answers' : ℕ → Bool) (this_thread : ℕ) (threads : List ℕ) (counts : Counts)
    → (counts' : Counts) × (suspended : List ℕ) × (suspend_all_threads_except_current_one answers
          this_thread
          (some threads)
          counts
        ≡ (counts', some suspended))
      × ((p : ℕ) → counts' p ≡ counts p + occurrences p suspended)
      × (counts' this_thread ≡ counts this_thread)
      × ((p : ℕ) → answers' p ≡ true → resume_threads answers' suspended counts' p ≡ counts p)
unfolding suspend_all_threads_except_current_one
resume-suspend answers answers' this_thread threads counts =
    let (counts', suspended) = suspend_loop answers this_thread threads counts in
    (
      counts',
      suspended,
      refl,
      suspend_loop-count answers this_thread threads counts,
      omega (
        arith,
        suspend_loop-count answers this_thread threads counts this_thread,
        suspend_loop-this answers this_thread threads counts,
      ),
      λ p a. omega (
        arith,
        suspend_loop-count answers this_thread threads counts p,
        resume_threads-count answers' suspended counts' p a
            (omega (arith, suspend_loop-count answers this_thread threads counts p)),
      ),
    )
