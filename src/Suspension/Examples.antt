-- ===== src/Suspension/Examples.antt =====
-- SuspendAllThreadsExceptCurrentOne and ResumeThreads: each theorem at an input.
use mac_mini_dump.Prelude.{ℕ, ◌+◌, ◌≡◌, Bool, true, List, [], ◌∷◌, some, ◌==◌, not}
use mac_mini_dump.Suspension.{Counts, suspend_all_threads_except_current_one, resume_threads}
use mac_mini_dump.Suspension.Balance.{occurrences, resume-suspend}

-- Thread 5 runs the code, and thread 7 has ended.
abbrev answers : ℕ → Bool
answers p = not (p == 7)

abbrev no_suspends : Counts
no_suspends p = 0

resume-suspend_example :
    (counts' : Counts) × (suspended : List ℕ) × (suspend_all_threads_except_current_one answers 5
        (some (4 ∷ 5 ∷ 6 ∷ 7 ∷ []))
        no_suspends
      ≡ (counts', some suspended))
    × ((p : ℕ) → counts' p ≡ 0 + occurrences p suspended)
    × (counts' 5 ≡ 0)
    × ((p : ℕ) → answers p ≡ true → resume_threads answers suspended counts' p ≡ 0)
resume-suspend_example = resume-suspend answers answers 5 (4 ∷ 5 ∷ 6 ∷ 7 ∷ []) no_suspends
