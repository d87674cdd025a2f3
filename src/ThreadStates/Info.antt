-- ===== src/ThreadStates/Info.antt =====
-- ThreadInfo (MachOCoreInternal.cpp): the constructor and the destructor.
use mac_mini_dump.Prelude.{
  ℕ, ◌+◌, ◌-◌, ◌≡◌, refl, ap, Bool, true, false, List, Option, none, some, arith, inl, inr,
  Bool-cases, if◌then◌else◌, ◌==◌,
}
use mac_mini_dump.Builder.{Arch}
use mac_mini_dump.Suspension.{Counts, thread_suspend, thread_resume}
use mac_mini_dump.ThreadStates.{RegisterSet, make_gpr, make_exc}

-- `states` are the two register sets of a healthy object, whose `healthy` is true.
pub record ThreadInfo : Type 0 where
  pub suspend_while_inspecting : Bool
  pub thread : ℕ
  pub states : Option (RegisterSet × RegisterSet)

-- `thread_get_state`, with the flavors of the general registers and of the exception state.
pub record StateCalls : Type 0 where
  pub get_gpr : ℕ → Option (List ℕ)
  pub get_exc : ℕ → Option (List ℕ)

unfoldable pub read_states : Arch → StateCalls → ℕ → Option (RegisterSet × RegisterSet)
read_states arch calls thread = elim (calls.get_gpr thread) [
  | none ↦ none
  | some ts ↦ elim (calls.get_exc thread) [
    | none ↦ none
    | some es ↦ some (make_gpr arch ts, make_exc arch es)
  ]
]

-- `answers` says which threads can be suspended, as for SuspendAllThreadsExceptCurrentOne.
unfoldable pub new_thread_info :
    Arch → StateCalls → (ℕ → Bool) → ℕ → Bool → Counts → Counts × ThreadInfo
new_thread_info arch calls answers thread suspend_while_inspecting counts =
    let (counts', suspended) = thread_suspend answers thread counts in
    let without : ThreadInfo = record {
      suspend_while_inspecting = suspend_while_inspecting;
      thread = thread;
      states = none;
    } in
    let inspected = record without { states = read_states arch calls thread } in
    if suspend_while_inspecting
    then (if suspended then (counts', inspected) else (counts', without))
    else (counts, inspected)

unfoldable pub destroy_thread_info : (ℕ → Bool) → ThreadInfo → Counts → Counts
destroy_thread_info answers info counts =
    if info.suspend_while_inspecting then (thread_resume answers info.thread counts).0 else counts

abbrev pub inspected :
    Arch → StateCalls → (suspending resuming : ℕ → Bool) → ℕ → Bool → Counts → Counts
inspected arch calls suspending resuming thread suspend_while_inspecting counts =
    let (counts', info) =
      new_thread_info arch calls suspending thread suspend_while_inspecting counts in
    destroy_thread_info resuming info counts'

count_at : (p thread : ℕ) (counts : Counts) → (p == thread) ≡ true → counts p ≡ counts thread
count_at p thread counts e = ap counts (ground arith)

-- A ThreadInfo that does not suspend, or whose thread can be suspended and then resumed, or neither,
-- leaves every suspend count as it was. One that can only be suspended leaves one suspension behind.
-- And when the suspension has failed and the thread can be resumed, because another has suspended
-- it, the destructor takes one from the count, although it is not its own.
pub thread_info-counts :
    (arch : Arch) (calls : StateCalls) (suspending resuming : ℕ → Bool) (thread p : ℕ)
    (wanted : Bool) (counts : Counts)
    → inspected arch calls suspending resuming thread wanted counts p ≡ (
        if wanted
        then (if suspending thread
            then (if resuming thread
                then counts p
                else (if p == thread then counts p + 1 else counts p))
            else (if resuming thread
                then (if p == thread then counts p - 1 else counts p)
                else counts p))
        else counts p)
unfolding new_thread_info destroy_thread_info thread_suspend thread_resume
thread_info-counts arch calls suspending resuming thread p false counts = refl
thread_info-counts arch calls suspending resuming thread p true counts =
    elim (Bool-cases (suspending thread)) [
      | inl s ↦ elim (Bool-cases (resuming thread)) [
        | inl r ↦ ground (arith, s, r, count_at p thread counts)
        | inr r ↦ ground (arith, s, r, count_at p thread counts)
      ]
      | inr s ↦ elim (Bool-cases (resuming thread)) [
        | inl r ↦ ground (arith, s, r, count_at p thread counts)
        | inr r ↦ ground (arith, s, r, count_at p thread counts)
      ]
    ]
