-- ===== src/PortRefs/Calls.antt =====
-- MachPortSendRightRef.cpp: sequences of calls on references, and the rights that they are handed.
use mac_mini_dump.Prelude.{
  ℕ, ◌+◌, List, [], ◌∷◌, ◌++◌, none, some, ◌==◌, ◌&&◌, if◌then◌else◌, get_elem?,
}
use mac_mini_dump.PortRefs.{
  MachPortSendRightRef, Right, Store, wrap, reset, release, move_construct, move_assign, destroy,
}

-- The calls of a program on its references.
pub data Call : Type 0 where
  wraps : (port owning_task : ℕ) → Call
  resets : (i port owning_task : ℕ) → Call
  releases : (i : ℕ) → Call
  constructs : (i : ℕ) → Call
  assigns : (i j : ℕ) → Call
  destroys : (i : ℕ) → Call

-- The store, and the rights that were given up to the callers.
abbrev pub State : Type 0
State = Store × List Right

abbrev pub owner_at : ℕ → List MachPortSendRightRef → ℕ
owner_at i refs = elim (get_elem? refs i) [ none ↦ 0 | some r ↦ r.owning_task ]

unfoldable pub step : Call → State → State
step (wraps port owning_task) (s, given) = (wrap port owning_task s, given)
step (resets i port owning_task) (s, given) = (reset i port owning_task s, given)
step (releases i) (s, given) =
    let (s', port) = release i s in (s', (port, owner_at i s.refs) ∷ given)
step (constructs i) (s, given) = (move_construct i s, given)
step (assigns i j) (s, given) = (move_assign i j s, given)
step (destroys i) (s, given) = (destroy i s, given)

unfoldable pub run : List Call → State → State
run [] s = s
run (call ∷ calls) s = run calls (step call s)

abbrev pub is_right : ℕ → ℕ → Right → ℕ
is_right port task r = if r.0 == port && r.1 == task then 1 else 0

abbrev pub count : ℕ → ℕ → List Right → ℕ
count port task [] = 0
count port task (r ∷ rest) = is_right port task r + count port task rest

abbrev pub held : ℕ → ℕ → List MachPortSendRightRef → ℕ
held port task [] = 0
held port task (r ∷ refs) = is_right port task (r.port, r.owning_task) + held port task refs

-- The rights that the calls hand to the references: a Reset of an object that is not there takes
-- none.
abbrev pub taken_by : Call → State → List Right
taken_by (wraps port owning_task) s = (port, owning_task) ∷ []
taken_by (resets i port owning_task) s = elim (get_elem? s.0.refs i) [
  | none ↦ []
  | some r ↦ (port, owning_task) ∷ []
]
taken_by (releases i) s = []
taken_by (constructs i) s = []
taken_by (assigns i j) s = []
taken_by (destroys i) s = []

unfoldable pub taken : List Call → State → List Right
taken [] s = []
taken (call ∷ calls) s = taken_by call s ++ taken calls (step call s)
