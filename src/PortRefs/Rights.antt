-- ===== src/PortRefs/Rights.antt =====
-- MachPortSendRightRef.cpp: no right is lost, and none is deallocated twice.
use mac_mini_dump.Prelude.{
  ℕ, zero, suc, ◌+◌, ◌<◌, ◌≡◌, ◌≢◌, refl, ap, ◌∙◌, List, [], ◌∷◌, ◌++◌, none, some, arith, inl, inr,
  Bool-cases, Option-cases, ◌==◌, get_elem?,
}
use mac_mini_dump.PortRefs.{
  mach_port_null, MachPortSendRightRef, Right, Store, set_ref, remove_ref, emptied, wrap,
  drop_right, reset, release, move_construct, move_assign, destroy,
}
use mac_mini_dump.PortRefs.Calls.{
  Call, State, owner_at, step, run, is_right, count, held, taken_by, taken, wraps, resets, releases,
  constructs, assigns, destroys,
}

module _ (port task : ℕ) (real : 0 < port) where
  abbrev total : State → ℕ
  total (s, given) = held port task s.refs + (count port task s.deallocated + count port task given)

  count-append :
      (xs ys : List Right) → count port task (xs ++ ys) ≡ count port task xs + count port task ys
  count-append [] ys = omega arith
  count-append (x ∷ xs) ys = omega (arith, count-append xs ys)

  held_last :
      (refs : List MachPortSendRightRef) (r : MachPortSendRightRef)
      → held port task (refs ++ r ∷ [])
        ≡ held port task refs + is_right port task (r.port, r.owning_task)
  held_last [] r = omega arith
  held_last (x ∷ refs) r = omega (arith, held_last refs r)

  held-set :
      (i : ℕ) (refs : List MachPortSendRightRef) (old new : MachPortSendRightRef)
      → get_elem? refs i ≡ some old
      → held port task (set_ref i new refs) + is_right port task (old.port, old.owning_task)
        ≡ held port task refs + is_right port task (new.port, new.owning_task)
  held-set i [] old new e = absurd (cc)
  held-set zero (x ∷ refs) old new e = omega (
    arith,
    ap {B = ℕ} (λ o. elim o [ none ↦ 0 | some r ↦ is_right port task (r.port, r.owning_task) ]) e,
  )
  held-set (suc i) (x ∷ refs) old new e = omega (arith, held-set i refs old new e)

  nothing_held : (task' : ℕ) → is_right port task (mach_port_null, task') ≡ 0
  nothing_held task' = ground arith

  drop-count :
      (r : MachPortSendRightRef) (deallocated : List Right)
      → count port task (drop_right r deallocated)
        ≡ is_right port task (r.port, r.owning_task) + count port task deallocated
  unfolding drop_right
  drop-count r deallocated = ground arith

  held-remove :
      (i : ℕ) (refs : List MachPortSendRightRef) (old : MachPortSendRightRef)
      → get_elem? refs i ≡ some old
      → held port task (remove_ref i refs) + is_right port task (old.port, old.owning_task)
        ≡ held port task refs
  held-remove i [] old e = absurd (cc)
  held-remove zero (x ∷ refs) old e = omega (
    arith,
    ap {B = ℕ} (λ o. elim o [ none ↦ 0 | some r ↦ is_right port task (r.port, r.owning_task) ]) e,
  )
  held-remove (suc i) (x ∷ refs) old e = omega (arith, held-remove i refs old e)

  get_elem?-set_ref :
      (i : ℕ) (refs : List MachPortSendRightRef) (old new : MachPortSendRightRef)
      → get_elem? refs i ≡ some old
      → get_elem? (set_ref i new refs) i ≡ some new
  get_elem?-set_ref i [] old new e = absurd (cc)
  get_elem?-set_ref zero (x ∷ refs) old new e = refl
  get_elem?-set_ref (suc i) (x ∷ refs) old new e = get_elem?-set_ref i refs old new e

  remove_none :
      (i : ℕ) (refs : List MachPortSendRightRef)
      → get_elem? refs i ≡ none
      → remove_ref i refs ≡ refs
  remove_none i [] e = refl
  remove_none zero (x ∷ refs) e = absurd (cc)
  remove_none (suc i) (x ∷ refs) e = ap (◌∷◌ x) (remove_none i refs e)

  reset-total :
      (i new_port new_task : ℕ) (s : Store) (given : List Right)
      → total (reset i new_port new_task s, given)
        ≡ count port task (taken_by (resets i new_port new_task) (s, given)) + total (s, given)
  unfolding reset
  reset-total i new_port new_task s given = elim (Option-cases (get_elem? s.refs i)) [
    | inl missing ↦ rw (missing, reset, taken_by) (omega arith)
    | inr (r, there) ↦
        rw (there, reset, taken_by)
          (omega (
            arith,
            held-set i s.refs r (record { port = new_port; owning_task = new_task }) there,
            drop-count r s.deallocated,
          ))
  ]

  release-total :
      (i : ℕ) (s : Store) (given : List Right)
      → total (step (releases i) (s, given)) ≡ total (s, given)
  unfolding step release
  release-total i s given = elim (Option-cases (get_elem? s.refs i)) [
    | inl missing ↦ rw (missing, step, release) (omega (arith, nothing_held (owner_at i s.refs)))
    | inr (r, there) ↦
        rw (there, step, release, owner_at)
          (omega (arith, held-set i s.refs r (emptied r) there, nothing_held r.owning_task))
  ]

  construct-total :
      (i : ℕ) (s : Store) (given : List Right)
      → total (move_construct i s, given) ≡ total (s, given)
  unfolding move_construct
  construct-total i s given = elim (Option-cases (get_elem? s.refs i)) [
    | inl missing ↦ rw (missing, move_construct)
    | inr (r, there) ↦
        rw (there, move_construct)
          (omega (
            arith,
            held-set i s.refs r (emptied r) there,
            nothing_held r.owning_task,
            held_last (set_ref i (emptied r) s.refs) r,
          ))
  ]

  get_elem?-set_other :
      (i j : ℕ) (refs : List MachPortSendRightRef) (new : MachPortSendRightRef)
      → i ≢ j
      → get_elem? (set_ref j new refs) i ≡ get_elem? refs i
  get_elem?-set_other i j [] new d = refl
  get_elem?-set_other zero zero (x ∷ refs) new d = absurd (d refl)
  get_elem?-set_other zero (suc j) (x ∷ refs) new d = refl
  get_elem?-set_other (suc i) zero (x ∷ refs) new d = refl
  get_elem?-set_other (suc i) (suc j) (x ∷ refs) new d =
      get_elem?-set_other i j refs new (λ e. d (ap suc e))

  assign-total :
      (i j : ℕ) (s : Store) (given : List Right)
      → total (move_assign i j s, given) ≡ total (s, given)
  unfolding move_assign
  assign-total i j s given = elim (Bool-cases (i == j)) [
    | inl same ↦ rw (move_assign, same)
    | inr differ ↦ elim (Option-cases (get_elem? s.refs j)) [
      | inl no_other ↦ rw (move_assign, differ, no_other)
      | inr (r, there) ↦ elim (Option-cases (get_elem? s.refs i)) [
        | inl no_self ↦ rw (move_assign, differ, there, no_self)
        | inr (self, here) ↦
            let emptied_at : get_elem? (set_ref j (emptied r) s.refs) i ≡ some self =
              get_elem?-set_other i j s.refs (emptied r) (ground arith) ∙ here in
            rw (move_assign, differ, there, here)
              (omega (
                arith,
                rw (emptied_at, taken_by) at
                    (reset-total i r.port r.owning_task
                      (record s { refs = set_ref j (emptied r) s.refs }) given),
                held-set j s.refs r (emptied r) there,
                nothing_held r.owning_task,
              ))
      ]
    ]
  ]

  destroy-total :
      (i : ℕ) (s : Store) (given : List Right) → total (destroy i s, given) ≡ total (s, given)
  unfolding destroy reset
  destroy-total i s given = elim (Option-cases (get_elem? s.refs i)) [
    | inl missing ↦ rw (missing, destroy, reset, remove_none i s.refs missing)
    | inr (r, there) ↦
        rw (there, destroy, reset)
          (omega (
            arith,
            held-set i s.refs r (record { port = mach_port_null; owning_task = 0 }) there,
            held-remove i (set_ref i (record { port = mach_port_null; owning_task = 0 }) s.refs)
                (record { port = mach_port_null; owning_task = 0 })
                (get_elem?-set_ref i s.refs r (record { port = mach_port_null; owning_task = 0 })
                  there),
            nothing_held 0,
            drop-count r s.deallocated,
          ))
  ]

  step-total :
      (call : Call) (s : State) → total (step call s) ≡ count port task (taken_by call s) + total s
  unfolding step
  step-total (wraps new_port new_task) (s, given) =
      unfold wrap in
      omega (arith, held_last s.refs (record { port = new_port; owning_task = new_task }))
  step-total (resets i new_port new_task) (s, given) = reset-total i new_port new_task s given
  step-total (releases i) (s, given) = omega (arith, release-total i s given)
  step-total (constructs i) (s, given) = omega (arith, construct-total i s given)
  step-total (assigns i j) (s, given) = omega (arith, assign-total i j s given)
  step-total (destroys i) (s, given) = omega (arith, destroy-total i s given)

  run-total :
      (calls : List Call) (s : State)
      → total (run calls s) ≡ count port task (taken calls s) + total s
  unfolding run taken
  run-total [] s = omega arith
  run-total (call ∷ calls) s = omega (
    arith,
    run-total calls (step call s),
    step-total call s,
    count-append (taken_by call s) (taken calls (step call s)),
  )

abbrev pub no_refs : State
no_refs = (record { refs = []; deallocated = [] }, [])

-- After any sequence of calls, self-assignments included, each right is held by references, was
-- given up by Release, and was deallocated in the task of its name as many times in all as
-- references were given it: none is lost, and none is deallocated more often than it was taken.
pub run-balance :
    (calls : List Call) (port task : ℕ)
    → 0 < port
    → held port task (run calls no_refs).0.refs
        + (count port task (run calls no_refs).0.deallocated
            + count port task (run calls no_refs).1)
      ≡ count port task (taken calls no_refs)
run-balance calls port task real = omega (arith, run-total port task real calls no_refs)
