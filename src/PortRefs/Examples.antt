-- ===== src/PortRefs/Examples.antt =====
-- MachPortSendRightRef.cpp: the theorem at an input.
use mac_mini_dump.Prelude.{◌+◌, ◌≡◌, refl, List, [], ◌∷◌, arith}
use mac_mini_dump.PortRefs.{wrap, reset, move_assign, destroy, drop_right}
use mac_mini_dump.PortRefs.Calls.{Call, wraps, assigns, destroys, step, run, taken, held, count}
use mac_mini_dump.PortRefs.Rights.{no_refs, run-balance}

-- Two references; the second is moved over the first, and then all are destroyed.
abbrev calls : List Call
calls = wraps 7 1 ∷ wraps 9 1 ∷ assigns 0 1 ∷ assigns 0 0 ∷ destroys 1 ∷ destroys 0 ∷ []

run-balance_example :
    held 7 1 (run calls no_refs).0.refs
      + (count 7 1 (run calls no_refs).0.deallocated + count 7 1 (run calls no_refs).1)
    ≡ count 7 1 (taken calls no_refs)
run-balance_example = run-balance calls 7 1 (omega arith)

deallocated-at : (run calls no_refs).0.deallocated ≡ (9, 1) ∷ (7, 1) ∷ []
unfolding run step wrap reset move_assign destroy drop_right
deallocated-at = refl
