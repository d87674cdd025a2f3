-- ===== src/PortRefs.antt =====
-- Sources/macMiniDump/Private/MachPortSendRightRef.cpp and .hpp: a reference that owns a send
-- right. The objects are cells of a store, since a move changes two of them; the calls of
-- `mach_port_deallocate` are a list, the last of them first.
pub mod Calls
pub mod Rights
mod Examples
use mac_mini_dump.Prelude.{
  ℕ, zero, suc, List, [], ◌∷◌, ◌++◌, Option, none, some, ◌==◌, if◌then◌else◌, get_elem?,
}

-- MACH_PORT_NULL
abbrev pub mach_port_null : ℕ
mach_port_null = 0

pub record MachPortSendRightRef : Type 0 where
  pub port : ℕ
  pub owning_task : ℕ

-- A right, by its name and the task that it is a name in.
abbrev pub Right : Type 0
Right = ℕ × ℕ

-- The live objects, and the calls of `mach_port_deallocate`.
pub record Store : Type 0 where
  pub refs : List MachPortSendRightRef
  pub deallocated : List Right

abbrev pub set_ref :
    ℕ → MachPortSendRightRef → List MachPortSendRightRef → List MachPortSendRightRef
set_ref i r [] = []
set_ref zero r (x ∷ refs) = r ∷ refs
set_ref (suc i) r (x ∷ refs) = x ∷ set_ref i r refs

abbrev pub remove_ref : ℕ → List MachPortSendRightRef → List MachPortSendRightRef
remove_ref i [] = []
remove_ref zero (x ∷ refs) = refs
remove_ref (suc i) (x ∷ refs) = x ∷ remove_ref i refs

abbrev pub emptied : MachPortSendRightRef → MachPortSendRightRef
emptied r = record r { port = mach_port_null }

-- Wrap: a new object, at the end of the store.
unfoldable pub wrap : ℕ → ℕ → Store → Store
wrap port owning_task s = record s {
  refs = s.refs ++ (record { port = port; owning_task = owning_task }) ∷ [];
}

-- What Reset does before it stores its arguments.
unfoldable pub drop_right : MachPortSendRightRef → List Right → List Right
drop_right r deallocated =
    if r.port == mach_port_null then deallocated else (r.port, r.owning_task) ∷ deallocated

-- The methods act on the object at an index; there is none past the end.
unfoldable pub reset : ℕ → ℕ → ℕ → Store → Store
reset i port owning_task s = elim (get_elem? s.refs i) [
  | none ↦ s
  | some r ↦ record {
    refs = set_ref i (record { port = port; owning_task = owning_task }) s.refs;
    deallocated = drop_right r s.deallocated;
  }
]

-- Get
unfoldable pub get : ℕ → Store → ℕ
get i s = elim (get_elem? s.refs i) [ none ↦ mach_port_null | some r ↦ r.port ]

-- Release gives the port up to the caller.
unfoldable pub release : ℕ → Store → Store × ℕ
release i s = elim (get_elem? s.refs i) [
  | none ↦ (s, mach_port_null)
  | some r ↦ (record s { refs = set_ref i (emptied r) s.refs }, r.port)
]

-- The move constructor makes a new object from the one at the index.
unfoldable pub move_construct : ℕ → Store → Store
move_construct i s = elim (get_elem? s.refs i) [
  | none ↦ s
  | some r ↦ record s { refs = set_ref i (emptied r) s.refs ++ r ∷ [] }
]

-- The move assignment, from the object at `j` to the one at `i`: `std::exchange`, then Reset.
unfoldable pub move_assign : ℕ → ℕ → Store → Store
move_assign i j s =
    let moved : Store = elim (get_elem? s.refs j) [
      | none ↦ s
      | some r ↦ elim (get_elem? s.refs i) [
        | none ↦ s
        | some self ↦
            reset i r.port r.owning_task (record s { refs = set_ref j (emptied r) s.refs })
      ]
    ] in
    if i == j then s else moved

-- The destructor.
unfoldable pub destroy : ℕ → Store → Store
destroy i s = let s' = reset i mach_port_null 0 s in record s' { refs = remove_ref i s'.refs }
