-- ===== src/ZoneAllocator.antt =====
-- Sources/macMiniDump/Private/ZoneAllocator.cpp and .hpp: the zone that all allocations of the
-- library are made in. Parameter: the calls of the system's malloc, over a state of its own. A zone
-- and a block are numbers, a null pointer is `none`. The assertions are on, and the name of the
-- zone is left out.
pub mod Calls
pub mod Isolation
pub mod Arrays
mod Examples
use mac_mini_dump.Prelude.{ℕ, ◌*◌, ◌%◌, Bool, Option, none, some, ◌==◌, if◌then◌else◌}
use mac_mini_dump.Prelude.Words.{u64_mod}
use mac_mini_dump.Outcome.{Outcome, fault, returns, ◌>>=◌}

-- In the order of their arguments, `malloc_zone_memalign` with the alignment first.
pub record MallocCalls (S : Type 0) : Type 0 where
  pub default_zone : ℕ
  pub create_zone : S → S × Option ℕ
  pub destroy_zone : ℕ → S → S
  pub zone_malloc : ℕ → ℕ → S → S × Option ℕ
  pub zone_memalign : ℕ → ℕ → ℕ → S → S × Option ℕ
  pub zone_free : ℕ → ℕ → S → S

pub record Library (S : Type 0) : Type 0 where
  pub g_zone : Option ℕ
  pub system : S

-- What an allocation that may throw gives.
pub data Allocation : Type 0 where
  bad_alloc : Allocation
  allocated : ℕ → Allocation

-- `if (p == nullptr) throw std::bad_alloc ()`
abbrev pub or_throw : {S : Type 0} → Library S × Option ℕ → Library S × Allocation
or_throw (l, none) = (l, bad_alloc)
or_throw (l, some p) = (l, allocated p)

abbrev pub placed : {S : Type 0} → Library S → S × Option ℕ → Library S × Option ℕ
placed l (s, p) = (record l { system = s }, p)

module _ {S : Type 0} (calls : MallocCalls S) where
  -- The default zone when none could be created.
  abbrev pub chosen : S × Option ℕ → Library S
  chosen (s, none) = record { g_zone = some calls.default_zone; system = s }
  chosen (s, some zone) = record { g_zone = some zone; system = s }

  unfoldable pub init_zone : Library S → Library S
  init_zone l = chosen (calls.create_zone l.system)

  unfoldable pub free_zone : Library S → Outcome (Library S)
  free_zone l = elim l.g_zone [
    | none ↦ fault
    | some z ↦ returns (record {
      g_zone = none;
      system = if z == calls.default_zone then l.system else calls.destroy_zone z l.system;
    })
  ]

  abbrev pub get_zone : Library S → Outcome ℕ
  get_zone l = elim l.g_zone [ none ↦ fault | some z ↦ returns z ]

  unfoldable pub malloc : ℕ → Library S → Outcome (Library S × Option ℕ)
  malloc size l = get_zone l >>= λ z. returns (placed l (calls.zone_malloc z size l.system))

  unfoldable pub malloc_aligned : ℕ → ℕ → Library S → Outcome (Library S × Option ℕ)
  malloc_aligned size alignment l =
      get_zone l >>= λ z. returns (placed l (calls.zone_memalign z alignment size l.system))

  unfoldable pub free : ℕ → Library S → Outcome (Library S)
  free ptr l = get_zone l >>= λ z. returns (record l { system = calls.zone_free z ptr l.system })

  -- ZoneAllocator<T>, with `size` for `sizeof (T)`.
  unfoldable pub allocate : ℕ → ℕ → Library S → Outcome (Library S × Allocation)
  allocate size n l = get_zone l >>= λ z.
      returns (or_throw (placed l (calls.zone_malloc z (n * size % u64_mod) l.system)))

  unfoldable pub deallocate : ℕ → Library S → Outcome (Library S)
  deallocate ptr l =
      get_zone l >>= λ z. returns (record l { system = calls.zone_free z ptr l.system })

  -- ZoneDeleter<T> runs the destructor first, ZoneDeleter<T[]> does not.
  unfoldable pub delete_unique :
      (Library S → Outcome (Library S)) → Option ℕ → Library S → Outcome (Library S)
  delete_unique destructor none l = returns l
  delete_unique destructor (some ptr) l = destructor l >>= free ptr

  unfoldable pub delete_unique_array : ℕ → Library S → Outcome (Library S)
  delete_unique_array ptr l = free ptr l

  -- MakeUnique, before the constructor of T runs.
  unfoldable pub make_unique : ℕ → Library S → Outcome (Library S × Allocation)
  make_unique size l = malloc size l >>= λ r. returns (or_throw r)

  unfoldable pub make_unique_array : ℕ → ℕ → Library S → Outcome (Library S × Allocation)
  make_unique_array size count l = malloc (count * size % u64_mod) l >>= λ r. returns (or_throw r)

  unfoldable pub make_unique_array_aligned :
      ℕ → ℕ → ℕ → Library S → Outcome (Library S × Allocation)
  make_unique_array_aligned size count alignment l =
      malloc_aligned (count * size % u64_mod) alignment l >>= λ r. returns (or_throw r)

  -- ZoneAllocated
  unfoldable pub new_object : ℕ → Library S → Outcome (Library S × Option ℕ)
  new_object size l = malloc size l

  unfoldable pub new_aligned : ℕ → ℕ → Library S → Outcome (Library S × Option ℕ)
  new_aligned size alignment l = malloc_aligned size alignment l

  unfoldable pub delete_object : ℕ → Library S → Outcome (Library S)
  delete_object ptr l = free ptr l

  unfoldable pub delete_aligned : ℕ → Library S → Outcome (Library S)
  delete_aligned ptr l = free ptr l

  unfoldable pub new_array : ℕ → Library S → Outcome (Library S × Option ℕ)
  new_array size l = malloc size l

  unfoldable pub delete_array : ℕ → Library S → Outcome (Library S)
  delete_array ptr l = free ptr l
