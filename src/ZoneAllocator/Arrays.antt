-- ===== src/ZoneAllocator/Arrays.antt =====
-- ZoneAllocator.hpp: the room of the arrays of ZoneAllocator<T>::allocate, MakeUniqueArray and
-- MakeUniqueArrayAligned.
use mac_mini_dump.Prelude.{ℕ, ◌*◌, ◌%◌, ◌≤◌, ◌<◌, ◌≡◌, refl, Option, none, some, arith, ◌↔◌}
use mac_mini_dump.Prelude.Words.{u64_mod}
use mac_mini_dump.Outcome.{Outcome, returns}
use mac_mini_dump.ZoneAllocator.{
  MallocCalls, Library, Allocation, bad_alloc, allocated, or_throw, placed, malloc, malloc_aligned,
  allocate, make_unique_array, make_unique_array_aligned,
}
use mac_mini_dump.ZoneAllocator.Calls.{Block, in_zone}
use mac_mini_dump.ZoneAllocator.Isolation.{Granted, MallocLaws}

module _ {S : Type 0} (calls : MallocCalls S) (blocks : S → ℕ → Option Block)
    (laws : MallocLaws calls blocks) (zone : ℕ) (s : S) where
  -- An array of so many bytes: its block is new, and has room for them when they are below 2 ^ 64
  -- and only then. Or nothing has changed.
  abbrev pub HasRoom : ℕ → Library S × Allocation → Type 0
  HasRoom bytes (l, bad_alloc) = (q : ℕ) → blocks l.system q ≡ blocks s q
  HasRoom bytes (l, allocated p) =
      (blocks s p ≡ none)
      × (size : ℕ) × (blocks l.system p ≡ some (zone, size))
      × (bytes ≤ size ↔ bytes < u64_mod)

  abbrev pub Makes : ℕ → Outcome (Library S × Allocation) → Type 0
  Makes bytes r = (t : Library S × Allocation) × (r ≡ returns t) × HasRoom bytes t

  or_throw-HasRoom :
      (bytes : ℕ) (t : S × Option ℕ)
      → Granted blocks zone (bytes % u64_mod) s t
      → HasRoom bytes (or_throw (placed (in_zone zone s) t))
  or_throw-HasRoom bytes (s', none) g = g
  or_throw-HasRoom bytes (s', some p) (new, there, others) =
      (new, bytes % u64_mod, there, ((λ h. omega arith), λ h. omega arith))

  -- The three functions that allocate `count` elements never fault in a zone. Each throws
  -- bad_alloc, and no block has changed, or gives a block that is new and that has room for the
  -- elements exactly when their size in bytes is below 2 ^ 64: otherwise the product wraps around,
  -- and the array is too short.
  pub make_array-HasRoom :
      (size count alignment : ℕ)
      → Makes (count * size) (allocate calls size count (in_zone zone s))
        × Makes (count * size) (make_unique_array calls size count (in_zone zone s))
        × Makes
            (count * size)
            (make_unique_array_aligned calls size count alignment (in_zone zone s))
  unfolding allocate make_unique_array make_unique_array_aligned malloc malloc_aligned
  make_array-HasRoom size count alignment =
      let by_malloc =
        or_throw-HasRoom (count * size) _ (laws.zone_malloc_law zone (count * size % u64_mod) s) in
      (
        (_, refl, by_malloc),
        (_, refl, by_malloc),
        (
          _,
          refl,
          or_throw-HasRoom (count * size) _
              (laws.zone_memalign_law zone alignment (count * size % u64_mod) s),
        ),
      )
