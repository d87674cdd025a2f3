-- ===== src/ZoneAllocator/Calls.antt =====
-- ZoneAllocator.cpp: any sequence of calls on the allocator, from InitZone to FreeZone.
use mac_mini_dump.Prelude.{
  ℕ, Bool, true, false, List, [], ◌∷◌, Option, none, some, ◌==◌, if◌then◌else◌,
}
use mac_mini_dump.Outcome.{Outcome, returns, ◌>>=◌}
use mac_mini_dump.ZoneAllocator.{
  MallocCalls, Library, Allocation, bad_alloc, allocated, init_zone, free_zone, allocate,
  deallocate, delete_unique, delete_unique_array, make_unique, make_unique_array,
  make_unique_array_aligned, new_object, new_aligned, delete_object, delete_aligned, new_array,
  delete_array,
}

-- What the library's code asks for, and how it gives a block back. A destructor that runs before a
-- block is freed makes calls of its own.
pub data Request : Type 0 where
  allocates : (size n : ℕ) → Request
  unique : (size : ℕ) → Request
  unique_array : (size count : ℕ) → Request
  unique_array_aligned : (size count alignment : ℕ) → Request
  object : (size : ℕ) → Request
  aligned : (size alignment : ℕ) → Request
  array : (size : ℕ) → Request

pub data Release : Type 0 where
  deallocates : Release
  unique : Release
  unique_array : Release
  object : Release
  aligned : Release
  array : Release

pub data Call : Type 0 where
  obtains : Request → Call
  releases : Release → ℕ → Call

-- The zone and the size of a block.
abbrev pub Block : Type 0
Block = ℕ × ℕ

-- What is left of a block when a zone is destroyed.
abbrev pub left : ℕ → Option Block → Option Block
left zone none = none
left zone (some (z, n)) = if z == zone then none else some (z, n)

abbrev pub set_owned : ℕ → Bool → (ℕ → Bool) → ℕ → Bool
set_owned p owns owned q = if q == p then owns else owned q

abbrev pub with_block : Option ℕ → (ℕ → Bool) → ℕ → Bool
with_block none owned = owned
with_block (some p) owned = set_owned p true owned

-- The library, and which blocks its code owns.
pub record Client (S : Type 0) : Type 0 where
  pub library : Library S
  pub owned : ℕ → Bool

module _ {S : Type 0} where
  abbrev pub block_of : Library S × Allocation → Library S × Option ℕ
  block_of (l, bad_alloc) = (l, none)
  block_of (l, allocated p) = (l, some p)

  abbrev pub in_zone : ℕ → S → Library S
  in_zone zone s = record { g_zone = some zone; system = s }

module _ {S : Type 0} (calls : MallocCalls S) where
  unfoldable pub perform : Request → Library S → Outcome (Library S × Option ℕ)
  perform (allocates size n) l = allocate calls size n l >>= λ r. returns (block_of r)
  perform (unique size) l = make_unique calls size l >>= λ r. returns (block_of r)
  perform (unique_array size count) l =
      make_unique_array calls size count l >>= λ r. returns (block_of r)
  perform (unique_array_aligned size count alignment) l =
      make_unique_array_aligned calls size count alignment l >>= λ r. returns (block_of r)
  perform (object size) l = new_object calls size l
  perform (aligned size alignment) l = new_aligned calls size alignment l
  perform (array size) l = new_array calls size l

  unfoldable pub give_back : Release → ℕ → Library S → Outcome (Library S)
  give_back deallocates p l = deallocate calls p l
  give_back unique p l = delete_unique calls (λ l'. returns l') (some p) l
  give_back unique_array p l = delete_unique_array calls p l
  give_back object p l = delete_object calls p l
  give_back aligned p l = delete_aligned calls p l
  give_back array p l = delete_array calls p l

  -- The code gives back the blocks that it owns, and no others.
  unfoldable pub step : Call → Client S → Outcome (Client S)
  step (obtains r) c = perform r c.library >>= λ t.
      returns (record { library = t.0; owned = with_block t.1 c.owned })
  step (releases r p) c =
      if c.owned p
      then (give_back r p c.library >>= λ l.
          returns (record { library = l; owned = set_owned p false c.owned }))
      else returns c

  unfoldable pub run : List Call → Client S → Outcome (Client S)
  run [] c = returns c
  run (call ∷ rest) c = step call c >>= run rest

  -- From InitZone to FreeZone.
  unfoldable pub program : List Call → Library S → Outcome (Library S)
  program cs l = run cs (record { library = init_zone calls l; owned = λ q. false }) >>= λ c.
      free_zone calls c.library
