-- ===== src/ZoneAllocator/Examples.antt =====
-- ZoneAllocator.cpp over a heap that is a list of blocks: each theorem at an input.
use mac_mini_dump.Prelude.{
  ℕ, zero, suc, ◌+◌, ◌*◌, ◌≤◌, ◌<◌, ◌≡◌, ◌≢◌, refl, ap, List, [], ◌∷◌, ◌++◌, Option, none, some,
  arith, length,
}
use mac_mini_dump.Outcome.{returns}
use mac_mini_dump.ZoneAllocator.{
  MallocCalls, allocate, make_unique_array, make_unique_array_aligned,
}
use mac_mini_dump.ZoneAllocator.Calls.{
  Request, Release, Call, obtains, releases, Block, left, in_zone, program,
}
use mac_mini_dump.ZoneAllocator.Isolation.{Granted, MallocLaws, program_restores}
use mac_mini_dump.ZoneAllocator.Arrays.{Makes, make_array-HasRoom}

-- The block at each address, and `none` where one was freed.
abbrev Heap : Type 0
Heap = List (Option Block)

abbrev block_at : Heap → ℕ → Option Block
block_at [] q = none
block_at (b ∷ s) zero = b
block_at (b ∷ s) (suc q) = block_at s q

abbrev freed : ℕ → Heap → Heap
freed q [] = []
freed zero (b ∷ s) = none ∷ s
freed (suc q) (b ∷ s) = b ∷ freed q s

abbrev destroyed : ℕ → Heap → Heap
destroyed zone [] = []
destroyed zone (b ∷ s) = left zone b ∷ destroyed zone s

-- Above every zone in use.
abbrev zone_of : Option Block → ℕ
zone_of none = 0
zone_of (some (zone, size)) = zone

abbrev next_zone : Heap → ℕ
next_zone [] = 1
next_zone (b ∷ s) = suc (zone_of b + next_zone s)

abbrev add_block : ℕ → ℕ → Heap → Heap × Option ℕ
add_block zone size s = (s ++ some (zone, size) ∷ [], some (length s))

abbrev heap : MallocCalls Heap
heap = record {
  default_zone = 0;
  create_zone = λ s. (s, some (next_zone s));
  destroy_zone = destroyed;
  zone_malloc = add_block;
  zone_memalign = λ zone alignment size s. add_block zone size s;
  zone_free = λ zone p s. freed p s;
}

left_lower : (zone : ℕ) (b : Option Block) → zone_of b < zone → left zone b ≡ b
left_lower zone none h = refl
left_lower zone (some (z, n)) h = ground arith

left_same :
    (zone : ℕ) (s : Heap) (q : ℕ) → next_zone s ≤ zone → left zone (block_at s q) ≡ block_at s q
left_same zone [] q h = refl
left_same zone (b ∷ s) zero h = left_lower zone b (omega arith)
left_same zone (b ∷ s) (suc q) h = left_same zone s q (omega arith)

next_zone_positive : (s : Heap) → next_zone s ≢ 0
next_zone_positive [] e = omega (arith, e)
next_zone_positive (b ∷ s) e = omega (arith, e)

block_at-destroyed :
    (zone q : ℕ) (s : Heap) → block_at (destroyed zone s) q ≡ left zone (block_at s q)
block_at-destroyed zone q [] = refl
block_at-destroyed zone zero (b ∷ s) = refl
block_at-destroyed zone (suc q) (b ∷ s) = block_at-destroyed zone q s

past_end : (s : Heap) → block_at s (length s) ≡ none
past_end [] = refl
past_end (b ∷ s) = past_end s

added : (s : Heap) (b : Option Block) → block_at (s ++ b ∷ []) (length s) ≡ b
added [] b = refl
added (x ∷ s) b = added s b

kept :
    (s : Heap) (b : Option Block) (q : ℕ) → q ≢ length s → block_at (s ++ b ∷ []) q ≡ block_at s q
kept [] b zero d = absurd (d refl)
kept [] b (suc q) d = refl
kept (x ∷ s) b zero d = refl
kept (x ∷ s) b (suc q) d = kept s b q (λ e. d (ap suc e))

gone : (p : ℕ) (s : Heap) → block_at (freed p s) p ≡ none
gone p [] = refl
gone zero (b ∷ s) = refl
gone (suc p) (b ∷ s) = gone p s

stays : (p q : ℕ) (s : Heap) → q ≢ p → block_at (freed p s) q ≡ block_at s q
stays p q [] d = refl
stays zero zero (b ∷ s) d = absurd (d refl)
stays zero (suc q) (b ∷ s) d = refl
stays (suc p) zero (b ∷ s) d = refl
stays (suc p) (suc q) (b ∷ s) d = stays p q s (λ e. d (ap suc e))

add_block-Granted :
    (zone size : ℕ) (s : Heap) → Granted block_at zone size s (add_block zone size s)
add_block-Granted zone size s =
    (past_end s, added s (some (zone, size)), λ q d. kept s (some (zone, size)) q d)

heap_laws : MallocLaws heap block_at
heap_laws = record {
  create_zone_law =
      λ s. (next_zone_positive s, (λ q. refl), λ q. left_same (next_zone s) s q (omega arith));
  destroy_zone_law = block_at-destroyed;
  zone_malloc_law = add_block-Granted;
  zone_memalign_law = λ zone alignment size s. add_block-Granted zone size s;
  zone_free_law = λ zone p size s there. (gone p s, λ q d. stays p q s d);
}

-- A block of another zone.
abbrev others : Heap
others = some (3, 100) ∷ []

abbrev some_calls : List Call
some_calls =
    obtains (Request.unique_array 8 4)
    ∷ obtains (Request.object 24)
    ∷ releases Release.unique_array 1
    ∷ []

program_restores_example :
    (end : Heap) × (program heap some_calls (record { g_zone = none; system = others })
      ≡ returns (record { g_zone = none; system = end }))
    × ((q : ℕ) → block_at end q ≡ block_at others q)
program_restores_example =
    program_restores heap block_at heap_laws some_calls (record { g_zone = none; system = others })
      others 5 refl

-- 2 ^ 61 elements of 8 bytes.
make_array-HasRoom_example :
    Makes heap block_at heap_laws 5 others
      (0x2000_0000_0000_0000 * 8)
      (allocate heap 8 0x2000_0000_0000_0000 (in_zone 5 others))
    × Makes heap block_at heap_laws 5 others
        (0x2000_0000_0000_0000 * 8)
        (make_unique_array heap 8 0x2000_0000_0000_0000 (in_zone 5 others))
    × Makes heap block_at heap_laws 5 others
        (0x2000_0000_0000_0000 * 8)
        (make_unique_array_aligned heap 8 0x2000_0000_0000_0000 16 (in_zone 5 others))
make_array-HasRoom_example =
    make_array-HasRoom heap block_at heap_laws 5 others 8 0x2000_0000_0000_0000 16
