-- ===== src/Unwind/Examples.antt =====
-- The lookup of the compact unwind information: each theorem at an input.
use mac_mini_dump.Prelude.{ℕ, ◌+◌, ◌*◌, ◌≤◌, ◌<◌, ◌≡◌, refl, ap, List, [], ◌∷◌, none, some, arith}
use mac_mini_dump.DataAccess.{Memory}
use mac_mini_dump.Unwind.{search_loop, found, find_entry}
use mac_mini_dump.Unwind.Search.{Place, search_loop-Place, find_entry_last}

-- Entries of one byte, which are their own keys: the memory at an address holds the address.
abbrev memory : Memory
memory address size = some (address ∷ [])

abbrev key_of : List ℕ → ℕ
key_of [] = 0
key_of (b ∷ bs) = b

abbrev entry : ℕ → List ℕ
entry i = (100 + i) ∷ []

search_loop-Place_example :
    (r : ℕ) × (search_loop (λ i. some (i * 10)) 25 6 0 6 ≡ found r) × Place (λ i. i * 10) 25 0 6 r
search_loop-Place_example =
    search_loop-Place (λ i. some (i * 10)) (λ i. i * 10) 25 6 (omega arith) (λ i h. refl)
      (λ i j h k. omega arith) 6 0 6 (omega arith) (omega arith) (omega arith)

find_entry_last_example :
    ((k : ℕ)
      → k < 8
      → 100 + k ≤ 103
      → ((i : ℕ) → k < i → i < 8 → 103 < 100 + i)
      → find_entry memory 100 1 key_of 103 8 ≡ some (entry k))
    × (((i : ℕ) → i < 8 → 103 < 100 + i) → find_entry memory 100 1 key_of 103 8 ≡ none)
find_entry_last_example =
    find_entry_last memory 100 1 103 8 key_of entry (omega arith)
      (λ i h. ap (λ b. some (b ∷ [])) (omega arith)) (λ i j h k. omega arith)
