-- ===== src/Builder/Order.antt =====
-- The file that `Build` writes: no byte is written over, and the payloads are aligned.
use mac_mini_dump.Prelude.{ℕ, ◌+◌, ◌≤◌, ◌≡◌, List, [], ◌∷◌, length}
use mac_mini_dump.Builder.{Builder}
use mac_mini_dump.Builder.Plan.{Action, puts, seeks}

-- From a position on, the position never goes back: no byte is written over.
abbrev pub Forward : ℕ → List Action → Type 0
Forward p [] = Unit {0}
Forward p (puts bytes ∷ rest) = Forward (p + length bytes) rest
Forward p (seeks q ∷ rest) = (p ≤ q) × Forward q rest

-- The position at the end.
abbrev pub end_position : ℕ → List Action → ℕ
end_position p [] = p
end_position p (puts bytes ∷ rest) = end_position (p + length bytes) rest
end_position p (seeks q ∷ rest) = end_position q rest

-- Writes that take `n` bytes.
abbrev Takes : List Action → ℕ → Type 0
Takes xs n = (p : ℕ) → Forward p xs × (end_position p xs ≡ p + n)
