-- ===== src/Outcome.antt =====
-- The result of code that can run into undefined behaviour, and reading the fields of a structure
-- that stands at a pointer.
use mac_mini_dump.Prelude.{
  ℕ, ◌+◌, ◌<◌, ◌^◌, ◌≡◌, refl, List, ◌++◌, arith, leb, if◌then◌else◌, length, take, drop, zero, suc,
  [], ◌∷◌, ◌/◌, ap, length-append,
}
use mac_mini_dump.Bytes.{le_bytes, from_le}

-- A value, or undefined behaviour.
pub data Outcome {ℓ} (A : Type ℓ) : Type ℓ where
  fault : Outcome A
  returns : A → Outcome A

infixl 5 ◌>>=◌
abbrev pub ◌>>=◌ {ℓ κ} : {A : Type ℓ} {B : Type κ} → Outcome A → (A → Outcome B) → Outcome B
fault >>= f = fault
returns a >>= f = f a

-- The `size` bytes at an offset of the memory that begins at a pointer; a fault past its end.
unfoldable pub bytes_at : ℕ → ℕ → List ℕ → Outcome (List ℕ)
bytes_at offset size memory =
    if leb (offset + size) (length memory) then returns (take size (drop offset memory)) else fault

-- An unsigned field of `size` bytes.
abbrev pub field : ℕ → ℕ → List ℕ → Outcome ℕ
field offset size memory = bytes_at offset size memory >>= λ bytes. returns (from_le bytes)

pub from_le-le_bytes : (n v : ℕ) → v < 256 ^ n → from_le (le_bytes n v) ≡ v
unfolding from_le le_bytes
from_le-le_bytes zero v h = omega arith
from_le-le_bytes (suc n) v h = omega (arith, from_le-le_bytes n (v / 256) (omega arith))

module _ {ℓ} {A : Type ℓ} where
  pub take_past : (xs ys : List A) (n : ℕ) → length xs ≡ n → take n (xs ++ ys) ≡ xs
  take_past [] ys zero h = refl
  take_past [] ys (suc n) h = absurd (omega arith)
  take_past (x ∷ xs) ys zero h = absurd (omega arith)
  take_past (x ∷ xs) ys (suc n) h = ap (◌∷◌ x) (take_past xs ys n (omega arith))

  pub drop_past : (xs ys : List A) (n : ℕ) → length xs ≡ n → drop n (xs ++ ys) ≡ ys
  drop_past [] ys zero h = refl
  drop_past [] ys (suc n) h = absurd (omega arith)
  drop_past (x ∷ xs) ys zero h = absurd (omega arith)
  drop_past (x ∷ xs) ys (suc n) h = drop_past xs ys n (omega arith)

-- A field that stands behind a prefix of known length.
pub bytes_at-past :
    (before bytes rest : List ℕ) (offset size : ℕ)
    → length before ≡ offset
    → length bytes ≡ size
    → bytes_at offset size (before ++ (bytes ++ rest)) ≡ returns bytes
unfolding bytes_at
bytes_at-past before bytes rest offset size h k = ground (
  arith,
  length-append before (bytes ++ rest),
  length-append bytes rest,
  take_past bytes rest size k,
  drop_past before (bytes ++ rest) offset h,
)
