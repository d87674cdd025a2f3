-- ===== src/Bytes.antt =====
-- Bytes in memory: little-endian integers, C strings, fixed arrays of char.
use mac_mini_dump.Prelude.{
  ℕ, zero, suc, ◌+◌, ◌*◌, ◌/◌, ◌%◌, ◌≤◌, ◌<◌, ◌≡◌, refl, ap, Bool, true, false, ◌&&◌, List, [], ◌∷◌,
  ◌++◌, arith, ◌==◌, if◌then◌else◌, length, Bool-cases, inl, inr,
}

-- `n` bytes of an unsigned integer, the lowest first.
unfoldable pub le_bytes : ℕ → ℕ → List ℕ
le_bytes zero v = []
le_bytes (suc n) v = v % 256 ∷ le_bytes n (v / 256)

unfoldable pub from_le : List ℕ → ℕ
from_le [] = 0
from_le (b ∷ bs) = b + 256 * from_le bs

pub length-le_bytes : (n v : ℕ) → length (le_bytes n v) ≡ n
unfolding le_bytes
length-le_bytes zero v = refl
length-le_bytes (suc n) v = ap suc (length-le_bytes n (v / 256))

-- A C string that ends at the first NUL, or with the memory that is listed.
unfoldable pub until_nul : List ℕ → List ℕ
until_nul [] = []
until_nul (b ∷ bs) = let rest = until_nul bs in if b == 0 then [] else b ∷ rest

-- `strcmp (a, b) == 0` on strings without their NUL.
unfoldable pub same_string : List ℕ → List ℕ → Bool
same_string [] [] = true
same_string [] (b ∷ bs) = false
same_string (a ∷ as') [] = false
same_string (a ∷ as') (b ∷ bs) = a == b && same_string as' bs

-- A zeroed array of `n` chars with the string copied to its front.
unfoldable pub padded : ℕ → List ℕ → List ℕ
padded zero s = []
padded (suc n) [] = 0 ∷ padded n []
padded (suc n) (c ∷ s) = c ∷ padded n s

pub length-padded : (n : ℕ) (s : List ℕ) → length (padded n s) ≡ n
unfolding padded
length-padded zero s = refl
length-padded (suc n) [] = ap suc (length-padded n [])
length-padded (suc n) (c ∷ s) = ap suc (length-padded n s)

pub same_string_refl : (s : List ℕ) → same_string s s ≡ true
unfolding same_string
same_string_refl [] = refl
same_string_refl (c ∷ s) = ground (arith, same_string_refl s)

pub same_string-eq : (s t : List ℕ) → same_string s t ≡ true → s ≡ t
unfolding same_string
same_string-eq [] [] h = refl
same_string-eq [] (b ∷ t) h = cc
same_string-eq (a ∷ s) [] h = cc
same_string-eq (a ∷ s) (b ∷ t) h = ground (arith, same_string-eq s t)

-- A string without a NUL among its chars.
abbrev pub NoNul : List ℕ → Type 0
NoNul [] = Unit {0}
NoNul (c ∷ s) = (0 < c) × NoNul s

-- A string that fills its array or not is read back, if a NUL follows the array.
pub until_nul-padded :
    (n : ℕ) (s rest : List ℕ) → NoNul s → length s ≤ n → until_nul (padded n s ++ 0 ∷ rest) ≡ s
unfolding until_nul padded
until_nul-padded zero [] rest u h = refl
until_nul-padded zero (c ∷ s) rest u h = absurd (omega arith)
until_nul-padded (suc n) [] rest u h = refl
until_nul-padded (suc n) (c ∷ s) rest u h =
    ground (arith, until_nul-padded n s rest u.1 (omega arith))

-- A string shorter than its array is read back whatever follows.
pub until_nul_short :
    (n : ℕ) (s rest : List ℕ) → NoNul s → length s < n → until_nul (padded n s ++ rest) ≡ s
unfolding until_nul padded
until_nul_short zero s rest u h = absurd (omega arith)
until_nul_short (suc n) [] rest u h = refl
until_nul_short (suc n) (c ∷ s) rest u h =
    ground (arith, until_nul_short n s rest u.1 (omega arith))

-- Two arrays that read as the same string hold the same name, whatever follows them.
pub until_nul_injective :
    (n : ℕ) (s t r r' : List ℕ)
    → NoNul s
    → NoNul t
    → length s ≤ n
    → length t ≤ n
    → until_nul (padded n s ++ r) ≡ until_nul (padded n t ++ r')
    → s ≡ t
unfolding until_nul padded
until_nul_injective zero [] [] r r' u v h k e = refl
until_nul_injective zero [] (d ∷ t) r r' u v h k e = absurd (omega arith)
until_nul_injective zero (c ∷ s) t r r' u v h k e = absurd (omega arith)
until_nul_injective (suc n) [] [] r r' u v h k e = refl
until_nul_injective (suc n) [] (d ∷ t) r r' u v h k e = ground arith
until_nul_injective (suc n) (c ∷ s) [] r r' u v h k e = ground arith
until_nul_injective (suc n) (c ∷ s) (d ∷ t) r r' u v h k e = ground (
  arith,
  λ (p : until_nul (padded n s ++ r) ≡ until_nul (padded n t ++ r')).
      until_nul_injective n s t r r' u.1 v.1 (omega arith) (omega arith) p,
)

-- A string that fills its array is followed by what stands behind the array.
pub until_nul_full :
    (n : ℕ) (s rest : List ℕ)
    → NoNul s
    → length s ≡ n
    → until_nul (padded n s ++ rest) ≡ s ++ until_nul rest
unfolding until_nul padded
until_nul_full zero [] rest u h = refl
until_nul_full zero (c ∷ s) rest u h = absurd (omega arith)
until_nul_full (suc n) [] rest u h = absurd (omega arith)
until_nul_full (suc n) (c ∷ s) rest u h = ground (arith, until_nul_full n s rest u.1 (omega arith))

-- The name that `strncpy` has copied reads as the name of the command.
pub name_back :
    (n : ℕ) (s : List ℕ) → length s ≤ n → until_nul (padded n (until_nul s)) ≡ until_nul s
unfolding until_nul padded
name_back zero [] h = refl
name_back zero (c ∷ s) h = absurd (omega arith)
name_back (suc n) [] h = refl
name_back (suc n) (c ∷ s) h = elim (Bool-cases (c == 0)) [
  | inl nul ↦ rw nul
  | inr char ↦ rw (char, until_nul) (rw char (ap (◌∷◌ c) (name_back n s (omega arith))))
]
