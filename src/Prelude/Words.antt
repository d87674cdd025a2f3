-- ===== src/Prelude/Words.antt =====
-- Machine words: uint64_t and uint32_t arithmetic, with its wrap-around, on native numbers.
use Prim.Native.Nat.{ℕ, ◌+◌, ◌-◌, ◌%◌}

abbrev pub u64_mod : ℕ
u64_mod = 0x1_0000_0000_0000_0000

abbrev pub uint64_max : ℕ
uint64_max = 0xffff_ffff_ffff_ffff

abbrev pub u32_mod : ℕ
u32_mod = 0x1_0000_0000

abbrev pub add64 : ℕ → ℕ → ℕ
add64 a b = (a + b) % u64_mod

-- `-` on ℕ stops at 0, so the modulus is added first; both arguments are below it.
abbrev pub sub64 : ℕ → ℕ → ℕ
sub64 a b = (a + u64_mod - b) % u64_mod

abbrev pub add32 : ℕ → ℕ → ℕ
add32 a b = (a + b) % u32_mod

abbrev pub sub32 : ℕ → ℕ → ℕ
sub32 a b = (a + u32_mod - b) % u32_mod
