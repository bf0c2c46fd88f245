-- ===== src/Base/Word.antt =====
-- Arithmetic of `uint32_t`.
use Prim.Native.Nat.{ℕ, ◌+◌, ◌-◌, ◌%◌, ◌^◌}

abbrev pub u32_mod : ℕ
u32_mod = 2 ^ 32

abbrev pub u32 : ℕ → ℕ
u32 a = a % u32_mod

abbrev pub add32 : ℕ → ℕ → ℕ
add32 a b = (a + b) % u32_mod

abbrev pub sub32 : ℕ → ℕ → ℕ
sub32 a b = (a % u32_mod + u32_mod - b % u32_mod) % u32_mod
