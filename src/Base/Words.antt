-- ===== src/Base/Words.antt =====
-- Arithmetic on machine words, with the wrap-around of a release build written out.
use Prim.Native.Nat.{ℕ, ◌+◌, ◌-◌, ◌%◌}

abbrev pub u64_mod : ℕ
u64_mod = 18446744073709551616

abbrev pub u32_mod : ℕ
u32_mod = 4294967296

abbrev pub u128_mod : ℕ
u128_mod = 340282366920938463463374607431768211456

-- `u64` and `usize`
unfoldable pub wrapping_add64 : ℕ → ℕ → ℕ
wrapping_add64 a b = (a + b) % u64_mod

unfoldable pub wrapping_sub64 : ℕ → ℕ → ℕ
wrapping_sub64 a b = (a + u64_mod - b % u64_mod) % u64_mod

unfoldable pub wrapping_add32 : ℕ → ℕ → ℕ
wrapping_add32 a b = (a + b) % u32_mod
