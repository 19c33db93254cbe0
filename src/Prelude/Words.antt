-- ===== src/Prelude/Words.antt =====
-- Machine integers: saturating and wrapping arithmetic of the Rust standard library on u32, u64 and
-- usize (64 bits), as numbers below a power of two.
use Prim.Native.Nat.{ℕ, ◌+◌, ◌-◌, ◌*◌, ◌/◌, min}

abbrev pub u32_max : ℕ
u32_max = 4294967295

abbrev pub u64_max : ℕ
u64_max = 18446744073709551615

abbrev pub u64_mod : ℕ
u64_mod = 18446744073709551616

-- `a.saturating_add(b)` and `a.saturating_mul(b)` at a type whose largest value is `top`.
abbrev pub saturating_add : ℕ → ℕ → ℕ → ℕ
saturating_add top a b = min (a + b) top

abbrev pub saturating_mul : ℕ → ℕ → ℕ → ℕ
saturating_mul top a b = min (a * b) top

-- `a.div_ceil(b)`; the code divides by a nonzero `b` only.
abbrev pub div_ceil : ℕ → ℕ → ℕ
div_ceil a b = (a + (b - 1)) / b
