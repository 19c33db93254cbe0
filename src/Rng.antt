-- ===== src/Rng.antt =====
-- control/src/rng.rs: the generator of the power-of-two-choices pick. A worker's state is a u64; the
-- products of `below` are u128.
pub mod Draw
pub mod Examples
use plecto.Prelude.{
  ℕ, zero, suc, ◌+◌, ◌-◌, ◌*◌, ◌/◌, ◌%◌, ◌^◌, Bool, true, false, Option, none, some, if◌then◌else◌,
  ltb, leb, u64_mod,
}
use plecto.Hash.{wrapping_mul, wrapping_add, xor_shift}

-- GOLDEN_GAMMA.
abbrev pub golden_gamma : ℕ
golden_gamma = 0x9E3779B97F4A7C15

-- `seed`: the wall clock in nanoseconds, and the counter that `fetch_add` returned, xor-ed.
unfoldable pub mix : ℕ → ℕ
mix z =
    let a = wrapping_mul (xor_shift z 30) 0xBF58476D1CE4E5B9 in
    let b = wrapping_mul (xor_shift a 27) 0x94D049BB133111EB in xor_shift b 31

-- The new state of the worker, and the draw.
unfoldable pub next_u64 : ℕ → ℕ × ℕ
next_u64 state = let z = wrapping_add state golden_gamma in (z, mix z)

-- The rejection loop, on `fuel` more draws: the state and the product that it ends with. It ends when the
-- low word is not below the threshold.
unfoldable pub reject : ℕ → ℕ → ℕ → ℕ × ℕ → Option (ℕ × ℕ)
reject zero threshold n (state, m) = if ltb (m % u64_mod) threshold then none else some (state, m)
reject (suc fuel) threshold n (state, m) =
    let (state', r) = next_u64 state in
    let rest = reject fuel threshold n (state', r * n) in
    if ltb (m % u64_mod) threshold then rest else some (state, m)

abbrev pub high_word : Option (ℕ × ℕ) → Option (ℕ × ℕ)
high_word none = none
high_word (some (state, m)) = some (state, m / u64_mod)

-- A draw below `n`, which is positive and a u32: `none` when `fuel` rejections in a row were not enough.
unfoldable pub below : ℕ → ℕ → ℕ → Option (ℕ × ℕ)
below fuel n state =
    let (state', r) = next_u64 state in
    let m = r * n in
    let threshold = (u64_mod - n) % n in
    high_word
      (if ltb (m % u64_mod) n then reject fuel threshold n (state', m) else some (state', m))

-- The second index skips the first.
abbrev pub skip_past : ℕ → Option (ℕ × ℕ) → Option (ℕ × (ℕ × ℕ))
skip_past i none = none
skip_past i (some (state, j)) = some (state, (i, if leb i j then j + 1 else j))

abbrev pub second_draw : ℕ → ℕ → Option (ℕ × ℕ) → Option (ℕ × (ℕ × ℕ))
second_draw fuel n none = none
second_draw fuel n (some (state, i)) = skip_past i (below fuel (n - 1) state)

unfoldable pub two_distinct_below : ℕ → ℕ → ℕ → Option (ℕ × (ℕ × ℕ))
two_distinct_below fuel n state = second_draw fuel n (below fuel n state)
