-- ===== src/Rng/Draw.antt =====
-- The draws are in range, and distinct.
use Prim.Native.Nat.{bit_xor, bit_xor-bitwise, digits, differ}
use native.Mathlib.Nat.{pow-suc, div-lt_iff_lt-mul, mul-lt-mul_of_pos_right}
use plecto.Prelude.{
  ℕ, zero, suc, ◌-◌, ◌*◌, ◌/◌, ◌%◌, ◌^◌, ◌≤◌, ◌<◌, ◌≢◌, sym, subst, Option, none, some, ltb, leb,
  u64_mod, arith, Bool-cases, inl, inr,
}
use plecto.Hash.{wrapping_mul, wrapping_add, xor_shift}
use plecto.Rng.{next_u64, mix, reject, below, high_word, skip_past, second_draw, two_distinct_below}

differ-digit : (a b : ℕ) → a < 2 → b < 2 → differ a b < 2
differ-digit zero b p q = q
differ-digit (suc zero) zero p q = omega arith
differ-digit (suc zero) (suc zero) p q = omega arith
differ-digit (suc zero) (suc (suc b)) p q = absurd (omega arith)
differ-digit (suc (suc a)) b p q = absurd (omega arith)

digits-lt : (k n a b : ℕ) → a < 2 ^ k → b < 2 ^ k → digits (λ b. b) differ n a b < 2 ^ k
digits-lt k zero a b p q = q
digits-lt k (suc n) zero b p q = q
digits-lt zero (suc n) (suc a) b p q = absurd (omega arith)
digits-lt (suc k) (suc n) (suc a) b p q = omega (
  arith,
  pow-suc 2 k,
  digits-lt k n (suc a / 2) (b / 2) (omega (arith, pow-suc 2 k, p)) (omega (arith, pow-suc 2 k, q)),
  differ-digit (suc a % 2) (b % 2) (omega arith) (omega arith),
)

bit_xor-lt : (a b : ℕ) → a < u64_mod → b < u64_mod → bit_xor a b < u64_mod
bit_xor-lt a b p q = subst (λ x. x < u64_mod) (sym (bit_xor-bitwise a b)) (digits-lt 64 a a b p q)

mix-lt : (z : ℕ) → mix z < u64_mod
unfolding mix
mix-lt z =
    shifted
      (wrapping_mul (xor_shift (wrapping_mul (xor_shift z 30) 0xBF58476D1CE4E5B9) 27)
        0x94D049BB133111EB)
      (omega arith)
  where
    shifted : (b : ℕ) → b < u64_mod → xor_shift b 31 < u64_mod
    shifted b h = bit_xor-lt b (b / 2 ^ 31) h (omega (arith, h))

-- The high word of a product with a 64-bit number.
product-high : (r n : ℕ) → r < u64_mod → 0 < n → r * n / u64_mod < n
product-high r n h p =
    (div-lt_iff_lt-mul (omega arith)).1
      (subst (λ x. r * n < x) (omega arith) (mul-lt-mul_of_pos_right h p))

abbrev Below : ℕ → Option (ℕ × ℕ) → Type 0
Below n none = Unit
Below n (some (state, v)) = v < n

next_u64-lt : (state : ℕ) → (next_u64 state).1 < u64_mod
unfolding next_u64
next_u64-lt state = mix-lt (wrapping_add state 0x9E3779B97F4A7C15)

reject-Below :
    (fuel threshold n state r : ℕ)
    → r < u64_mod
    → 0 < n
    → Below n (high_word (reject fuel threshold n (state, r * n)))
unfolding reject
reject-Below zero threshold n state r h p = elim (Bool-cases (ltb (r * n % u64_mod) threshold)) [
  | inl e ↦ rw e tt
  | inr e ↦ rw e (product-high r n h p)
]
reject-Below (suc fuel) threshold n state r h p =
    elim (Bool-cases (ltb (r * n % u64_mod) threshold)) [
      | inl e ↦ rw e (
          reject-Below fuel threshold n (next_u64 state).0 (next_u64 state).1 (next_u64-lt state) p)
      | inr e ↦ rw e (product-high r n h p)
    ]

-- A draw that is returned is below `n`.
below-Below : (fuel n state : ℕ) → 0 < n → Below n (below fuel n state)
unfolding below
below-Below fuel n state p =
    let r = (next_u64 state).1 in
    elim (Bool-cases (ltb (r * n % u64_mod) n)) [
      | inl e ↦
          rw e (reject-Below fuel ((u64_mod - n) % n) n (next_u64 state).0 r (next_u64-lt state) p)
      | inr e ↦ rw e (product-high r n (next_u64-lt state) p)
    ]

abbrev Distinct : ℕ → Option (ℕ × (ℕ × ℕ)) → Type 0
Distinct n none = Unit
Distinct n (some (state, (i, j))) = (i < n) × (j < n) × (i ≢ j)

skip_past-Distinct :
    (n i : ℕ) (o : Option (ℕ × ℕ)) → i < n → Below (n - 1) o → Distinct n (skip_past i o)
skip_past-Distinct n i none p b = tt
skip_past-Distinct n i (some (state, j)) p b = elim (Bool-cases (leb i j)) [
  | inl e ↦ rw e (p, omega (arith, b), ground (arith, e))
  | inr e ↦ rw e (p, omega (arith, b), ground (arith, e))
]

-- Two draws that are returned are indices below `n`, and differ.
pub two_distinct_below-Distinct :
    (fuel n state : ℕ) → 2 ≤ n → Distinct n (two_distinct_below fuel n state)
unfolding two_distinct_below
two_distinct_below-Distinct fuel n state p =
    after (below fuel n state) (below-Below fuel n state (omega (arith, p)))
  where
    after : (o : Option (ℕ × ℕ)) → Below n o → Distinct n (second_draw fuel n o)
    after none b = tt
    after (some (state', i)) b =
        skip_past-Distinct n i (below fuel (n - 1) state') b
          (below-Below fuel (n - 1) state' (omega (arith, p)))
