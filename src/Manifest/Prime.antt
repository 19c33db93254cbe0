-- ===== src/Manifest/Prime.antt =====
-- The primality test of the Maglev table's size.
use native.Mathlib.Nat.{mod-add-div', mul-mod_left}
use plecto.Prelude.{
  ℕ, zero, suc, ◌+◌, ◌*◌, ◌-◌, ◌/◌, ◌%◌, ◌≤◌, ◌<◌, ◌≡◌, ◌≢◌, ◌⊎◌, ◌∙◌, ap, sym, subst, inl, inr,
  true, arith, Bool-cases, ◌==◌, leb,
}
use plecto.Manifest.{trial, is_prime}

shift : (d k : ℕ) → d + 2 + 2 * k ≡ d + 2 * suc k
shift d k = omega arith

square_mono : (a b : ℕ) → a ≤ b → a * a ≤ b * b
square_mono a b h = grind arith

plus_zero : (d : ℕ) → d + 2 * 0 ≡ d
plus_zero d = omega arith

-- The loop that ends in `true` tried every odd number from `d` up to the root of `n`.
trial_none :
    (fuel d n k : ℕ)
    → n < (d + 2 * fuel) * (d + 2 * fuel)
    → trial fuel d n ≡ true
    → (d + 2 * k) * (d + 2 * k) ≤ n
    → n % (d + 2 * k) ≢ 0
unfolding trial
trial_none zero d n k past found small =
    omega (arith, square_mono (d + 2 * 0) (d + 2 * k) (omega arith))
trial_none (suc fuel) d n zero past found small = rw (plus_zero d) (ground (arith, found, fits))
  where
    fits : d * d ≤ n
    fits = rw (plus_zero d) at small
trial_none (suc fuel) d n (suc k) past found small =
    subst (λ e. n % e ≢ 0) (shift d k)
      (trial_none fuel (d + 2) n k (subst (λ e. n < e * e) (sym (shift d fuel)) past) goes_on
        (subst (λ e. e * e ≤ n) (sym (shift d k)) small))
  where
    fits : d * d ≤ n
    fits = omega (arith, square_mono d (d + 2 * suc k) (omega arith))

    goes_on : trial fuel (d + 2) n ≡ true
    goes_on = ground (arith, found, fits)

even_divisor : (n e : ℕ) → n % 2 ≢ 0 → 0 < e → n % (2 * e) ≢ 0
even_divisor n e odd pos h = ground (arith, odd, h)

parity : (d : ℕ) → 2 ≤ d → ((e : ℕ) × (d ≡ 2 * e)) ⊎ ((k : ℕ) × (d ≡ 3 + 2 * k))
parity d two = elim (Bool-cases (d % 2 == 0)) [
  | inl e ↦ inl (d / 2, ground (arith, e))
  | inr e ↦ inr ((d - 3) / 2, ground (arith, e))
]

past_root : (n : ℕ) → n < (3 + 2 * n) * (3 + 2 * n)
past_root n = grind arith

four_le : (d : ℕ) → 2 ≤ d → 4 ≤ d * d
four_le d two = omega (arith, square_mono 2 d two)

-- A number that passes the test is at least 2, and no number from 2 up to its root divides it.
pub is_prime_sound : (n d : ℕ) → is_prime n ≡ true → 2 ≤ d → d * d ≤ n → (2 ≤ n) × (n % d ≢ 0)
unfolding is_prime
is_prime_sound n d found two small = (omega (arith, four), divides_not (parity d two))
  where
    four : 4 ≤ n
    four = omega (arith, four_le d two)

    odd : n % 2 ≢ 0
    odd = ground (arith, found, four)

    tried : trial n 3 n ≡ true
    tried = ground (arith, found, four)

    divides_not : ((e : ℕ) × (d ≡ 2 * e)) ⊎ ((k : ℕ) × (d ≡ 3 + 2 * k)) → n % d ≢ 0
    divides_not (inl (e, eq)) = subst (λ x. n % x ≢ 0) (sym eq) (even_divisor n e odd (omega arith))
    divides_not (inr (k, eq)) =
        subst (λ x. n % x ≢ 0) (sym eq)
          (trial_none n 3 n k (past_root n) tried (subst (λ x. x * x ≤ n) eq small))

mul_mono_left : (k a b : ℕ) → a ≤ b → k * a ≤ k * b
mul_mono_left k a b h = grind arith

square_or : (d e n : ℕ) → d * e ≡ n → (d * d ≤ n) ⊎ (e * e ≤ n)
square_or d e n h = elim (Bool-cases (leb d e)) [
  | inl le ↦ inl (omega (arith, h, mul_mono_left d d e (ground arith)))
  | inr gt ↦ inr (omega (arith, h, mul_mono_left e e d (ground arith)))
]

whole_quotient : (n d : ℕ) → n % d ≡ 0 → d * (n / d) ≡ n
whole_quotient n d h = omega (arith, h, mod-add-div' n d)

quotient_two : (n d e : ℕ) → d * e ≡ n → d < n → 2 ≤ e
quotient_two n d zero h lt = absurd (omega (arith, h))
quotient_two n d (suc zero) h lt = absurd (omega (arith, h))
quotient_two n d (suc (suc e)) h lt = omega arith

-- A number that passes the test has no divisor from 2 on but itself.
pub prime-Indivisible : (n d : ℕ) → is_prime n ≡ true → 2 ≤ d → d < n → n % d ≢ 0
prime-Indivisible n d found two lt zero_mod =
    let whole : d * (n / d) ≡ n = whole_quotient n d zero_mod in
    elim (square_or d (n / d) n whole) [
      | inl h ↦ (is_prime_sound n d found two h).1 zero_mod
      | inr h ↦
          (is_prime_sound n (n / d) found (quotient_two n d (n / d) whole lt) h).1
            (sym (ap (λ x. x % (n / d)) whole) ∙ mul-mod_left d (n / d))
    ]
