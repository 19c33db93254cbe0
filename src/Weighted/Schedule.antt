-- ===== src/Weighted/Schedule.antt =====
-- The schedule serves every backend in proportion to its weight.
use plecto.Prelude.{
  ℕ, zero, suc, ◌+◌, ◌*◌, ◌%◌, ◌≤◌, ◌<◌, ◌≡◌, refl, ◌∙◌, ap, subst, take, List, ◌∷◌, arith, length,
  get_or, replicate, inl, inr, ◌⊎◌,
}
use native.Mathlib.Decide.{dec_le}
use plecto.Prelude.Int.{ℤ, pos, pos_part, neg_part}
use plecto.Weighted.{ℤ_at, credit, debit, steps, weighted_schedule, sum}
use plecto.Weighted.Deficits.{one_sided, neg_sum-zero, pos_sum-zero}
use plecto.Weighted.Apportioned.{count, steps-Apportioned, start-Apportioned}

take-steps :
    (n m : ℕ) (ws : List ℕ) (total : ℕ) (d : List ℤ)
    → n ≤ m
    → take n (steps ws total d m) ≡ steps ws total d n
unfolding steps
take-steps zero m ws total d h = refl
take-steps (suc n) zero ws total d h = absurd (omega arith)
take-steps (suc n) (suc m) ws total d h =
    ap (λ rest. (credit ws 0 d 0).1 % 65536 ∷ rest)
      (take-steps n m ws total (debit total (credit ws 0 d 0)) (omega arith))

length-steps : (n : ℕ) (ws : List ℕ) (total : ℕ) (d : List ℤ) → length (steps ws total d n) ≡ n
unfolding steps
length-steps zero ws total d = refl
length-steps (suc n) ws total d = ap suc (length-steps n ws total (debit total (credit ws 0 d 0)))

pub length-weighted_schedule : (ws : List ℕ) → length (weighted_schedule ws) ≡ sum ws
unfolding weighted_schedule
length-weighted_schedule ws = length-steps (sum ws) ws (sum ws) (replicate (length ws) (pos 0))

-- For weights with a positive sum, at most 65536 of them: no backend is ever a whole pick ahead of its
-- share. Among the first `n` picks of the period backend `j` stands fewer than `n * weight / sum + 1`
-- times.
pub schedule_never_ahead :
    (ws : List ℕ) (n j : ℕ)
    → 0 < sum ws
    → length ws ≤ 65536
    → n ≤ sum ws
    → j < length ws
    → count j (take n (weighted_schedule ws)) * sum ws < n * get_or ws j 0 + sum ws
unfolding weighted_schedule
schedule_never_ahead ws n j p u h l =
    let (d, v) =
      steps-Apportioned n ws 0 (λ j. 0) (replicate (length ws) (pos 0)) p (omega arith) u
        (start-Apportioned ws p) in
    rw (take-steps n (sum ws) ws (sum ws) (replicate (length ws) (pos 0)) h)
      (omega (arith, v.balance j l, v.above j l))

mul_mono : (a b t : ℕ) → a ≤ b → a * t ≤ b * t
mul_mono a b t h = grind arith

-- A deficit after the whole period is a multiple of the total above minus it, so it is not negative.
no_debt : (c w t p n : ℕ) → (p ≡ 0) ⊎ (n ≡ 0) → n < t → p + c * t ≡ t * w + n → n ≡ 0
no_debt c w t p n (inr z) low e = z
no_debt c w t p n (inl z) low e = elim (dec_le c w) [
  | yes h ↦ omega (arith, mul_mono c w t h)
  | no h ↦ absurd (omega (arith, mul_mono (suc w) c t (omega arith)))
]

settled_count : (c w t : ℕ) → 0 < t → c * t ≡ t * w → c ≡ w
settled_count c w t p e = elim (dec_le c w) [
  | no h ↦ absurd (omega (arith, mul_mono (suc w) c t (omega arith)))
  | yes h ↦ elim (dec_le w c) [
    | yes k ↦ omega arith
    | no k ↦ absurd (omega (arith, mul_mono (suc c) w t (omega arith)))
  ]
]

-- For weights with a positive sum, at most 65536 of them: over its period, which is as long as the sum
-- of the weights, the schedule serves every backend exactly as often as its weight says.
pub schedule_proportional :
    (ws : List ℕ) (j : ℕ)
    → 0 < sum ws
    → length ws ≤ 65536
    → j < length ws
    → count j (weighted_schedule ws) ≡ get_or ws j 0
unfolding weighted_schedule
schedule_proportional ws j p u l =
    let (d, v) =
      steps-Apportioned (sum ws) ws 0 (λ j. 0) (replicate (length ws) (pos 0)) p (omega arith) u
        (start-Apportioned ws p) in
    let no_neg : ((i : ℕ) → i < length ws → neg_part (ℤ_at d i) ≡ 0) = λ i h.
      no_debt (count i (steps ws (sum ws) (replicate (length ws) (pos 0)) (sum ws))) (get_or ws i 0)
        (sum ws) _ _ (one_sided (ℤ_at d i)) (v.above i h) (omega (arith, v.balance i h)) in
    let no_pos : pos_part (ℤ_at d j) ≡ 0 =
      pos_sum-zero d j
        (v.settled ∙ neg_sum-zero d (λ i h. no_neg i (subst (λ m. i < m) v.same_length h))) in
    settled_count _ (get_or ws j 0) (sum ws) p (omega (arith, v.balance j l, no_pos, no_neg j l))
