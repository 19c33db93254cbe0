-- ===== src/Bucket/Retry.antt =====
-- What a bucket says of its tokens, and what `Retry-After` promises.
use native.Mathlib.Nat.{mod-add-div', mod-lt, le_trans}
use native.Mathlib.Decide.{dec_le}
use plecto.Prelude.{
  ℕ, suc, ◌+◌, ◌-◌, ◌*◌, ◌/◌, ◌≤◌, ◌<◌, ◌≡◌, refl, true, false, Option, none, some, arith, u64_max,
  Bool-cases, inl, inr, leb, ap, div_ceil, saturating_mul,
}
use plecto.Bucket.{Bucket, no_refill, refill, consume, apply_bucket}

-- No consult leaves more than the capacity, whatever the stored state; `remaining` is what is left.
pub apply_bucket-capacity :
    (state : Option (ℕ × ℕ)) (cost : ℕ) (spec : Bucket) (now_ms : ℕ)
    → let (s, a) = apply_bucket state cost spec now_ms in
      (s.0 ≤ spec.capacity) × (a.remaining ≡ s.0)
unfolding apply_bucket consume refill
apply_bucket-capacity none cost spec now_ms = ground arith
apply_bucket-capacity (some s) cost spec now_ms = ground arith

-- Enough whole intervals for the missing tokens.
div_ceil-enough : (n d : ℕ) → 0 < d → n ≤ div_ceil n d * d
div_ceil-enough n d h = omega (arith, mod-add-div' (n + (d - 1)) d, mod-lt (n + (d - 1)) h)

mul_mono : (a b t : ℕ) → a ≤ b → a * t ≤ b * t
mul_mono a b t h = grind arith

le-div : (k n d : ℕ) → 0 < d → k * d ≤ n → k ≤ n / d
le-div k n d h e = elim (dec_le k (n / d)) [
  | yes l ↦ l
  | no l ↦
      absurd (omega (arith, mul_mono (suc (n / d)) k d (omega arith), mod-add-div' n d, mod-lt n h))
]

-- After as many intervals as the missing tokens take, the tokens are there.
refilled :
    (tokens last cost : ℕ) (spec : Bucket) (later : ℕ)
    → last + div_ceil (cost - tokens) spec.refill_tokens * spec.refill_interval_ms ≤ later
    → cost ≤ spec.capacity
    → spec.capacity ≤ u64_max
    → no_refill spec ≡ false
    → cost ≤ (refill (some (tokens, last)) spec later).0
unfolding refill
refilled tokens last cost spec later wait fits word refills = rw refills (omega (arith, gained))
  where
    intervals : ℕ
    intervals = (later - last) / spec.refill_interval_ms

    interval_pos : 0 < spec.refill_interval_ms
    interval_pos = ground arith

    tokens_pos : 0 < spec.refill_tokens
    tokens_pos = ground arith

    gained : cost - tokens ≤ intervals * spec.refill_tokens
    gained = le_trans (div_ceil-enough (cost - tokens) spec.refill_tokens tokens_pos) (
        mul_mono (div_ceil (cost - tokens) spec.refill_tokens) intervals spec.refill_tokens (
          le-div (div_ceil (cost - tokens) spec.refill_tokens) (later - last)
            spec.refill_interval_ms interval_pos (omega arith)))

granted :
    (cost : ℕ) (spec : Bucket) (r : ℕ × ℕ) → cost ≤ r.0 → (consume cost spec r).1.allowed ≡ true
unfolding consume
granted cost spec (tokens, last) h = ground arith

denied_parts :
    (cost : ℕ) (spec : Bucket) (r : ℕ × ℕ)
    → (consume cost spec r).1.allowed ≡ false
    → no_refill spec ≡ false
    → ((consume cost spec r).0 ≡ r)
      × ((consume cost spec r).1.retry_after_ms
          ≡ saturating_mul u64_max
              (div_ceil (cost - r.0) spec.refill_tokens)
              spec.refill_interval_ms)
unfolding consume
denied_parts cost spec (tokens, last) h refills = elim (Bool-cases (leb cost tokens)) [
  | inl e ↦ absurd (ground arith)
  | inr e ↦ rw (e, refills) (refl, refl)
]

-- A denied consult keeps its promise: if nobody else uses the bucket, the clock has moved on by
-- `retry_after_ms` at least, and the bucket can hold the cost, then the same consult is granted. The
-- bucket refills, its mark is not ahead of the clock, and the hint is short of the largest u64.
pub retry_after_granted :
    (state : Option (ℕ × ℕ)) (cost : ℕ) (spec : Bucket) (now_ms later : ℕ)
    → (apply_bucket state cost spec now_ms).1.allowed ≡ false
    → (apply_bucket state cost spec now_ms).0.1 ≤ now_ms
    → now_ms + (apply_bucket state cost spec now_ms).1.retry_after_ms ≤ later
    → (apply_bucket state cost spec now_ms).1.retry_after_ms < u64_max
    → cost ≤ spec.capacity
    → spec.capacity ≤ u64_max
    → no_refill spec ≡ false
    → (apply_bucket (some (apply_bucket state cost spec now_ms).0) cost spec later).1.allowed ≡ true
unfolding apply_bucket
retry_after_granted state cost spec now_ms later denied mark wait small fits word refills =
    let (same, hint) = denied_parts cost spec (refill state spec now_ms) denied refills in
    granted cost spec _ (
      rw same (
        refilled (refill state spec now_ms).0 (refill state spec now_ms).1 cost spec later
          (omega (arith, hint, ap (λ (s : ℕ × ℕ). s.1) same)) fits word refills))
