-- ===== src/Bucket.antt =====
-- host/src/backend.rs: the token bucket. Tokens, clocks and rates are u64 values.
pub mod Rate
pub mod Retry
use plecto.Prelude.{
  ℕ, ◌+◌, ◌-◌, ◌*◌, ◌/◌, Bool, true, false, ◌||◌, Option, none, some, min, saturating_add,
  saturating_mul, div_ceil, u64_max, if◌then◌else◌, leb, ◌==◌,
}

pub record Bucket : Type 0 where
  pub capacity : ℕ
  pub refill_tokens : ℕ
  pub refill_interval_ms : ℕ

pub record Acquire : Type 0 where
  pub allowed : Bool
  pub remaining : ℕ
  pub retry_after_ms : ℕ

abbrev pub no_refill : Bucket → Bool
no_refill spec = spec.refill_interval_ms == 0 || spec.refill_tokens == 0

-- The tokens and the refill mark as of `now_ms`.
unfoldable pub refill : Option (ℕ × ℕ) → Bucket → ℕ → ℕ × ℕ
refill none spec now_ms = (spec.capacity, now_ms)
refill (some (tokens, last)) spec now_ms =
    let intervals = (now_ms - last) / spec.refill_interval_ms in
    let gained = saturating_mul u64_max intervals spec.refill_tokens in
    let advance = saturating_mul u64_max intervals spec.refill_interval_ms in
    if no_refill spec then (min tokens spec.capacity, last) else (
      min (saturating_add u64_max tokens gained) spec.capacity,
      saturating_add u64_max last advance,
    )

abbrev pub retry_after : Bucket → ℕ → ℕ → ℕ
retry_after spec cost tokens =
    if no_refill spec
    then u64_max
    else saturating_mul u64_max (div_ceil (cost - tokens) spec.refill_tokens)
        spec.refill_interval_ms

unfoldable pub consume : ℕ → Bucket → ℕ × ℕ → (ℕ × ℕ) × Acquire
consume cost spec (tokens, last_refill) =
    if leb cost tokens
    then (
      (tokens - cost, last_refill),
      record { allowed = true; remaining = tokens - cost; retry_after_ms = 0 },
    )
    else (
      (tokens, last_refill),
      record { allowed = false; remaining = tokens; retry_after_ms = retry_after spec cost tokens },
    )

unfoldable pub apply_bucket : Option (ℕ × ℕ) → ℕ → Bucket → ℕ → (ℕ × ℕ) × Acquire
apply_bucket state cost spec now_ms = consume cost spec (refill state spec now_ms)
