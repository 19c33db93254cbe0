-- ===== src/Retry/Policy.antt =====
-- What the retry decisions promise.
use plecto.Prelude.{ℕ, ◌+◌, ◌≤◌, ◌<◌, ◌≡◌, ◌⊎◌, Bool, true, false, some, Text, arith}
use plecto.Retry.{
  AttemptOutcome, response, timed_out, failed, is_idempotent, may_retry, should_attempt_retry,
  classify, backoff_ceiling, jitter, backoff, backoff_cap_ms, bounded, per_try_timeout,
}

-- The attempt never reached the upstream.
unfoldable pub IsConnect : AttemptOutcome → Type 0
IsConnect o = o ≡ failed true

-- A retry is decided only for a request without a body, with a try left, before the overall deadline,
-- and only when the method is idempotent or the failed attempt never reached the upstream.
pub retry_safe :
    (o : AttemptOutcome) (method : Text) (bodyless : Bool) (tries_left : ℕ) (elapsed : Bool)
    → should_attempt_retry o method bodyless tries_left elapsed ≡ true
    → (bodyless ≡ true)
      × (0 < tries_left)
      × (elapsed ≡ false)
      × ((is_idempotent method ≡ true) ⊎ IsConnect o)
unfolding should_attempt_retry may_retry classify IsConnect
retry_safe (response r) method bodyless tries_left elapsed h = ground arith
retry_safe timed_out method bodyless tries_left elapsed h = ground arith
retry_safe (failed c) method bodyless tries_left elapsed h = ground arith

-- A wait before a retry is at most 250 ms.
pub backoff-bound : (entropy attempt : ℕ) → backoff entropy attempt ≤ backoff_cap_ms
unfolding backoff jitter backoff_ceiling
backoff-bound entropy attempt = ground arith

-- With an overall deadline the timeout of a try that starts is positive and ends by the deadline.
pub per_try_timeout-deadline :
    (deadline bound now d : ℕ)
    → per_try_timeout (some deadline) bound now ≡ bounded d
    → (0 < d) × (now + d ≤ deadline)
unfolding per_try_timeout
per_try_timeout-deadline deadline bound now d h = ground arith
