-- ===== src/Retry.antt =====
-- server/src/retry.rs: the retry, backoff and timeout decisions. Times and durations are
-- milliseconds; the entropy of the jitter is an argument.
pub mod Policy
use plecto.Prelude.{
  ℕ, ◌+◌, ◌-◌, ◌*◌, ◌/◌, ◌%◌, ◌^◌, Bool, true, false, ◌&&◌, ◌||◌, List, [], ◌∷◌, Option, none, some,
  Text, bytes, text_eq, any, min, saturating_mul, u64_max, if◌then◌else◌, leb, ltb, ◌==◌,
}

pub data Failure : Type 0 where
  timeout connect : Failure

abbrev pub idempotent_methods : List Text
idempotent_methods =
    bytes "GET" ∷ bytes "HEAD" ∷ bytes "PUT" ∷ bytes "DELETE" ∷ bytes "OPTIONS" ∷ bytes "TRACE" ∷ []

unfoldable pub is_idempotent : Text → Bool
is_idempotent method = any (text_eq method) idempotent_methods

unfoldable pub may_retry : Failure → Text → Bool → ℕ → Bool
may_retry failure method bodyless tries_left =
    bodyless && ltb 0 tries_left && elim failure [ timeout ↦ is_idempotent method | connect ↦ true ]

unfoldable pub is_retriable_5xx : ℕ → Bool
is_retriable_5xx status = leb 502 status && leb status 504

abbrev backoff_base_ms : ℕ
backoff_base_ms = 25

abbrev pub backoff_cap_ms : ℕ
backoff_cap_ms = 250

pub backoff_ceiling : ℕ → ℕ
backoff_ceiling attempt =
    min (saturating_mul u64_max backoff_base_ms (2 ^ min attempt 16)) backoff_cap_ms

pub jitter : ℕ → ℕ → ℕ
jitter entropy ceiling_ms = if ceiling_ms == 0 then 0 else entropy % (ceiling_ms + 1)

pub backoff : ℕ → ℕ → ℕ
backoff entropy attempt = jitter entropy (backoff_ceiling attempt)

pub data PerTryTimeout : Type 0 where
  bounded : ℕ → PerTryTimeout
  overall_deadline_elapsed : PerTryTimeout

unfoldable pub per_try_timeout : Option ℕ → ℕ → ℕ → PerTryTimeout
per_try_timeout none per_try_bound now = bounded per_try_bound
per_try_timeout (some deadline) per_try_bound now =
    let remaining = deadline - now in
    if leb deadline now
    then overall_deadline_elapsed
    else bounded (if per_try_bound == 0 then remaining else min per_try_bound remaining)

pub data AttemptOutcome : Type 0 where
  response : Bool → AttemptOutcome
  timed_out : AttemptOutcome
  failed : Bool → AttemptOutcome

-- Whether the outcome can be retried, and as which failure.
unfoldable pub classify : AttemptOutcome → Bool × Failure
classify (response retriable_5xx) = (retriable_5xx, timeout)
classify timed_out = (true, timeout)
classify (failed is_connect) = (is_connect, connect)

unfoldable pub should_attempt_retry : AttemptOutcome → Text → Bool → ℕ → Bool → Bool
should_attempt_retry outcome method bodyless tries_left overall_elapsed =
    let (retryable, failure) = classify outcome in
    if overall_elapsed then false else retryable && may_retry failure method bodyless tries_left
