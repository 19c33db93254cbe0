-- ===== src/Forward.antt =====
-- server/src/forward.rs: the send and retry loop. What an attempt meets (the clock before and after it
-- and the answer of the client), and the instance the group gives for a retry, are the environment,
-- one entry for each attempt; the group's state goes through `record_outcome` and
-- `record_passive_failure` of the trace.
pub mod Examples
pub mod Turn
pub mod Loop
use plecto.Prelude.{
  ℕ, zero, suc, ◌+◌, ◌-◌, Bool, true, false, List, [], ◌∷◌, ◌++◌, ◌&&◌, not, ◌⊎◌, inl, inr, Option,
  none, some, Text, if◌then◌else◌, leb,
}
use plecto.Retry.{
  AttemptOutcome, response, timed_out, failed, should_attempt_retry, is_retriable_5xx,
  per_try_timeout, PerTryTimeout, bounded, overall_deadline_elapsed,
}

-- What `client.request` under the timeout gives: a status, an error (whether of the connection), or
-- nothing within the timeout.
pub data Answer : Type 0 where
  status : ℕ → Answer
  no_answer : Answer
  error : Bool → Answer

-- Attempt `n`: the clock before and after it, the answer under a timeout, and the instance that
-- `pick_excluding` gives after it.
pub record Env : Type 0 where
  pub before : ℕ → ℕ
  pub after : ℕ → ℕ
  pub answer : ℕ → ℕ → ℕ → Answer
  pub alternate : ℕ → ℕ → Option ℕ

pub data ForwardOutcome : Type 0 where
  responded : ℕ → ForwardOutcome
  overall_timeout : ForwardOutcome
  per_try_timed_out : ForwardOutcome
  send_failed : Bool → ForwardOutcome

-- What the loop does to the group and the wire, in order.
pub data Action : Type 0 where
  send : ℕ → Bool → Action
  record_outcome : ℕ → Bool → Action
  record_passive_failure : ℕ → Action
  retry : ℕ → Action

pub record Policy : Type 0 where
  pub method : Text
  pub bodyless : Bool
  pub per_try_bound : ℕ
  pub overall_deadline : Option ℕ

abbrev pub deadline_passed : Option ℕ → ℕ → Bool
deadline_passed none now = false
deadline_passed (some d) now = leb d now

abbrev pub outcome_of : Answer → AttemptOutcome
outcome_of (status s) = response (is_retriable_5xx s)
outcome_of no_answer = timed_out
outcome_of (error c) = failed c

-- The health signals of an answer.
abbrev pub signals : Answer → ℕ → List Action
signals (status s) i = record_outcome i (is_retriable_5xx s) ∷ []
signals no_answer i = []
signals (error true) i = record_passive_failure i ∷ []
signals (error false) i = []

-- What the loop returns when it does not retry.
abbrev pub settle : Answer → Bool → ForwardOutcome
settle (status s) elapsed = responded s
settle no_answer true = overall_timeout
settle no_answer false = per_try_timed_out
settle (error c) elapsed = send_failed c

-- The instance of the retry, when the policy and the group both give one. `pick_excluding` is asked
-- only once the policy says yes.
unfoldable pub next_pick : Env → Policy → ℕ → ℕ → Answer → ℕ → Option ℕ
next_pick env p n i a tries_left =
    if should_attempt_retry (outcome_of a) p.method p.bodyless tries_left
      (deadline_passed p.overall_deadline (env.after n))
    then env.alternate n i
    else none

-- What follows an attempt: the outcome, or the instance of the retry.
unfoldable pub finish_attempt :
    Policy → ℕ → Bool → Answer → Bool → Option ℕ → List Action × (ForwardOutcome ⊎ ℕ)
finish_attempt p i has_body a elapsed none =
    (send i (not p.bodyless && has_body) ∷ signals a i, inl (settle a elapsed))
finish_attempt p i has_body a elapsed (some j) =
    (send i (not p.bodyless && has_body) ∷ signals a i ++ (retry j ∷ []), inr j)

unfoldable pub attempt :
    Env → Policy → ℕ → ℕ → ℕ → Bool → PerTryTimeout → List Action × (ForwardOutcome ⊎ ℕ)
attempt env p n i tries_left has_body overall_deadline_elapsed = ([], inl overall_timeout)
attempt env p n i tries_left has_body (bounded d) =
    let a = env.answer n i d in
    finish_attempt p i has_body a (deadline_passed p.overall_deadline (env.after n))
      (next_pick env p n i a tries_left)

-- One turn of the loop at attempt `n` on instance `i`: the actions, and the outcome or the next instance.
-- `has_body` says that the streamed body is still there to be taken.
unfoldable pub turn : Env → Policy → ℕ → ℕ → ℕ → Bool → List Action × (ForwardOutcome ⊎ ℕ)
turn env p n i tries_left has_body =
    attempt env p n i tries_left has_body
      (per_try_timeout p.overall_deadline p.per_try_bound (env.before n))

abbrev pub prepend_all :
    List Action → Option (List Action × ForwardOutcome) → Option (List Action × ForwardOutcome)
prepend_all acts none = none
prepend_all acts (some (rest, o)) = some (acts ++ rest, o)

unfoldable pub resume :
    List Action × (ForwardOutcome ⊎ ℕ)
    → (ℕ → Option (List Action × ForwardOutcome))
    → Option (List Action × ForwardOutcome)
resume (acts, inl o) again = some (acts, o)
resume (acts, inr j) again = prepend_all acts (again j)

-- The loop, on `fuel` turns; `none` when they run out. The body is taken by the first attempt.
unfoldable pub forward_loop :
    Env → Policy → ℕ → ℕ → ℕ → ℕ → Bool → Option (List Action × ForwardOutcome)
forward_loop env p zero n i tries_left has_body = none
forward_loop env p (suc fuel) n i tries_left has_body =
    resume (turn env p n i tries_left has_body)
      (λ j. forward_loop env p fuel (suc n) j (tries_left - 1) (p.bodyless && has_body))

-- `forward_with_retry`: `max_retries + 1` turns.
unfoldable pub forward_with_retry : Env → Policy → ℕ → ℕ → Option (List Action × ForwardOutcome)
forward_with_retry env p pick max_retries =
    forward_loop env p (suc max_retries) 0 pick max_retries true
