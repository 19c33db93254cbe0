-- ===== src/Forward/Examples.antt =====
-- The retry decisions and the loop in a small environment.
use plecto.Prelude.{ℕ, zero, suc, ◌≤◌, ◌≡◌, inr, refl, Bool, true, false, List, none, some, bytes}
use plecto.Retry.{
  response, is_idempotent, should_attempt_retry, may_retry, classify, per_try_timeout, bounded,
}
use plecto.Forward.{
  Env, Policy, Action, Answer, status, error, ForwardOutcome, forward_with_retry, turn, attempt,
  finish_attempt, next_pick,
}
use plecto.Forward.Loop.{forward-ends}
use plecto.Forward.Turn.{sends, retries}

get_retried : should_attempt_retry (response true) (bytes "GET") true 1 false ≡ true
unfolding should_attempt_retry may_retry is_idempotent classify
get_retried = refl

clipped : per_try_timeout (some 900) 500 700 ≡ bounded 200
unfolding per_try_timeout
clipped = refl

-- The connection to instance 0 fails; instance 1 answers 200.
abbrev answers : ℕ → ℕ → ℕ → Answer
answers n zero d = error true
answers n (suc i) d = status 200

abbrev env : Env
env = record { before = λ n. 0; after = λ n. 0; answer = answers; alternate = λ n i. some 1 }

abbrev post : Bool → Policy
post bodyless = record {
  method = bytes "POST";
  bodyless = bodyless;
  per_try_bound = 1000;
  overall_deadline = none;
}

forward-ends_example :
    (acts : List Action) × (o : ForwardOutcome) × (forward_with_retry env (post true) 0 2
      ≡ some (acts, o))
    × (sends acts ≤ 3)
    × (retries acts ≤ 2)
    × (sends acts ≤ suc (retries acts))
forward-ends_example = forward-ends env (post true) 0 2

post_unsafe : is_idempotent (bytes "POST") ≡ false
unfolding is_idempotent
post_unsafe = refl

post_moved : (turn env (post true) 0 0 2 true).1 ≡ inr 1
unfolding turn attempt finish_attempt next_pick per_try_timeout should_attempt_retry may_retry
    classify
post_moved = refl
