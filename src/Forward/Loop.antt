-- ===== src/Forward/Loop.antt =====
-- The loop ends within its retries, and what it sends and records is what the policy allows.
use plecto.Prelude.{
  ℕ, zero, suc, ◌-◌, ◌≤◌, ◌<◌, ◌≡◌, ◌∙◌, refl, sym, subst, Bool, true, false, List, ◌⊎◌, inl, inr,
  Option, some, arith, ◌&&◌,
}
use plecto.Retry.{is_idempotent, failed}
use plecto.Retry.Policy.{retry_safe, IsConnect}
use plecto.Forward.{
  Env, Policy, Action, Answer, status, no_answer, error, ForwardOutcome, resume, next_pick, turn,
  forward_loop, forward_with_retry, outcome_of,
}
use plecto.Forward.Turn.{
  retries, sends, next_pick-tries, Settled, turn-cases, Bounded, resume-Settled, resume-retried,
}

retried-tries :
    (env : Env) (p : Policy) (n i tries j d : ℕ)
    → next_pick env p n i (env.answer n i d) tries ≡ some j
    → 0 < tries
retried-tries env p n i tries j d go =
    let (replayable, left, in_time, why) =
      retry_safe _ p.method p.bodyless tries _ (next_pick-tries env p n i _ tries j go) in
    left

pred_suc : (n : ℕ) → suc n - 1 ≡ n
pred_suc n = omega arith

loop-Bounded :
    (env : Env) (p : Policy) (tries n i : ℕ) (has_body : Bool)
    → Bounded tries (forward_loop env p (suc tries) n i tries has_body)
unfolding forward_loop
loop-Bounded env p zero n i has_body = elim (turn-cases env p n i zero has_body) [
  | inl s ↦ resume-Settled _ _ zero s
  | inr (j, d, e, go, s, t) ↦ ground (arith, retried-tries env p n i 0 j d go)
]
loop-Bounded env p (suc tries) n i has_body = elim (turn-cases env p n i (suc tries) has_body) [
  | inl s ↦ resume-Settled _ _ (suc tries) s
  | inr (j, d, e, go, s, t) ↦ resume-retried _ _ tries j e s t (
      subst
        (λ left.
          Bounded tries (forward_loop env p (suc tries) (suc n) j left (p.bodyless && has_body)))
        (sym (pred_suc tries)) (loop-Bounded env p tries (suc n) j (p.bodyless && has_body)))
]

retried-bodyless :
    (env : Env) (p : Policy) (n i tries j d : ℕ)
    → next_pick env p n i (env.answer n i d) tries ≡ some j
    → p.bodyless ≡ true
retried-bodyless env p n i tries j d go =
    (retry_safe _ p.method p.bodyless tries _ (next_pick-tries env p n i _ tries j go)).0

unsafe_connect :
    (env : Env) (p : Policy) (n i tries j d : ℕ)
    → is_idempotent p.method ≡ false
    → next_pick env p n i (env.answer n i d) tries ≡ some j
    → outcome_of (env.answer n i d) ≡ failed true
unfolding IsConnect
unsafe_connect env p n i tries j d unsafe go =
    let (replayable, left, in_time, why) =
      retry_safe _ p.method p.bodyless tries _ (next_pick-tries env p n i _ tries j go) in
    elim why [ inl safe ↦ ground (arith, safe, unsafe) | inr c ↦ c ]

unreached : (a : Answer) → outcome_of a ≡ failed true → a ≡ error true
unreached (status s) e = ground (arith, e)
unreached no_answer e = ground (arith, e)
unreached (error c) e = ground (arith, e)

-- The loop ends within its `max_retries + 1` turns, whatever it meets: it returns an outcome after at most
-- `max_retries` retries and at most one send more than retries.
pub forward-ends :
    (env : Env) (p : Policy) (pick max_retries : ℕ)
    → (acts : List Action) × (o : ForwardOutcome) × (forward_with_retry env p pick max_retries
        ≡ some (acts, o))
      × (sends acts ≤ suc max_retries)
      × (retries acts ≤ max_retries)
      × (sends acts ≤ suc (retries acts))
unfolding forward_with_retry
forward-ends env p pick max_retries = loop-Bounded env p max_retries 0 pick true

-- A request with a body is sent once at most, and never retried: its body is streamed.
pub bodied_sent_once :
    (env : Env) (p : Policy) (pick max_retries : ℕ)
    → p.bodyless ≡ false
    → (acts : List Action) × (o : ForwardOutcome) × (forward_with_retry env p pick max_retries
        ≡ some (acts, o))
      × (sends acts ≤ 1)
      × (retries acts ≡ 0)
unfolding forward_with_retry forward_loop resume
bodied_sent_once env p pick max_retries bodied = elim (turn-cases env p 0 pick max_retries true) [
  | inl s ↦ settled _ _ s
  | inr (j, d, e, go, s, t) ↦
      ground (arith, bodied, retried-bodyless env p 0 pick max_retries j d go)
]
  where
    settled :
        (r : List Action × (ForwardOutcome ⊎ ℕ)) (again : ℕ → Option (List Action × ForwardOutcome))
        → Settled r
        → (acts : List Action) × (o : ForwardOutcome) × (resume r again ≡ some (acts, o))
          × (sends acts ≤ 1)
          × (retries acts ≡ 0)
    settled (acts, x) again (o, e, one, none_of) = rw e (acts, o, refl, one, none_of)

-- A turn that sends to the group again, with a method that is not idempotent, follows a failed connection:
-- the request had not reached an upstream.
pub retried_unreached :
    (env : Env) (p : Policy) (n i tries_left j : ℕ) (has_body : Bool)
    → is_idempotent p.method ≡ false
    → (turn env p n i tries_left has_body).1 ≡ inr j
    → (d : ℕ) × (env.answer n i d ≡ error true)
retried_unreached env p n i tries_left j has_body unsafe again =
    elim (turn-cases env p n i tries_left has_body) [
      | inl (o, e, one, none_of) ↦ ground (arith, sym again ∙ e)
      | inr (k, d, e, go, s, t) ↦
          (d, unreached _ (unsafe_connect env p n i tries_left k d unsafe go))
    ]
