-- ===== src/Forward/Turn.antt =====
-- What one turn of the loop does, and what a run of turns amounts to.
use plecto.Prelude.{
  ℕ, suc, ◌+◌, ◌≤◌, ◌≡◌, refl, Bool, true, false, List, [], ◌∷◌, ◌++◌, ◌⊎◌, inl, inr, Option, none,
  some, arith,
}
use plecto.Retry.{
  PerTryTimeout, bounded, overall_deadline_elapsed, should_attempt_retry, per_try_timeout,
}
use plecto.Forward.{
  overall_timeout, Env, Policy, Action, Answer, status, no_answer, error, send, record_outcome,
  record_passive_failure, retry, ForwardOutcome, resume, next_pick, finish_attempt, attempt, turn,
  outcome_of, signals, deadline_passed, settle,
}

-- The retries and the sends of a run.
abbrev pub retries : List Action → ℕ
retries [] = 0
retries (retry j ∷ rest) = suc (retries rest)
retries (send i b ∷ rest) = retries rest
retries (record_outcome i b ∷ rest) = retries rest
retries (record_passive_failure i ∷ rest) = retries rest

abbrev pub sends : List Action → ℕ
sends [] = 0
sends (send i b ∷ rest) = suc (sends rest)
sends (retry j ∷ rest) = sends rest
sends (record_outcome i b ∷ rest) = sends rest
sends (record_passive_failure i ∷ rest) = sends rest

-- A turn that goes on was allowed to.
pub next_pick-tries :
    (env : Env) (p : Policy) (n i : ℕ) (a : Answer) (tries_left j : ℕ)
    → next_pick env p n i a tries_left ≡ some j
    → should_attempt_retry
        (outcome_of a)
        p.method
        p.bodyless
        tries_left
        (deadline_passed p.overall_deadline (env.after n))
      ≡ true
unfolding next_pick
next_pick-tries env p n i a tries_left j h = ground arith

sends-append : (xs ys : List Action) → sends (xs ++ ys) ≡ sends xs + sends ys
sends-append [] ys = omega arith
sends-append (send i b ∷ xs) ys = omega (arith, sends-append xs ys)
sends-append (retry j ∷ xs) ys = sends-append xs ys
sends-append (record_outcome i b ∷ xs) ys = sends-append xs ys
sends-append (record_passive_failure i ∷ xs) ys = sends-append xs ys

retries-append : (xs ys : List Action) → retries (xs ++ ys) ≡ retries xs + retries ys
retries-append [] ys = omega arith
retries-append (retry j ∷ xs) ys = omega (arith, retries-append xs ys)
retries-append (send i b ∷ xs) ys = retries-append xs ys
retries-append (record_outcome i b ∷ xs) ys = retries-append xs ys
retries-append (record_passive_failure i ∷ xs) ys = retries-append xs ys

-- A turn as a sum: it settles, after at most one send and no retry, or it goes on to the instance that
-- the policy and the group gave for its answer, after one send and one retry.
abbrev pub Settled : List Action × (ForwardOutcome ⊎ ℕ) → Type 0
Settled r = (o : ForwardOutcome) × (r.1 ≡ inl o) × (sends r.0 ≤ 1) × (retries r.0 ≡ 0)

abbrev pub Retried : Env → Policy → ℕ → ℕ → ℕ → List Action × (ForwardOutcome ⊎ ℕ) → Type 0
Retried env p n i tries_left r =
    (j : ℕ) × (d : ℕ) × (r.1 ≡ inr j)
    × (next_pick env p n i (env.answer n i d) tries_left ≡ some j)
    × (sends r.0 ≡ 1)
    × (retries r.0 ≡ 1)

signals_none : (a : Answer) (i : ℕ) → (sends (signals a i) ≡ 0) × (retries (signals a i) ≡ 0)
signals_none (status s) i = (refl, refl)
signals_none no_answer i = (refl, refl)
signals_none (error true) i = (refl, refl)
signals_none (error false) i = (refl, refl)

timeout-cases : (t : PerTryTimeout) → (t ≡ overall_deadline_elapsed) ⊎ ((d : ℕ) × (t ≡ bounded d))
timeout-cases (bounded d) = inr (d, refl)
timeout-cases overall_deadline_elapsed = inl refl

finish-cases :
    (env : Env) (p : Policy) (n i tries_left d : ℕ) (has_body elapsed : Bool) (next : Option ℕ)
    → next_pick env p n i (env.answer n i d) tries_left ≡ next
    → Settled (finish_attempt p i has_body (env.answer n i d) elapsed next)
      ⊎ Retried env p n i tries_left (finish_attempt p i has_body (env.answer n i d) elapsed next)
unfolding finish_attempt
finish-cases env p n i tries_left d has_body elapsed none e =
    let none_of = signals_none (env.answer n i d) i in
    inl (settle (env.answer n i d) elapsed, refl, omega (arith, none_of.0), none_of.1)
finish-cases env p n i tries_left d has_body elapsed (some j) e =
    let none_of = signals_none (env.answer n i d) i in
    let acts = signals (env.answer n i d) i in
    inr (
      j,
      d,
      refl,
      e,
      omega (arith, none_of.0, sends-append acts (retry j ∷ [])),
      omega (arith, none_of.1, retries-append acts (retry j ∷ [])),
    )

pub turn-cases :
    (env : Env) (p : Policy) (n i tries_left : ℕ) (has_body : Bool)
    → Settled (turn env p n i tries_left has_body)
      ⊎ Retried env p n i tries_left (turn env p n i tries_left has_body)
unfolding turn attempt
turn-cases env p n i tries_left has_body =
    go (per_try_timeout p.overall_deadline p.per_try_bound (env.before n))
  where
    go :
        (t : PerTryTimeout)
        → Settled (attempt env p n i tries_left has_body t)
          ⊎ Retried env p n i tries_left (attempt env p n i tries_left has_body t)
    go (bounded d) = finish-cases env p n i tries_left d has_body _ _ refl
    go overall_deadline_elapsed = inl (overall_timeout, refl, omega arith, refl)

-- What a run of the loop amounts to.
abbrev pub Bounded : ℕ → Option (List Action × ForwardOutcome) → Type 0
Bounded tries r =
    (acts : List Action) × (o : ForwardOutcome) × (r ≡ some (acts, o))
    × (sends acts ≤ suc tries)
    × (retries acts ≤ tries)
    × (sends acts ≤ suc (retries acts))

pub resume-Settled :
    (r : List Action × (ForwardOutcome ⊎ ℕ)) (again : ℕ → Option (List Action × ForwardOutcome))
    (tries : ℕ)
    → Settled r
    → Bounded tries (resume r again)
unfolding resume
resume-Settled (acts, x) again tries (o, e, one, none_of) =
    rw e (acts, o, refl, omega (arith, one), omega (arith, none_of), omega (arith, one))

pub resume-retried :
    (r : List Action × (ForwardOutcome ⊎ ℕ)) (again : ℕ → Option (List Action × ForwardOutcome))
    (tries j : ℕ)
    → r.1 ≡ inr j
    → sends r.0 ≡ 1
    → retries r.0 ≡ 1
    → Bounded tries (again j)
    → Bounded (suc tries) (resume r again)
unfolding resume
resume-retried (acts, x) again tries j e one_send one_retry (more, o, run, s, t, u) =
    rw (e, run)
      (
        acts ++ more,
        o,
        refl,
        omega (arith, sends-append acts more, one_send, s),
        omega (arith, retries-append acts more, one_retry, t),
        omega (arith, sends-append acts more, retries-append acts more, one_send, one_retry, u),
      )
