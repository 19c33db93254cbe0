-- ===== src/Upstream/Lb/Retry.antt =====
-- The pick of a retry: `retry_pick` at the instance that `pick_excluding` chose is what it returns.
use plecto.Prelude.{ℕ, ◌≡◌, refl, ap, subst, Option, none, some, arith}
use plecto.Maglev.{MaglevTable}
use plecto.Upstream.{Heap, LbState, round_robin, least_request, maglev}
use plecto.Upstream.Lb.{
  HashInput, Pick, Env, pick_dispatch, pick_excluding, round_robin_pick, least_request_pick,
  maglev_pick, meter, metered_pick, unmetered_pick, retry_pick,
}

-- The pick and the instances that `o` has are those of `r`.
abbrev IsTaken : Pick → Heap → Pick × Heap → Type 0
IsTaken p h r = (r.0 ≡ p) × ((q : ℕ) → h.instance_at q ≡ r.1.instance_at q)

or_else : Pick → Option Pick → Pick
or_else p none = p
or_else p (some q) = q

meter-IsTaken :
    (h : Heap) (o : Option ℕ) (p : Pick)
    → (meter h o).0 ≡ some p
    → IsTaken p (meter h o).1 (metered_pick h p.instance_ptr)
unfolding meter metered_pick or_else
meter-IsTaken h none p e = ground arith
meter-IsTaken h (some r) p e =
    subst (λ p. IsTaken p (meter h (some r)).1 (metered_pick h p.instance_ptr)) (ap (or_else p) e)
      (refl, λ q. refl)

least_request-IsTaken :
    (h : Heap) (e : Env) (g : ℕ) (exclude : Option ℕ) (p : Pick)
    → let o = least_request_pick h e.draw g exclude e.clock in
      o.0 ≡ some p → IsTaken p o.1 (metered_pick h p.instance_ptr)
unfolding least_request_pick
least_request-IsTaken h e g exclude p f = grind (arith, meter-IsTaken)

round_robin-IsTaken :
    (h : Heap) (e : Env) (g : ℕ) (exclude : Option ℕ) (p : Pick)
    → let o = round_robin_pick h e.later g exclude e.clock in
      o.0 ≡ some p → IsTaken p o.1 (unmetered_pick p.instance_ptr, h)
unfolding round_robin_pick
round_robin-IsTaken h e g exclude p f = ground arith

maglev-IsTaken :
    (h : Heap) (e : Env) (g : ℕ) (t : MaglevTable) (exclude : Option ℕ) (key : Option HashInput)
    (p : Pick)
    → let o = maglev_pick h e.later g t exclude key e.clock in
      o.0 ≡ some p → IsTaken p o.1 (unmetered_pick p.instance_ptr, h)
unfolding maglev_pick
maglev-IsTaken h e g t exclude key p f = grind (arith, round_robin-IsTaken)

-- What a retry picks, and the loads it leaves, are those of `retry_pick` at the chosen instance.
pick_excluding-retry_pick :
    (h : Heap) (e : Env) (g exclude : ℕ) (key : Option HashInput) (p : Pick)
    → let o = pick_excluding h e g exclude key in
      o.0 ≡ some p → IsTaken p o.1 (retry_pick h g p.instance_ptr)
unfolding pick_excluding pick_dispatch retry_pick
pick_excluding-retry_pick h e g exclude key p = by_state (h.group_at g).lb
  where
    dispatch : LbState → Option Pick × Heap
    dispatch l = elim l [
      | round_robin ↦ round_robin_pick h e.later g (some exclude) e.clock
      | least_request ↦ least_request_pick h e.draw g (some exclude) e.clock
      | maglev t ↦ maglev_pick h e.later g t (some exclude) key e.clock
    ]

    taken : LbState → Pick × Heap
    taken l = elim l [
      | least_request ↦ metered_pick h p.instance_ptr
      | round_robin ↦ (unmetered_pick p.instance_ptr, h)
      | maglev t ↦ (unmetered_pick p.instance_ptr, h)
    ]

    by_state : (l : LbState) → (dispatch l).0 ≡ some p → IsTaken p (dispatch l).1 (taken l)
    by_state round_robin f = round_robin-IsTaken h e g (some exclude) p f
    by_state least_request f = least_request-IsTaken h e g (some exclude) p f
    by_state (maglev t) f = maglev-IsTaken h e g t (some exclude) key p f
