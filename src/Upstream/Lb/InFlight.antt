-- ===== src/Upstream/Lb/InFlight.antt =====
-- A pick, and the drop of a pick, leave the breaker's counters of all groups as they are.
use plecto.Prelude.{
  ℕ, ◌≡◌, refl, ap, Bool, Option, none, some, length, filter, ◌==◌, ==_iff, arith, Bool-cases,
  Option-cases, inl, inr,
}
use plecto.Maglev.{MaglevTable}
use plecto.Upstream.{Heap, LbState, round_robin, least_request, maglev}
use plecto.Upstream.Breaker.{increment}
use plecto.Upstream.Lb.{
  HashInput, Pick, Env, pick, pick_dispatch, drop_pick, round_robin_pick, least_request_pick,
  maglev_pick, meter, metered_pick, set_rr, is_eligible, eligibility_ctx, affinity, if_eligible,
}

-- The counter of group `g`.
abbrev pub in_flight_of : Heap → ℕ → ℕ
in_flight_of h g = (h.group_at g).in_flight

set_rr-in_flight : (h : Heap) (g n q : ℕ) → in_flight_of (set_rr h g n) q ≡ in_flight_of h q
set_rr-in_flight h g n q = elim (Bool-cases (g == q)) [
  | inl e ↦ rw (e, in_flight_of) (ap (λ g. in_flight_of h g) ((==_iff g q).0 e))
  | inr e ↦ rw (e, in_flight_of) refl
]

meter-in_flight :
    (h : Heap) (o : Option ℕ) (q : ℕ) → in_flight_of (meter h o).1 q ≡ in_flight_of h q
unfolding meter metered_pick
meter-in_flight h none q = refl
meter-in_flight h (some p) q = refl

round_robin-in_flight :
    (h : Heap) (later : ℕ → Bool) (g : ℕ) (exclude : Option ℕ) (clock q : ℕ)
    → in_flight_of (round_robin_pick h later g exclude clock).1 q ≡ in_flight_of h q
unfolding round_robin_pick
round_robin-in_flight h later g exclude clock q =
    let group = h.group_at g in
    elim (Bool-cases (
      length (filter (is_eligible h exclude (eligibility_ctx group clock)) group.instances) == 0)) [
        | inl e ↦ rw e refl
        | inr e ↦ rw e (set_rr-in_flight h g (increment group.rr) q)
      ]

least_request-in_flight :
    (h : Heap) (draw : ℕ → ℕ × ℕ) (g : ℕ) (exclude : Option ℕ) (clock q : ℕ)
    → in_flight_of (least_request_pick h draw g exclude clock).1 q ≡ in_flight_of h q
unfolding least_request_pick
least_request-in_flight h draw g exclude clock q =
    let group = h.group_at g in
    let n = length (filter (is_eligible h exclude (eligibility_ctx group clock)) group.instances) in
    elim (Bool-cases (n == 0)) [
      | inl e ↦ rw e refl
      | inr e ↦ elim (Bool-cases (n == 1)) [
        | inl f ↦ rw (e, f) (meter-in_flight h _ q)
        | inr f ↦ rw (e, f) (meter-in_flight h _ q)
      ]
    ]

maglev-in_flight :
    (h : Heap) (e : Env) (g : ℕ) (t : MaglevTable) (key : Option HashInput) (q : ℕ)
    → in_flight_of (maglev_pick h e.later g t none key e.clock).1 q ≡ in_flight_of h q
unfolding maglev_pick
maglev-in_flight h e g t key q = fallen_back (
    if_eligible (is_eligible h none (eligibility_ctx (h.group_at g) e.clock))
      (affinity t (h.group_at g).instances key))
  where
    fallen_back :
        (o : Option ℕ)
        → in_flight_of
            (elim o as (λ _. Option Pick × Heap) [
              | some p ↦ (some (record { instance_ptr = p; load = none }), h)
              | none ↦ round_robin_pick h e.later g none e.clock
            ]).1
            q
          ≡ in_flight_of h q
    fallen_back none = round_robin-in_flight h e.later g none e.clock q
    fallen_back (some p) = refl

pub pick-in_flight :
    (h : Heap) (e : Env) (g : ℕ) (key : Option HashInput) (q : ℕ)
    → in_flight_of (pick h e g key).1 q ≡ in_flight_of h q
unfolding pick pick_dispatch
pick-in_flight h e g key q = by_state (h.group_at g).lb
  where
    dispatch : LbState → Option Pick × Heap
    dispatch l = elim l [
      | round_robin ↦ round_robin_pick h e.later g none e.clock
      | least_request ↦ least_request_pick h e.draw g none e.clock
      | maglev t ↦ maglev_pick h e.later g t none key e.clock
    ]

    by_state : (l : LbState) → in_flight_of (dispatch l).1 q ≡ in_flight_of h q
    by_state round_robin = round_robin-in_flight h e.later g none e.clock q
    by_state least_request = least_request-in_flight h e.draw g none e.clock q
    by_state (maglev t) = maglev-in_flight h e g t key q

pub drop_pick-in_flight :
    (h : Heap) (p : Pick) (q : ℕ) → in_flight_of (drop_pick h p) q ≡ in_flight_of h q
unfolding drop_pick
drop_pick-in_flight h p q = elim (Option-cases p.load) [
  | inl e ↦ rw e refl
  | inr (i, e) ↦ rw e refl
]

-- A pick that finds no instance counts none.
meter-none :
    (h : Heap) (o : Option ℕ) (q : ℕ)
    → (meter h o).0 ≡ none
    → (meter h o).1.instance_at q ≡ h.instance_at q
unfolding meter
meter-none h none q e = refl
meter-none h (some p) q e = cc

least_request-none :
    (h : Heap) (e : Env) (g : ℕ) (q : ℕ)
    → (least_request_pick h e.draw g none e.clock).0 ≡ none
    → (least_request_pick h e.draw g none e.clock).1.instance_at q ≡ h.instance_at q
unfolding least_request_pick
least_request-none h e g q f = grind (arith, meter-none)

round_robin-none :
    (h : Heap) (e : Env) (g : ℕ) (q : ℕ)
    → (round_robin_pick h e.later g none e.clock).1.instance_at q ≡ h.instance_at q
unfolding round_robin_pick
round_robin-none h e g q = ground arith

maglev-none :
    (h : Heap) (e : Env) (g : ℕ) (t : MaglevTable) (key : Option HashInput) (q : ℕ)
    → (maglev_pick h e.later g t none key e.clock).1.instance_at q ≡ h.instance_at q
unfolding maglev_pick
maglev-none h e g t key q = ground (arith, round_robin-none h e g q)

pub pick-none :
    (h : Heap) (e : Env) (g : ℕ) (key : Option HashInput) (q : ℕ)
    → (pick h e g key).0 ≡ none
    → (pick h e g key).1.instance_at q ≡ h.instance_at q
unfolding pick pick_dispatch
pick-none h e g key q = by_state (h.group_at g).lb
  where
    dispatch : LbState → Option Pick × Heap
    dispatch l = elim l [
      | round_robin ↦ round_robin_pick h e.later g none e.clock
      | least_request ↦ least_request_pick h e.draw g none e.clock
      | maglev t ↦ maglev_pick h e.later g t none key e.clock
    ]

    by_state :
        (l : LbState) → (dispatch l).0 ≡ none → (dispatch l).1.instance_at q ≡ h.instance_at q
    by_state round_robin f = round_robin-none h e g q
    by_state least_request f = least_request-none h e g q f
    by_state (maglev t) f = maglev-none h e g t key q
