-- ===== src/Proxy/HandOver.antt =====
-- The picks of the forward loop: each retry takes the next pick before it drops the one in hand.
use plecto.Prelude.{
  ℕ, suc, ◌<◌, ◌≡◌, ◌∙◌, refl, sym, subst, List, [], ◌∷◌, Option, none, some, arith, u64_mod,
}
use plecto.Upstream.{Heap, LbState, round_robin, least_request, maglev}
use plecto.Upstream.Breaker.{increment, decrement}
use plecto.Upstream.Lb.{Pick, drop_pick, retry_pick, metered_pick, unmetered_pick}
use plecto.Upstream.Lb.InFlight.{in_flight_of, drop_pick-in_flight}
use plecto.Upstream.Lb.Load.{Countable}
use plecto.Forward.{Action, send, record_outcome, record_passive_failure, retry}
use plecto.Proxy.Core.{hand_over}
use plecto.Proxy.Loads.{SameLoads, SameLoads-trans}

-- The heap once `next`, taken at heap `h`, has replaced `pick`, and is dropped.
abbrev exchanged : Pick → Pick × Heap → Heap
exchanged pick (next, h) = drop_pick (drop_pick h pick) next

again : (n : ℕ) → decrement (decrement (increment n)) ≡ decrement n
again n = omega arith

abbrev holding : ℕ → Option ℕ → Pick
holding i l = record { instance_ptr = i; load = l }

metered_exchanged :
    (h : Heap) (i j q : ℕ) (l : Option ℕ)
    → Countable (drop_pick h (holding i l))
    → ((exchanged (holding i l) (metered_pick h j)).instance_at q).in_flight
      ≡ ((drop_pick h (holding i l)).instance_at q).in_flight
unfolding drop_pick metered_pick
metered_exchanged h i j q none few = ground (arith, few j)
metered_exchanged h i j q (some p) few = ground (arith, few j, again (h.instance_at p).in_flight)

metered-in_flight : (h : Heap) (j q : ℕ) → in_flight_of (metered_pick h j).1 q ≡ in_flight_of h q
unfolding metered_pick
metered-in_flight h j q = refl

exchanged-in_flight :
    (pick : Pick) (o : Pick × Heap) (q : ℕ) → in_flight_of (exchanged pick o) q ≡ in_flight_of o.1 q
exchanged-in_flight pick (next, h) q =
    drop_pick-in_flight (drop_pick h pick) next q ∙ drop_pick-in_flight h pick q

retry_pick-SameLoads :
    (h : Heap) (g : ℕ) (pick : Pick) (j : ℕ)
    → Countable (drop_pick h pick)
    → SameLoads (drop_pick h pick) (exchanged pick (retry_pick h g j))
unfolding retry_pick drop_pick
retry_pick-SameLoads h g pick j few = by_state (h.group_at g).lb
  where
    taken : LbState → Pick × Heap
    taken l = elim l [
      | least_request ↦ metered_pick h j
      | round_robin ↦ (unmetered_pick j, h)
      | maglev table ↦ (unmetered_pick j, h)
    ]

    unmetered : SameLoads (drop_pick h pick) (drop_pick (drop_pick h pick) (unmetered_pick j))
    unmetered = (λ q. refl, λ q. refl)

    by_state : (l : LbState) → SameLoads (drop_pick h pick) (exchanged pick (taken l))
    by_state round_robin = unmetered
    by_state (maglev table) = unmetered
    by_state least_request = (
      λ q.
          exchanged-in_flight pick (metered_pick h j) q
          ∙ (metered-in_flight h j q ∙ sym (drop_pick-in_flight h pick q)),
      λ q. metered_exchanged h pick.instance_ptr j q pick.load few,
    )

pub SameLoads-Countable : (h k : Heap) → SameLoads h k → Countable h → Countable k
SameLoads-Countable h k (groups, loads) few q = subst (λ n. suc n < u64_mod) (sym (loads q)) (few q)

-- However the forward loop retries, what is left when it returns is what dropping the first pick leaves.
pub hand_over-SameLoads :
    (h : Heap) (g : ℕ) (pick : Pick) (actions : List Action)
    → Countable (drop_pick h pick)
    → SameLoads (drop_pick h pick) (hand_over h g pick actions)
unfolding hand_over
hand_over-SameLoads h g pick [] few = (λ q. refl, λ q. refl)
hand_over-SameLoads h g pick (retry j ∷ actions) few =
    let (next, later) = retry_pick h g j in
    let same = retry_pick-SameLoads h g pick j few in
    SameLoads-trans (drop_pick h pick) (drop_pick (drop_pick later pick) next)
      (hand_over (drop_pick later pick) g next actions) same
      (hand_over-SameLoads (drop_pick later pick) g next actions
        (SameLoads-Countable (drop_pick h pick) (drop_pick (drop_pick later pick) next) same few))
hand_over-SameLoads h g pick (send i has_body ∷ actions) few =
    hand_over-SameLoads h g pick actions few
hand_over-SameLoads h g pick (record_outcome i failure ∷ actions) few =
    hand_over-SameLoads h g pick actions few
hand_over-SameLoads h g pick (record_passive_failure i ∷ actions) few =
    hand_over-SameLoads h g pick actions few
