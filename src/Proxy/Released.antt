-- ===== src/Proxy/Released.antt =====
-- The breaker's permit and the load guard of a pick are given back on every path.
use plecto.Prelude.{ℕ, ◌≡◌, ◌∙◌, refl, sym, ap, List, Option, none, some, Text, inl, inr}
use plecto.Route.{Header, normalize_path}
use plecto.Chain.{HttpRequest, ChainOutcome, respond, forward, dispatch_request}
use plecto.RateLimit.{RateLimitDecision, allow, limit}
use plecto.Weighted
use plecto.Upstream.{Heap}
use plecto.Upstream.Breaker.{RequestPermit, try_acquire, drop_permit}
use plecto.Upstream.Lb
use plecto.Upstream.Lb.{Pick, drop_pick, HashInput}
use plecto.Upstream.Lb.InFlight.{in_flight_of, pick-in_flight, pick-none, drop_pick-in_flight}
use plecto.Upstream.Lb.Load.{Countable, pick-drop}
use plecto.Forward.{Action, ForwardOutcome, forward_with_retry}
use plecto.Proxy.{RouteEntry, ProxyState, World, Reply, find_route}
use plecto.Proxy.Core.{
  proxy_core_inner, after_path, after_route, after_limit, after_chain, after_split, after_body,
  after_breaker, after_pick, sent, hand_over, admitted_request, check_rate_limit, body_hook,
  hash_input, policy_of,
}
use plecto.Proxy.HandOver.{hand_over-SameLoads, SameLoads-Countable}
use plecto.Proxy.Loads.{
  SameLoads, SameLoads-trans, CountableLoads, counted_up, restored, try_acquire-cases,
}

-- A pick that is dropped, or that found nothing.
abbrev after_drop : Option Pick × Heap → Heap
after_drop (none, h) = h
after_drop (some p, h) = drop_pick h p

pick-SameLoads :
    (h : Heap) (e : Lb.Env) (g : ℕ) (key : Option HashInput)
    → Countable h
    → (o : Option Pick × Heap) → Lb.pick h e g key ≡ o
    → SameLoads h (after_drop o)
pick-SameLoads h e g key few (none, h') f = (
  λ q. ap (λ o. in_flight_of o.1 q) (sym f) ∙ pick-in_flight h e g key q,
  λ p.
      ap (λ o. (o.1.instance_at p).in_flight) (sym f)
      ∙ ap (λ i. i.in_flight) (pick-none h e g key p (ap (λ o. o.0) f)),
)
pick-SameLoads h e g key few (some p, h') f = (
  λ q.
      drop_pick-in_flight h' p q
      ∙ (ap (λ o. in_flight_of o.1 q) (sym f) ∙ pick-in_flight h e g key q),
  λ q.
      ap (λ o. ((drop_pick o.1 p).instance_at q).in_flight) (sym f)
      ∙ ap (λ i. i.in_flight) (pick-drop h e g key p q few (ap (λ o. o.0) f)),
)

nothing_taken : (h : Heap) → SameLoads h h
nothing_taken h = (λ g. refl, λ p. refl)

-- The stages from the pick on, whose permit is `permit`: `later` is the heap before it is dropped.
after_pick-heap :
    (s : ProxyState) (r : RouteEntry) (w : World) (g : ℕ) (fwd : HttpRequest)
    (permit : RequestPermit) (o : Option Pick × Heap)
    → Countable (after_drop o)
    → (later : Heap) × SameLoads (after_drop o) later
      × ((after_pick s r w g fwd permit o).state.heap ≡ drop_permit later permit)
after_pick-heap s r w g fwd permit (none, h) few = (h, nothing_taken h, refl)
after_pick-heap s r w g fwd permit (some pick, h) few = settled (
    forward_with_retry w.attempts (policy_of (s.heap.group_at g) w fwd) pick.instance_ptr
      (s.heap.group_at g).max_retries)
  where
    settled :
        (o : Option (List Action × ForwardOutcome))
        → (later : Heap) × SameLoads (drop_pick h pick) later
          × ((sent (record s { heap = h }) r w g permit pick o).state.heap
              ≡ drop_permit later permit)
    settled none = (drop_pick h pick, nothing_taken (drop_pick h pick), refl)
    settled (some (actions, o)) =
        (hand_over h g pick actions, hand_over-SameLoads h g pick actions few, refl)

-- The stages from the pick on, from a heap whose loads are counted.
after_pick-SameLoads :
    (s : ProxyState) (r : RouteEntry) (w : World) (g : ℕ) (fwd : HttpRequest)
    (permit : RequestPermit) (h : Heap) (key : Option HashInput)
    → Countable h
    → (later : Heap) × SameLoads h later
      × ((after_pick s r w g fwd permit (Lb.pick h w.picks g key)).state.heap
          ≡ drop_permit later permit)
after_pick-SameLoads s r w g fwd permit h key few =
    let dropped = after_drop (Lb.pick h w.picks g key) in
    let same = pick-SameLoads h w.picks g key few _ refl in
    let (later, kept, e) =
      after_pick-heap s r w g fwd permit (Lb.pick h w.picks g key)
        (SameLoads-Countable h dropped same few) in
    (later, SameLoads-trans h dropped later same kept, e)

after_breaker-SameLoads :
    (s : ProxyState) (r : RouteEntry) (w : World) (g : ℕ) (fwd : HttpRequest)
    (headers : List Header)
    → CountableLoads s.heap
    → SameLoads s.heap (after_breaker s r w g fwd headers (try_acquire s.heap g)).state.heap
unfolding drop_permit
after_breaker-SameLoads s r w g fwd headers few = elim (try_acquire-cases s.heap g) [
  | inl e ↦
      let (later, same, f) =
        after_pick-SameLoads s r w g fwd (record { group = none }) s.heap key few.0 in
      rw e (rw f same)
  | inr (inl e) ↦ rw e (restored s.heap up g few (λ q. refl, λ p. refl))
  | inr (inr e) ↦
      let (later, same, f) =
        after_pick-SameLoads (record s { heap = up }) r w g fwd (record { group = some g }) up key
          few.0 in
      rw e (rw f (restored s.heap later g few same))
]
  where
    up : Heap
    up = counted_up s.heap g

    key : Option HashInput
    key = hash_input (s.heap.group_at g).hash_key w headers

-- On every path, errors, early answers and retries that hand the request over to other instances included: when
-- the core has answered, the breaker of every group and the load of every instance count exactly the
-- requests that they counted before. The counts are those of fewer than 2^64 - 1 requests.
pub loads_released :
    (s : ProxyState) (w : World) (q : HttpRequest)
    → CountableLoads s.heap
    → SameLoads s.heap (proxy_core_inner s w q).state.heap
unfolding proxy_core_inner
loads_released s w q few = by_path (normalize_path q.path)
  where
    by_body :
        (t : ProxyState) (r : RouteEntry) (fwd : HttpRequest) (g : ℕ)
        → CountableLoads t.heap
        → (o : Option Reply) → SameLoads t.heap (after_body t r w g fwd q.headers o).state.heap
    by_body t r fwd g few (some reply) = nothing_taken t.heap
    by_body t r fwd g few none = after_breaker-SameLoads t r w g fwd q.headers few

    by_split :
        (t : ProxyState) (r : RouteEntry) (fwd : HttpRequest)
        → CountableLoads t.heap
        → (o : Option ℕ) → SameLoads t.heap (after_split t r w fwd q.headers o).state.heap
    by_split t r fwd few none = nothing_taken t.heap
    by_split t r fwd few (some g) = by_body t r fwd g few (body_hook t r w)

    by_chain :
        (t : ProxyState) (i : ℕ) (r : RouteEntry)
        → CountableLoads t.heap
        → (o : ChainOutcome) → SameLoads t.heap (after_chain t i r w q.headers o).state.heap
    by_chain t i r few (respond resp) = nothing_taken t.heap
    by_chain t i r few (forward fwd) =
        by_split _ _ fwd few (Weighted.pick t.heap w.split_clock r.backends).0

    by_limit :
        (t : ProxyState) (i : ℕ) (r : RouteEntry) (q' : HttpRequest)
        → CountableLoads t.heap
        → (d : RateLimitDecision) → SameLoads t.heap (after_limit t i r w q' q.headers d).state.heap
    by_limit t i r q' few (limit ms) = nothing_taken t.heap
    by_limit t i r q' few allow = by_chain t i r few (dispatch_request t.filters r.filters q')

    by_route :
        (q' : HttpRequest) (o : Option (ℕ × RouteEntry))
        → SameLoads s.heap (after_route s w q' q.headers o).state.heap
    by_route q' none = nothing_taken s.heap
    by_route q' (some (i, r)) = by_limit _ i _ q' few (check_rate_limit r.rate_limit w).1

    by_path : (o : Option Text) → SameLoads s.heap (after_path s w q o).state.heap
    by_path none = nothing_taken s.heap
    by_path (some path) =
        by_route (admitted_request w q path) (find_route s (admitted_request w q path))
