-- ===== src/Proxy/Guards.antt =====
-- Nothing goes upstream unless every guard in front of it let the request through.
use plecto.Prelude.{ℕ, ◌≡◌, ◌≢◌, refl, sym, List, [], Option, none, some, Text}
use plecto.Route.{Header, normalize_path}
use plecto.Chain.{HttpRequest, ChainOutcome, respond, forward, dispatch_request}
use plecto.RateLimit.{RateLimitDecision, allow, limit}
use plecto.Weighted
use plecto.Upstream.{Heap}
use plecto.Upstream.Breaker.{RequestPermit, try_acquire}
use plecto.Upstream.Lb
use plecto.Upstream.Lb.{Pick}
use plecto.Proxy.{RouteEntry, ProxyState, World, Reply, Outcome, find_route}
use plecto.Proxy.Core.{
  proxy_core_inner, after_path, after_route, after_limit, after_chain, after_split, after_body,
  after_breaker, after_pick, admitted_request, check_rate_limit, body_hook, hash_input, put_route,
}

abbrev Sends : Outcome → Type 0
Sends o = o.actions ≢ []

-- What has let a request through: a safe path, a route, the limiter, every filter of the chain, a
-- group with an eligible instance, the body hook, the breaker, and an eligible instance at last.
pub record Passed (s : ProxyState) (w : World) (q : HttpRequest) : Type 0 where
  pub path : Text
  pub index : ℕ
  pub entry : RouteEntry
  pub forwarded : HttpRequest
  pub group : ℕ
  pub permit : RequestPermit
  pub pick : Pick
  pub heap : Heap
  pub path_is_safe : normalize_path q.path ≡ some path
  pub routed : find_route s (admitted_request w q path) ≡ some (index, entry)
  pub within_limit : (check_rate_limit entry.rate_limit w).1 ≡ allow
  pub chain_forwards :
      dispatch_request s.filters entry.filters (admitted_request w q path) ≡ forward forwarded
  pub split : (Weighted.pick s.heap w.split_clock entry.backends).0 ≡ some group
  pub body_accepted : body_hook s entry w ≡ none
  pub acquired : try_acquire s.heap group ≡ (some permit, heap)
  pub picked :
      (Lb.pick heap w.picks group (hash_input (s.heap.group_at group).hash_key w q.headers)).0
      ≡ some pick

-- Once a request reaches a stage with an outcome that sends, the stage let it through. From the last stage
-- to the first.
passed_breaker :
    (s : ProxyState) (r : RouteEntry) (w : World) (g : ℕ) (fwd : HttpRequest)
    (headers : List Header) (p : Option RequestPermit × Heap)
    → Sends (after_breaker s r w g fwd headers p)
    → (permit : RequestPermit) × (h : Heap) × (pick : Pick) × (p ≡ (some permit, h))
      × ((Lb.pick h w.picks g (hash_input (s.heap.group_at g).hash_key w headers)).0 ≡ some pick)
passed_breaker s r w g fwd headers (none, h) sends = absurd (sends refl)
passed_breaker s r w g fwd headers (some permit, h) sends =
    picked (Lb.pick h w.picks g (hash_input (s.heap.group_at g).hash_key w headers)) refl sends
  where
    picked :
        (o : Option Pick × Heap)
        → Lb.pick h w.picks g (hash_input (s.heap.group_at g).hash_key w headers) ≡ o
        → Sends (after_pick (record s { heap = h }) r w g fwd permit o)
        → (permit' : RequestPermit) × (h' : Heap) × (pick : Pick) × (◌≡◌
            {A = Option RequestPermit × Heap}
            (some permit, h)
            (some permit', h'))
          × ((Lb.pick h' w.picks g (hash_input (s.heap.group_at g).hash_key w headers)).0
              ≡ some pick)
    picked (none, h') e sends = absurd (sends refl)
    picked (some pick, h') e sends = (permit, h, pick, refl, rw e refl)

-- A request that sends anything upstream has a path that normalizes, matches a route, is within the
-- route's rate limit, was forwarded by every filter of the route's chain and by its body hook, and holds a permit of
-- the breaker and a pick of the group that the split chose. In every other case nothing is sent.
pub sends-guarded :
    (s : ProxyState) (w : World) (q : HttpRequest)
    → (proxy_core_inner s w q).actions ≢ []
    → Passed s w q
unfolding proxy_core_inner body_hook
sends-guarded s w q sends = by_path (normalize_path q.path) refl sends
  where
    by_body :
        (path : Text) (i : ℕ) (r : RouteEntry) (fwd : HttpRequest) (g : ℕ) (t : ProxyState)
        (r' : RouteEntry)
        → t.heap ≡ s.heap
        → normalize_path q.path ≡ some path
        → find_route s (admitted_request w q path) ≡ some (i, r)
        → (check_rate_limit r.rate_limit w).1 ≡ allow
        → dispatch_request s.filters r.filters (admitted_request w q path) ≡ forward fwd
        → (Weighted.pick s.heap w.split_clock r.backends).0 ≡ some g
        → (o : Option Reply) → body_hook s r w ≡ o
        → Sends (after_body t r' w g fwd q.headers o)
        → Passed s w q
    by_body path i r fwd g t r' same e1 e2 e3 e4 e5 (some reply) e6 sends = absurd (sends refl)
    by_body path i r fwd g t r' same e1 e2 e3 e4 e5 none e6 sends =
        let (permit, h, pick, acquired, picked) =
          passed_breaker t r' w g fwd q.headers (try_acquire t.heap g) sends in
        record {
          path = path;
          index = i;
          entry = r;
          forwarded = fwd;
          group = g;
          permit = permit;
          pick = pick;
          heap = h;
          path_is_safe = e1;
          routed = e2;
          within_limit = e3;
          chain_forwards = e4;
          split = e5;
          body_accepted = e6;
          acquired = rw (sym same) acquired;
          picked = rw (sym same) picked;
        }

    by_split :
        (path : Text) (i : ℕ) (r : RouteEntry) (fwd : HttpRequest) (t : ProxyState)
        (r' : RouteEntry)
        → t.heap ≡ s.heap
        → body_hook t r' w ≡ body_hook s r w
        → normalize_path q.path ≡ some path
        → find_route s (admitted_request w q path) ≡ some (i, r)
        → (check_rate_limit r.rate_limit w).1 ≡ allow
        → dispatch_request s.filters r.filters (admitted_request w q path) ≡ forward fwd
        → (g : Option ℕ) → (Weighted.pick s.heap w.split_clock r.backends).0 ≡ g
        → Sends (after_split t r' w fwd q.headers g)
        → Passed s w q
    by_split path i r fwd t r' same hook e1 e2 e3 e4 none e5 sends = absurd (sends refl)
    by_split path i r fwd t r' same hook e1 e2 e3 e4 (some g) e5 sends =
        by_body path i r fwd g t r' same e1 e2 e3 e4 e5 (body_hook t r' w) (sym hook) sends

    limited : RouteEntry → RouteEntry
    limited r = record r { rate_limit = (check_rate_limit r.rate_limit w).0 }

    rotated : RouteEntry → RouteEntry
    rotated r = record (limited r) { backends = (Weighted.pick s.heap w.split_clock r.backends).1 }

    by_chain :
        (path : Text) (i : ℕ) (r : RouteEntry)
        → normalize_path q.path ≡ some path
        → find_route s (admitted_request w q path) ≡ some (i, r)
        → (check_rate_limit r.rate_limit w).1 ≡ allow
        → (o : ChainOutcome) → dispatch_request s.filters r.filters (admitted_request w q path) ≡ o
        → Sends (after_chain (put_route s i (limited r)) i (limited r) w q.headers o)
        → Passed s w q
    by_chain path i r e1 e2 e3 (respond resp) e4 sends = absurd (sends refl)
    by_chain path i r e1 e2 e3 (forward fwd) e4 sends =
        by_split path i r fwd (put_route (put_route s i (limited r)) i (rotated r)) (rotated r) refl
          refl e1 e2 e3 e4 (Weighted.pick s.heap w.split_clock r.backends).0 refl sends

    by_limit :
        (path : Text) (i : ℕ) (r : RouteEntry)
        → normalize_path q.path ≡ some path
        → find_route s (admitted_request w q path) ≡ some (i, r)
        → (d : RateLimitDecision) → (check_rate_limit r.rate_limit w).1 ≡ d
        → Sends (
            after_limit
              (put_route s i (limited r))
              i
              (limited r)
              w
              (admitted_request w q path)
              q.headers
              d)
        → Passed s w q
    by_limit path i r e1 e2 (limit ms) e3 sends = absurd (sends refl)
    by_limit path i r e1 e2 allow e3 sends =
        by_chain path i r e1 e2 e3
          (dispatch_request s.filters r.filters (admitted_request w q path)) refl sends

    by_route :
        (path : Text)
        → normalize_path q.path ≡ some path
        → (o : Option (ℕ × RouteEntry)) → find_route s (admitted_request w q path) ≡ o
        → Sends (after_route s w (admitted_request w q path) q.headers o)
        → Passed s w q
    by_route path e1 none e2 sends = absurd (sends refl)
    by_route path e1 (some (i, r)) e2 sends =
        by_limit path i r e1 e2 (check_rate_limit r.rate_limit w).1 refl sends

    by_path :
        (o : Option Text) → normalize_path q.path ≡ o → Sends (after_path s w q o) → Passed s w q
    by_path none e sends = absurd (sends refl)
    by_path (some path) e sends =
        by_route path e (find_route s (admitted_request w q path)) refl sends
