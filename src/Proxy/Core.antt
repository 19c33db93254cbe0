-- ===== src/Proxy/Core.antt =====
-- server/src/proxy.rs: `proxy_core_inner`, stage by stage. Each stage decides on what the one before it
-- found, and its own first result ends the request.
use plecto.Prelude.{
  ℕ, ◌+◌, Bool, true, false, ◌&&◌, not, List, [], ◌∷◌, Option, none, some, Text, find, set,
  if◌then◌else◌, ◌==◌, div_ceil,
}
use plecto.Route.{Header, normalize_path}
use plecto.Headers.{set_forwarded, headers_to_vec}
use plecto.Chain.{
  HttpRequest, HttpResponse, ChainOutcome, respond, forward, respond_body, forward_body,
  dispatch_request, dispatch_request_body, dispatch_response, named,
}
use plecto.RateLimit.{NativeRateLimit, RateLimitDecision, allow, limit, check_at}
use plecto.Weighted
use plecto.Upstream.{Heap, UpstreamGroup, HashKeySource, header, source_ip}
use plecto.Upstream.Breaker.{RequestPermit, try_acquire, drop_permit}
use plecto.Upstream.Lb
use plecto.Upstream.Lb.{HashInput, Pick, drop_pick, retry_pick}
use plecto.Forward.{
  Action, send, record_outcome, record_passive_failure, retry, Policy, ForwardOutcome, responded,
  overall_timeout, per_try_timed_out, send_failed, forward_with_retry,
}
use plecto.Proxy.{
  RouteEntry, ProxyState, BufferedBody, buffered, too_large, timed_out, World, bad_path, no_route,
  no_healthy_upstream, body_too_large, body_timeout, circuit_open_fault, request_timeout_fault,
  upstream_timeout, Reply, synth, synth_retry_after, filter_response, stream_response, bad_gateway,
  Outcome, find_route,
}

abbrev pub ends : ProxyState → Reply → Outcome
ends s r = record { reply = r; state = s; actions = [] }

-- The request as the chain sees it.
unfoldable pub admitted_request : World → HttpRequest → Text → HttpRequest
admitted_request w q path = record q {
  path = path;
  headers = set_forwarded w.show q.headers w.peer w.scheme;
}

abbrev pub check_rate_limit :
    Option NativeRateLimit → World → Option NativeRateLimit × RateLimitDecision
check_rate_limit none w = (none, allow)
check_rate_limit (some rl) w = let (rl', d) = check_at rl w.peer w.limiter_clock in (some rl', d)

abbrev pub put_route : ProxyState → ℕ → RouteEntry → ProxyState
put_route s i r = record s { routes = set s.routes i r }

-- The key of a consistent hash, from the original headers and the peer of the connection.
abbrev pub hash_input : Option HashKeySource → World → List Header → Option HashInput
hash_input none w headers = none
hash_input (some source_ip) w headers = some (Lb.ip w.peer)
hash_input (some (header name)) w headers = elim (find (named name) headers) [
  | none ↦ none
  | some h ↦ some (Lb.bytes h.value)
]

abbrev pub policy_of : UpstreamGroup → World → HttpRequest → Policy
policy_of g w fwd = record {
  method = fwd.method;
  bodyless = w.bodyless;
  per_try_bound = g.request_timeout;
  overall_deadline = if g.overall_timeout == 0 then none else some (w.started + g.overall_timeout);
}

-- The response side: a response with a body is a filter's, and the upstream's body is dropped.
abbrev pub is_streamed : HttpResponse → Bool
is_streamed r = elim r.body [ [] ↦ true | b ∷ rest ↦ false ]

abbrev pub answer_of : ProxyState → RouteEntry → World → ForwardOutcome → Reply
answer_of s r w (responded status) =
    let edited = dispatch_response s.filters r.filters (record {
      status = status;
      headers = headers_to_vec w.lossy (w.upstream_headers status);
      body = [];
    }) in
    if is_streamed edited then stream_response edited else filter_response edited
answer_of s r w overall_timeout = synth 504 request_timeout_fault
answer_of s r w per_try_timed_out = synth 504 upstream_timeout
answer_of s r w (send_failed c) = bad_gateway

-- The picks of the forward loop, along what it does: `pick = next_pick` drops the pick before it once the
-- next is taken, and the last pick is dropped when the loop returns.
unfoldable pub hand_over : Heap → ℕ → Pick → List Action → Heap
hand_over h g pick [] = drop_pick h pick
hand_over h g pick (retry j ∷ actions) =
    let (next, h') = retry_pick h g j in hand_over (drop_pick h' pick) g next actions
hand_over h g pick (send i has_body ∷ actions) = hand_over h g pick actions
hand_over h g pick (record_outcome i failure ∷ actions) = hand_over h g pick actions
hand_over h g pick (record_passive_failure i ∷ actions) = hand_over h g pick actions

-- The permit is dropped when the core returns. The fuel of `forward_with_retry` never runs out; its `none` is
-- answered as an error is.
abbrev pub sent :
    ProxyState
    → RouteEntry
    → World
    → ℕ
    → RequestPermit
    → Pick
    → Option (List Action × ForwardOutcome)
    → Outcome
sent s r w g permit pick none =
    ends (record s { heap = drop_permit (drop_pick s.heap pick) permit }) bad_gateway
sent s r w g permit pick (some (actions, o)) = record {
  reply = answer_of s r w o;
  state = record s { heap = drop_permit (hand_over s.heap g pick actions) permit };
  actions = actions;
}

abbrev pub after_pick :
    ProxyState → RouteEntry → World → ℕ → HttpRequest → RequestPermit → Option Pick × Heap → Outcome
after_pick s r w g fwd permit (none, h) =
    ends (record s { heap = drop_permit h permit }) (synth 503 no_healthy_upstream)
after_pick s r w g fwd permit (some pick, h) =
    let group = s.heap.group_at g in
    sent (record s { heap = h }) r w g permit pick
      (forward_with_retry w.attempts (policy_of group w fwd) pick.instance_ptr group.max_retries)

abbrev pub after_breaker :
    ProxyState
    → RouteEntry
    → World
    → ℕ
    → HttpRequest
    → List Header
    → Option RequestPermit × Heap
    → Outcome
after_breaker s r w g fwd headers (none, h) =
    ends (record s { heap = h; circuit_open = s.circuit_open + 1 }) (synth 503 circuit_open_fault)
after_breaker s r w g fwd headers (some permit, h) =
    let key = hash_input (s.heap.group_at g).hash_key w headers in
    after_pick (record s { heap = h }) r w g fwd permit (Lb.pick h w.picks g key)

-- The body hook: a route that reads the body of a request that has one.
abbrev pub run_body_hook : ProxyState → RouteEntry → BufferedBody → Option Reply
run_body_hook s r too_large = some (synth 413 body_too_large)
run_body_hook s r timed_out = some (synth 408 body_timeout)
run_body_hook s r (buffered b) = elim (dispatch_request_body s.filters r.filters b) [
  | respond_body resp ↦ some (filter_response resp)
  | forward_body edited ↦ none
]

unfoldable pub body_hook : ProxyState → RouteEntry → World → Option Reply
body_hook s r w = if r.reads_body && not w.bodyless then run_body_hook s r w.body else none

abbrev pub after_body :
    ProxyState → RouteEntry → World → ℕ → HttpRequest → List Header → Option Reply → Outcome
after_body s r w g fwd headers (some reply) = ends s reply
after_body s r w g fwd headers none = after_breaker s r w g fwd headers (try_acquire s.heap g)

abbrev pub after_split :
    ProxyState → RouteEntry → World → HttpRequest → List Header → Option ℕ → Outcome
after_split s r w fwd headers none = ends s (synth 503 no_healthy_upstream)
after_split s r w fwd headers (some g) = after_body s r w g fwd headers (body_hook s r w)

abbrev pub after_chain : ProxyState → ℕ → RouteEntry → World → List Header → ChainOutcome → Outcome
after_chain s i r w headers (respond resp) = ends s (filter_response resp)
after_chain s i r w headers (forward fwd) =
    let (group, backends) = Weighted.pick s.heap w.split_clock r.backends in
    let r' = record r { backends = backends } in
    after_split (put_route s i r') r' w fwd headers group

-- `retry_after_ms.div_ceil(1000)` seconds.
abbrev pub after_limit :
    ProxyState → ℕ → RouteEntry → World → HttpRequest → List Header → RateLimitDecision → Outcome
after_limit s i r w q headers (limit retry_after_ms) =
    ends (record s { rate_limited = s.rate_limited + 1 })
      (synth_retry_after (div_ceil retry_after_ms 1000))
after_limit s i r w q headers allow =
    after_chain s i r w headers (dispatch_request s.filters r.filters q)

abbrev pub after_route :
    ProxyState → World → HttpRequest → List Header → Option (ℕ × RouteEntry) → Outcome
after_route s w q headers none = ends s (synth 404 no_route)
after_route s w q headers (some (i, r)) =
    let (limiter, decision) = check_rate_limit r.rate_limit w in
    let r' = record r { rate_limit = limiter } in
    after_limit (put_route s i r') i r' w q headers decision

abbrev pub after_path : ProxyState → World → HttpRequest → Option Text → Outcome
after_path s w q none = ends s (synth 400 bad_path)
after_path s w q (some path) =
    let q' = admitted_request w q path in after_route s w q' q.headers (find_route s q')

unfoldable pub proxy_core_inner : ProxyState → World → HttpRequest → Outcome
proxy_core_inner s w q = after_path s w q (normalize_path q.path)
