-- ===== src/Proxy/Examples.antt =====
-- One route to a group of three healthy instances, and two requests.
use plecto.Prelude.{
  ◌≡◌, ◌≢◌, refl, true, false, List, [], ◌∷◌, none, some, bytes, arith, if◌then◌else◌, ◌==◌,
}
use plecto.Net.{v4}
use plecto.Route.{
  normalize_path, before_query, contains_encoded_separator, is_forbidden, keep_max,
  normalize_origin, path_under_prefix, query_parts, rejoin, resolve, route_matches, select,
  select_from, split_query,
}
use plecto.Chain.{HttpRequest, dispatch_request}
use plecto.Weighted.{WeightedBackends, backend_eligible, skip_forward}
use plecto.Upstream.{least_request}
use plecto.Upstream.Lb
use plecto.Upstream.Lb.Examples.{pool}
use plecto.Forward.{
  Action, Answer, status, send, record_outcome, retry, attempt, finish_attempt, resume,
}
use plecto.Forward
use plecto.Proxy.{RouteEntry, ProxyState, World, buffered, find_route}
use plecto.Proxy.Core.{proxy_core_inner, admitted_request, body_hook}
use plecto.Proxy.Guards.{Passed, sends-guarded}
use plecto.Proxy.Released.{loads_released}
use plecto.Proxy.Loads.{SameLoads}
use plecto.Retry.{
  classify, is_idempotent, is_retriable_5xx, may_retry, per_try_timeout, should_attempt_retry,
}
use plecto.Strings.{cons_left, join, split_on, split_once, starts_with}
use plecto.Upstream.Breaker.{try_acquire}
use plecto.Upstream.Lb.{rr_scan}
use plecto.Upstream.Outlier.{outlier_enabled}
use plecto.Weighted

abbrev entry : RouteEntry
entry = record {
  matcher = record {
    host = none;
    path_prefix = bytes "/";
    method = none;
    headers = [];
    query = [];
    strip = none;
  };
  filters = [];
  backends = record { groups = 0 ∷ []; table = 0 ∷ []; cursor = 0 };
  reads_body = false;
  rate_limit = none;
}

abbrev state : ProxyState
state = record {
  routes = entry ∷ [];
  filters = λ id. none;
  heap = pool;
  rate_limited = 0;
  circuit_open = 0;
}

abbrev world : World
world = record {
  peer = v4 (10 ∷ 0 ∷ 0 ∷ 9 ∷ []);
  scheme = bytes "https";
  show = λ a. bytes "10.0.0.9";
  lossy = λ v. v;
  limiter_clock = 0;
  split_clock = 0;
  started = 0;
  bodyless = true;
  body = buffered [];
  picks = record { clock = 0; later = λ p. true; draw = λ n. (0, 1) };
  attempts = record {
    before = λ n. 0;
    after = λ n. 0;
    answer = λ n i d. status 200;
    alternate = λ n i. none;
  };
  upstream_headers = λ s. [];
}

abbrev get_root : HttpRequest
get_root = record {
  method = bytes "GET";
  path = bytes "/";
  authority = bytes "a.test";
  scheme = bytes "https";
  headers = [];
}

served :
    (proxy_core_inner state world get_root).actions ≡ send 1 false ∷ record_outcome 1 false ∷ []
unfolding Forward.forward_loop Forward.forward_with_retry Forward.next_pick Forward.turn
    Lb.eligibility_ctx Lb.has_eligible Lb.is_eligible Lb.pick Weighted.pick admitted_request attempt
    backend_eligible before_query body_hook classify cons_left contains_encoded_separator
    dispatch_request find_route finish_attempt is_forbidden is_retriable_5xx join keep_max
    normalize_origin normalize_path outlier_enabled path_under_prefix per_try_timeout
    proxy_core_inner query_parts rejoin resolve resume route_matches rr_scan select select_from
    should_attempt_retry skip_forward split_on split_once split_query starts_with try_acquire
served = refl

something_sent : (proxy_core_inner state world get_root).actions ≢ []
something_sent e = not_empty (rw served at e)
  where
    not_empty : {a : Action} {as_ : List Action} → a ∷ as_ ≡ [] → ⊥
    not_empty e = cc

sends-guarded_example : Passed state world get_root
sends-guarded_example = sends-guarded state world get_root something_sent

-- Least-request, and a first instance that answers 503: the request goes on to instance 2.
abbrev metered : ProxyState
metered = record state {
  heap = record pool {
    group_at = λ g. record (pool.group_at g) { lb = least_request; max_retries = 1 };
  };
}

abbrev failing : World
failing = record world {
  attempts = record world.attempts {
    answer = λ n i d. if i == 2 then status 200 else status 503;
    alternate = λ n i. some 2;
  };
}

handed_over :
    (proxy_core_inner metered failing get_root).actions
    ≡ send 0 false ∷ record_outcome 0 true ∷ retry 2 ∷ send 2 false ∷ record_outcome 2 false ∷ []
unfolding Forward.forward_loop Forward.forward_with_retry Forward.next_pick Forward.turn
    Lb.eligibility_ctx Lb.has_eligible Lb.is_eligible Lb.pick Lb.capture Lb.lower_load
    Lb.metered_pick Weighted.pick admitted_request attempt backend_eligible before_query body_hook
    classify cons_left contains_encoded_separator dispatch_request find_route finish_attempt
    is_forbidden is_idempotent is_retriable_5xx join keep_max may_retry normalize_origin
    normalize_path outlier_enabled path_under_prefix per_try_timeout proxy_core_inner query_parts
    rejoin resolve resume route_matches select select_from should_attempt_retry skip_forward
    split_on split_once split_query starts_with try_acquire
handed_over = refl

loads_released_example :
    SameLoads metered.heap (proxy_core_inner metered failing get_root).state.heap
loads_released_example =
    loads_released metered failing get_root (λ p. omega arith, λ g. omega arith)
