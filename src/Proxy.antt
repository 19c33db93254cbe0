-- ===== src/Proxy.antt =====
-- server/src/proxy.rs and control/src/snapshot.rs: what one request meets, from the front door to the
-- answer. This file has the state and the answers; `Core` has the stages.
pub mod Core
pub mod Guards
pub mod Loads
pub mod HandOver
pub mod Released
pub mod Examples
use plecto.Prelude.{ℕ, Bool, List, [], ◌∷◌, Option, none, some, Text, map, get_elem?}
use plecto.Net.{IpAddr}
use plecto.Route.{CompiledRoute, Header, RequestParts, select}
use plecto.Chain.{LoadedFilter, HttpRequest, HttpResponse}
use plecto.RateLimit.{NativeRateLimit}
use plecto.Weighted.{WeightedBackends}
use plecto.Upstream.{Heap}
use plecto.Upstream.Lb
use plecto.Forward.{Action}
use plecto.Forward

-- A route of the active configuration, with the state of its limiter and of its split.
pub record RouteEntry : Type 0 where
  pub matcher : CompiledRoute
  pub filters : List Text
  pub backends : WeightedBackends
  pub reads_body : Bool
  pub rate_limit : Option NativeRateLimit

-- What a request finds: the snapshot of the configuration, the upstreams, and two of the counters.
pub record ProxyState : Type 0 where
  pub routes : List RouteEntry
  pub filters : Text → Option LoadedFilter
  pub heap : Heap
  pub rate_limited : ℕ
  pub circuit_open : ℕ

-- What reading the body under its cap and its deadline gave.
pub data BufferedBody : Type 0 where
  buffered : Text → BufferedBody
  too_large timed_out : BufferedBody

-- The rest of the world: the connection, the clocks, the body, and what each attempt meets. `show` prints
-- an address and `lossy` is `from_utf8_lossy` on a header's value; `started` is the clock when the
-- deadline of the request is set.
pub record World : Type 0 where
  pub peer : IpAddr
  pub scheme : Text
  pub show : IpAddr → Text
  pub lossy : Text → Text
  pub limiter_clock : ℕ
  pub split_clock : ℕ
  pub started : ℕ
  pub bodyless : Bool
  pub body : BufferedBody
  pub picks : Lb.Env
  pub attempts : Forward.Env
  pub upstream_headers : ℕ → List Header

-- The answers that the core makes itself, by their `x-plecto-fault`.
pub data Fault : Type 0 where
  bad_path no_route no_healthy_upstream body_too_large body_timeout circuit_open_fault : Fault
  request_timeout_fault upstream_timeout : Fault

pub data Reply : Type 0 where
  synth : ℕ → Fault → Reply
  synth_retry_after : ℕ → Reply
  filter_response : HttpResponse → Reply
  stream_response : HttpResponse → Reply
  bad_gateway : Reply

pub record Outcome : Type 0 where
  pub reply : Reply
  pub state : ProxyState
  pub actions : List Action

abbrev pub parts_of : HttpRequest → RequestParts
parts_of q = record {
  authority = q.authority;
  path = q.path;
  method = q.method;
  headers = q.headers;
}

-- `find_route`, with the index of the route.
unfoldable pub find_route : ProxyState → HttpRequest → Option (ℕ × RouteEntry)
find_route s q = elim (select (map (λ r. r.matcher) s.routes) (parts_of q)) [
  | none ↦ none
  | some i ↦ elim (get_elem? s.routes i) [ none ↦ none | some r ↦ some (i, r) ]
]
