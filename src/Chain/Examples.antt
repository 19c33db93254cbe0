-- ===== src/Chain/Examples.antt =====
-- Chains of filters and header edits at concrete values.
use plecto.Prelude.{not, ◌≤◌, ◌≡◌, refl, false, List, [], ◌∷◌, Option, some, Text, filter, bytes}
use plecto.Net.{IpAddr, v4, v6}
use plecto.Strings.{split_on, cons_piece}
use plecto.Route.{Header}
use plecto.Chain.{
  HttpRequest, HttpResponse, LoadedFilter, continue, failed, trap, continue_body, continue_response,
  respond, forward, dispatch_request, then_request, run_request, is_repeatable,
}
use plecto.Chain.FailClosed.{dispatch_request-closed}
use plecto.Headers.{set_forwarded, headers_to_vec, connection_named, is_hop_by_hop, tokens_of}
use plecto.Headers.Forwarded.{claims_client, issued, set_forwarded-authoritative}

abbrev request : HttpRequest
request = record {
  method = bytes "GET";
  path = bytes "/";
  authority = bytes "a";
  scheme = bytes "https";
  headers = [];
}

abbrev passing : LoadedFilter
passing = record {
  on_request = λ q. continue;
  on_request_body = λ b. continue_body b;
  on_response = λ r. continue_response;
}

abbrev trapping : LoadedFilter
trapping = record {
  on_request = λ q. failed trap;
  on_request_body = λ b. continue_body b;
  on_response = λ r. continue_response;
}

-- The empty id traps; every other id passes.
abbrev filters : Text → Option LoadedFilter
filters [] = some trapping
filters (x ∷ s) = some passing

passed : dispatch_request filters (bytes "a" ∷ []) request ≡ forward request
unfolding dispatch_request then_request run_request
passed = refl

dispatch_request-closed_example :
    (response : HttpResponse) × (dispatch_request filters (bytes "a" ∷ [] ∷ bytes "b" ∷ []) request
      ≡ respond response)
    × (500 ≤ response.status)
    × (response.status ≤ 599)
dispatch_request-closed_example =
    dispatch_request-closed filters (bytes "a" ∷ []) (bytes "b" ∷ []) [] trapping request request
      trap passed refl refl

abbrev forged : List Header
forged =
    record { name = bytes "X-User"; value = bytes "root" }
    ∷ record { name = bytes "X-Forwarded-For"; value = bytes "1.1.1.1" }
    ∷ record { name = bytes "Connection"; value = bytes "x-user, close" }
    ∷ []

abbrev user : Header
user = record { name = bytes "x-user"; value = bytes "alice" }

single : is_repeatable (bytes "x-user") ≡ false
unfolding is_repeatable
single = refl

abbrev show : IpAddr → Text
show (v4 o) = bytes "10.0.0.9"
show (v6 o) = bytes "::1"

set_forwarded-authoritative_example :
    let out = set_forwarded show forged (v4 (10 ∷ 0 ∷ 0 ∷ 9 ∷ [])) (bytes "https") in
    (filter claims_client out ≡ issued (bytes "10.0.0.9") (bytes "https"))
    × (filter (λ h. not (claims_client h)) out ≡ filter (λ h. not (claims_client h)) forged)
set_forwarded-authoritative_example =
    set_forwarded-authoritative show forged (v4 (10 ∷ 0 ∷ 0 ∷ 9 ∷ [])) (bytes "https")

-- The header that `Connection` names is dropped with it; the other stays.
named_dropped :
    headers_to_vec (λ v. v) forged
    ≡ record { name = bytes "X-Forwarded-For"; value = bytes "1.1.1.1" } ∷ []
unfolding headers_to_vec connection_named is_hop_by_hop split_on tokens_of cons_piece
named_dropped = refl
