-- ===== src/Chain.antt =====
-- control/src/chain.rs: the chain of filters. A filter's hooks run WebAssembly: they are parameters, and
-- the loaded filters are a map from ids to them.
pub mod Examples
pub mod FailClosed
pub mod Edit
use plecto.Prelude.{
  ℕ, Bool, true, false, not, List, [], ◌∷◌, ◌++◌, Option, none, some, Text, bytes,
  eq_ignore_ascii_case, filter, if◌then◌else◌,
}
use plecto.Route.{Header}

pub record HttpRequest : Type 0 where
  pub method : Text
  pub path : Text
  pub authority : Text
  pub scheme : Text
  pub headers : List Header

pub record HttpResponse : Type 0 where
  pub status : ℕ
  pub headers : List Header
  pub body : Text

pub record RequestEdit : Type 0 where
  pub set_headers : List Header
  pub remove_headers : List Text

pub record ResponseEdit : Type 0 where
  pub set_status : Option ℕ
  pub set_headers : List Header
  pub remove_headers : List Text

pub data RunError : Type 0 where
  deadline trap instantiate unavailable : RunError

pub data RequestDecision : Type 0 where
  continue : RequestDecision
  modified : RequestEdit → RequestDecision
  short_circuit : HttpResponse → RequestDecision
  failed : RunError → RequestDecision

pub data RequestBodyDecision : Type 0 where
  continue_body : Text → RequestBodyDecision
  short_circuit_body : HttpResponse → RequestBodyDecision
  failed_body : RunError → RequestBodyDecision

pub data ResponseDecision : Type 0 where
  continue_response : ResponseDecision
  modified_response : ResponseEdit → ResponseDecision
  failed_response : RunError → ResponseDecision

-- A loaded filter: what each hook decides, an error included.
pub record LoadedFilter : Type 0 where
  pub on_request : HttpRequest → RequestDecision
  pub on_request_body : Text → RequestBodyDecision
  pub on_response : HttpResponse → ResponseDecision

pub data ChainOutcome : Type 0 where
  respond : HttpResponse → ChainOutcome
  forward : HttpRequest → ChainOutcome

pub data RequestBodyOutcome : Type 0 where
  respond_body : HttpResponse → RequestBodyOutcome
  forward_body : Text → RequestBodyOutcome

abbrev fault : ℕ → Text → Text → HttpResponse
fault status name message = record {
  status = status;
  headers = record { name = bytes "x-plecto-fault"; value = name } ∷ [];
  body = message;
}

pub fail_closed_response : RunError → HttpResponse
fail_closed_response deadline = fault 504 (bytes "deadline") (bytes "filter deadline exceeded")
fail_closed_response trap = fault 502 (bytes "trap") (bytes "filter trapped")
fail_closed_response instantiate =
    fault 502 (bytes "instantiate") (bytes "filter instantiation failed")
fail_closed_response unavailable =
    fault 503 (bytes "unavailable") (bytes "filter temporarily unavailable")

abbrev pub named : Text → Header → Bool
named name h = eq_ignore_ascii_case (h.name) name

unfoldable pub remove_headers : List Header → List Text → List Header
remove_headers headers [] = headers
remove_headers headers (name ∷ names) =
    remove_headers (filter (λ h. not (named name h)) headers) names

pub is_repeatable : Text → Bool
is_repeatable name = eq_ignore_ascii_case name (bytes "set-cookie")

pub set_header : List Header → Header → List Header
set_header headers h =
    (if is_repeatable (h.name) then headers else filter (λ e. not (named (h.name) e)) headers)
    ++ (h ∷ [])

unfoldable pub set_headers : List Header → List Header → List Header
set_headers headers [] = headers
set_headers headers (h ∷ hs) = set_headers (set_header headers h) hs

pub apply_request_edit : HttpRequest → RequestEdit → HttpRequest
apply_request_edit request edit = record {
  method = request.method;
  path = request.path;
  authority = request.authority;
  scheme = request.scheme;
  headers = set_headers (remove_headers (request.headers) (edit.remove_headers)) (edit.set_headers);
}

abbrev or_status : Option ℕ → ℕ → ℕ
or_status none s = s
or_status (some t) s = t

pub apply_response_edit : HttpResponse → ResponseEdit → HttpResponse
apply_response_edit response edit = record {
  status = or_status (edit.set_status) (response.status);
  headers =
      set_headers (remove_headers (response.headers) (edit.remove_headers)) (edit.set_headers);
  body = response.body;
}

-- One filter of the chain: an id that is not loaded is passed over.
pub run_request : Option LoadedFilter → HttpRequest → ChainOutcome
run_request none request = forward request
run_request (some f) request = elim (f.on_request request) [
  | continue ↦ forward request
  | modified edit ↦ forward (apply_request_edit request edit)
  | short_circuit response ↦ respond response
  | failed err ↦ respond (fail_closed_response err)
]

pub then_request : ChainOutcome → (HttpRequest → ChainOutcome) → ChainOutcome
then_request (respond r) k = respond r
then_request (forward q) k = k q

unfoldable pub dispatch_request :
    (Text → Option LoadedFilter) → List Text → HttpRequest → ChainOutcome
dispatch_request filters [] request = forward request
dispatch_request filters (id ∷ chain) request =
    then_request (run_request (filters id) request) (dispatch_request filters chain)

pub run_body : Option LoadedFilter → Text → RequestBodyOutcome
run_body none body = forward_body body
run_body (some f) body = elim (f.on_request_body body) [
  | continue_body next ↦ forward_body next
  | short_circuit_body response ↦ respond_body response
  | failed_body err ↦ respond_body (fail_closed_response err)
]

pub then_body : RequestBodyOutcome → (Text → RequestBodyOutcome) → RequestBodyOutcome
then_body (respond_body r) k = respond_body r
then_body (forward_body b) k = k b

unfoldable pub dispatch_request_body :
    (Text → Option LoadedFilter) → List Text → Text → RequestBodyOutcome
dispatch_request_body filters [] body = forward_body body
dispatch_request_body filters (id ∷ chain) body =
    then_body (run_body (filters id) body) (dispatch_request_body filters chain)

-- The response side has no short-circuit, but a failure ends it: `true` beside the response.
pub run_response : Option LoadedFilter → HttpResponse → HttpResponse × Bool
run_response none response = (response, false)
run_response (some f) response = elim (f.on_response response) [
  | continue_response ↦ (response, false)
  | modified_response edit ↦ (apply_response_edit response edit, false)
  | failed_response err ↦ (fail_closed_response err, true)
]

unfoldable pub response_loop :
    (Text → Option LoadedFilter) → List Text → HttpResponse → HttpResponse
response_loop filters [] response = response
response_loop filters (id ∷ rest) response =
    let (next, stop) = run_response (filters id) response in
    let more = response_loop filters rest next in if stop then next else more

abbrev pub reverse : List Text → List Text
reverse [] = []
reverse (x ∷ xs) = reverse xs ++ (x ∷ [])

unfoldable pub dispatch_response :
    (Text → Option LoadedFilter) → List Text → HttpResponse → HttpResponse
dispatch_response filters chain response = response_loop filters (reverse chain) response
