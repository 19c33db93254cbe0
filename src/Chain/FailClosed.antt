-- ===== src/Chain/FailClosed.antt =====
-- How the chain of filters stops a request.
use plecto.Prelude.{
  ◌≤◌, ◌≡◌, refl, sym, ap, ◌∙◌, fun_ext, List, [], ◌∷◌, ◌++◌, Option, some, Text, arith,
}
use plecto.Chain.{
  HttpRequest, HttpResponse, LoadedFilter, RunError, deadline, trap, instantiate, unavailable,
  continue, modified, failed, apply_request_edit, short_circuit, ChainOutcome, respond, forward,
  fail_closed_response, run_request, then_request, dispatch_request,
}

then_request_assoc :
    (o : ChainOutcome) (k l : HttpRequest → ChainOutcome)
    → then_request (then_request o k) l ≡ then_request o (λ q. then_request (k q) l)
unfolding then_request
then_request_assoc (respond r) k l = refl
then_request_assoc (forward q) k l = refl

-- A chain in two parts runs as the first part, then the second on the request that the first forwards.
pub dispatch_request-append :
    (filters : Text → Option LoadedFilter) (first rest : List Text) (request : HttpRequest)
    → dispatch_request filters (first ++ rest) request
      ≡ then_request (dispatch_request filters first request) (dispatch_request filters rest)
unfolding dispatch_request then_request
dispatch_request-append filters [] rest request = refl
dispatch_request-append filters (id ∷ first) rest request =
    ap (then_request (run_request (filters id) request))
      (fun_ext (λ q. dispatch_request-append filters first rest q))
    ∙ sym (
        then_request_assoc (run_request (filters id) request) (dispatch_request filters first)
          (dispatch_request filters rest))

-- Every synthetic answer to a failed filter is a server error.
fail_closed-5xx :
    (err : RunError)
    → (500 ≤ (fail_closed_response err).status) × ((fail_closed_response err).status ≤ 599)
unfolding fail_closed_response
fail_closed-5xx deadline = (omega arith, omega arith)
fail_closed-5xx trap = (omega arith, omega arith)
fail_closed-5xx instantiate = (omega arith, omega arith)
fail_closed-5xx unavailable = (omega arith, omega arith)

-- A filter that fails on the request it is given, at any place of the chain, ends the request with a 5xx
-- answer: whatever filters follow, nothing is forwarded.
pub dispatch_request-closed :
    (filters : Text → Option LoadedFilter) (first rest : List Text) (id : Text) (f : LoadedFilter)
    (request reached : HttpRequest) (err : RunError)
    → dispatch_request filters first request ≡ forward reached
    → filters id ≡ some f
    → f.on_request reached ≡ failed err
    → (response : HttpResponse) × (dispatch_request filters (first ++ (id ∷ rest)) request
        ≡ respond response)
      × (500 ≤ response.status)
      × (response.status ≤ 599)
unfolding dispatch_request then_request run_request
dispatch_request-closed filters first rest id f request reached err passes held fails =
    (fail_closed_response err, stopped, (fail_closed-5xx err).0, (fail_closed-5xx err).1)
  where
    stops : run_request (filters id) reached ≡ respond (fail_closed_response err)
    stops = rw held (λ i. elim (fails i) [
      | continue ↦ forward reached
      | modified edit ↦ forward (apply_request_edit reached edit)
      | short_circuit response ↦ respond response
      | failed e ↦ respond (fail_closed_response e)
    ])

    stopped :
        dispatch_request filters (first ++ (id ∷ rest)) request ≡ respond (fail_closed_response err)
    stopped =
        dispatch_request-append filters first (id ∷ rest) request
        ∙ ap (λ o. then_request o (dispatch_request filters (id ∷ rest))) passes
        ∙ ap (λ o. then_request o (dispatch_request filters rest)) stops
