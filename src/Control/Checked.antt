-- ===== src/Control/Checked.antt =====
-- What the validation of the routes establishes, and that routes so validated compile.
use plecto.Prelude.{
  ℕ, ◌<◌, ◌≡◌, Bool, true, false, not, List, [], ◌∷◌, Option, none, some, Text, arith, All, ◌==◌,
}
use plecto.Chain.{LoadedFilter}
use plecto.Errors.{
  ok, >>=-eq-ok, refuse_if, refuse_if-ok, unknown_route_upstream, unknown_route_filter,
  invalid_route_rate_limit, zero_rate,
}
use plecto.Control.{Route}
use plecto.Control.Routes.{
  Targets, is_upstream, is_loaded, targets_of, check_upstreams, split_of, check_filters, check_rate,
  target_weights, validate_route, validate_routes,
}
use plecto.RateLimit.{RouteRateLimit}
use plecto.Upstream.Registry.{UpstreamSpec}
use plecto.Weighted.{SplitResult, validate_split}

pub not-true : (b : Bool) → not b ≡ false → b ≡ true
not-true b h = ground arith

abbrev pub Serving : Option RouteRateLimit → Type 0
Serving none = Unit
Serving (some rl) = (0 < rl.rate) × (0 < rl.burst)

-- What a validated route refers to is there.
pub record Checked (filters : Text → Option LoadedFilter) (upstreams : List UpstreamSpec)
    (v : Route × Targets) : Type 0 where
  pub known : All (λ t. is_upstream upstreams t.0 ≡ true) v.1
  pub total : (n : ℕ) × (validate_split (target_weights v.1) ≡ SplitResult.ok n)
  pub loaded : All (λ id. is_loaded filters id ≡ true) v.0.filters
  pub serving : Serving v.0.rate_limit

check_upstreams-ok :
    (prefix : Text) (upstreams : List UpstreamSpec) (targets : Targets) (u : Unit {0})
    → check_upstreams prefix upstreams targets ≡ ok u
    → All (λ t. is_upstream upstreams t.0 ≡ true) targets
unfolding check_upstreams
check_upstreams-ok prefix upstreams [] u h = tt
check_upstreams-ok prefix upstreams ((name, weight) ∷ rest) u h =
    let (v, e, later) =
      >>=-eq-ok (refuse_if (not (is_upstream upstreams name)) (unknown_route_upstream prefix name))
        _ h in
    (
      not-true (is_upstream upstreams name) (refuse_if-ok (not (is_upstream upstreams name)) _ e),
      check_upstreams-ok prefix upstreams rest u later,
    )

check_filters-ok :
    (prefix : Text) (filters : Text → Option LoadedFilter) (ids : List Text) (u : Unit {0})
    → check_filters prefix filters ids ≡ ok u
    → All (λ id. is_loaded filters id ≡ true) ids
unfolding check_filters
check_filters-ok prefix filters [] u h = tt
check_filters-ok prefix filters (id ∷ ids) u h =
    let (v, e, later) =
      >>=-eq-ok (refuse_if (not (is_loaded filters id)) (unknown_route_filter prefix id)) _ h in
    (
      not-true (is_loaded filters id) (refuse_if-ok (not (is_loaded filters id)) _ e),
      check_filters-ok prefix filters ids u later,
    )

check_rate-ok :
    (prefix : Text) (rl : Option RouteRateLimit) (u : Unit {0})
    → check_rate prefix rl ≡ ok u
    → Serving rl
unfolding check_rate
check_rate-ok prefix none u h = tt
check_rate-ok prefix (some rl) u h =
    let (v, e, later) =
      >>=-eq-ok (refuse_if (rl.rate == 0) (invalid_route_rate_limit prefix zero_rate)) _ h in
    let rate : (rl.rate == 0) ≡ false = refuse_if-ok (rl.rate == 0) _ e in
    let burst : (rl.burst == 0) ≡ false = refuse_if-ok (rl.burst == 0) _ later in
    (ground arith, ground arith)

split_of-ok {ℓ} :
    {A : Type ℓ} (prefix : Text) (r : SplitResult A) {a : A}
    → split_of prefix r ≡ ok a
    → r ≡ SplitResult.ok a
split_of-ok prefix (SplitResult.ok a) h = cc
split_of-ok prefix (SplitResult.err e) h = cc

validate_route-Checked :
    (filters : Text → Option LoadedFilter) (upstreams : List UpstreamSpec) (r : Route)
    (targets : Targets)
    → validate_route filters upstreams r ≡ ok targets
    → Checked filters upstreams (r, targets)
unfolding validate_route
validate_route-Checked filters upstreams r targets h =
    let prefix = r.matcher.path_prefix in
    let (ts, _, h1) = >>=-eq-ok (targets_of prefix r.upstream r.backends) _ h in
    let (u1, known, h2) = >>=-eq-ok (check_upstreams prefix upstreams ts) _ h1 in
    let (n, total, h3) = >>=-eq-ok (split_of prefix (validate_split (target_weights ts))) _ h2 in
    let (u2, loaded, h4) = >>=-eq-ok (check_filters prefix filters r.filters) _ h3 in
    let (u3, serving, h5) = >>=-eq-ok (check_rate prefix r.rate_limit) _ h4 in
    let same : ts ≡ targets = cc in
    rw (← same) (record {
      known = check_upstreams-ok prefix upstreams ts u1 known;
      total = (n, split_of-ok prefix (validate_split (target_weights ts)) total);
      loaded = check_filters-ok prefix filters r.filters u2 loaded;
      serving = check_rate-ok prefix r.rate_limit u3 serving;
    })

pub validate_routes-Checked :
    (filters : Text → Option LoadedFilter) (upstreams : List UpstreamSpec) (routes : List Route)
    (validated : List (Route × Targets))
    → validate_routes filters upstreams routes ≡ ok validated
    → All (Checked filters upstreams) validated
unfolding validate_routes
validate_routes-Checked filters upstreams [] validated h =
    let same : [] ≡ validated = cc in rw (← same) tt
validate_routes-Checked filters upstreams (r ∷ rest) validated h =
    let (ts, first, h1) = >>=-eq-ok (validate_route filters upstreams r) _ h in
    let (vs, others, h2) = >>=-eq-ok (validate_routes filters upstreams rest) _ h1 in
    let same : ◌≡◌ {A = List (Route × Targets)} ((r, ts) ∷ vs) validated = cc in
    rw (← same) (
      validate_route-Checked filters upstreams r ts first,
      validate_routes-Checked filters upstreams rest vs others,
    )
