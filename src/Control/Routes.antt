-- ===== src/Control/Routes.antt =====
-- control/src/route.rs and the last part of `build_active`: the routes of a manifest, validated against
-- the loaded filters and the names of the upstreams, and compiled against the registry.
use plecto.Prelude.{
  ℕ, ◌-◌, Bool, true, false, ◌&&◌, not, List, [], ◌∷◌, map, Option, none, some, Text, any,
  if◌then◌else◌, leb, ◌==◌, to_ascii_lowercase,
}
use plecto.Chain.{LoadedFilter}
use plecto.Errors.{
  both_targets, no_targets, split, zero_rate, zero_burst, unknown_route_upstream,
  unknown_route_filter, invalid_route, invalid_route_rate_limit, Result, ok, err, ◌>>=◌, ◌>>◌,
  refuse_if,
}
use plecto.Control.{Backend, Route}
use plecto.Proxy.{RouteEntry}
use plecto.RateLimit.{RouteRateLimit, NativeRateLimit}
use plecto.RateLimit
use plecto.Route.{CompiledRoute}
use plecto.Upstream.Registry.{UpstreamSpec, UpstreamRegistry, group}
use plecto.Upstream.Registry.Kept.{is_named}
use plecto.Weighted
use plecto.Weighted.{SplitResult, WeightedBackends, weights_of, validate_split}

abbrev pub Targets : Type 0
Targets = List (Text × ℕ)

-- The names of the upstreams, of which `contains` is asked.
abbrev pub is_upstream : List UpstreamSpec → Text → Bool
is_upstream upstreams name = any (is_named name) upstreams

abbrev pub is_loaded : (Text → Option LoadedFilter) → Text → Bool
is_loaded filters id = elim (filters id) [ none ↦ false | some f ↦ true ]

-- `Route::targets`, with its error in the route's context.
unfoldable pub targets_of : Text → Option Text → List Backend → Result Targets
targets_of prefix (some name) (b ∷ bs) = err (invalid_route prefix both_targets)
targets_of prefix none [] = err (invalid_route prefix no_targets)
targets_of prefix (some name) [] = ok ((name, 1) ∷ [])
targets_of prefix none (b ∷ bs) = ok (map (λ x. (x.upstream, x.weight)) (b ∷ bs))

unfoldable pub check_upstreams : Text → List UpstreamSpec → Targets → Result (Unit {0})
check_upstreams prefix upstreams [] = ok tt
check_upstreams prefix upstreams ((name, weight) ∷ rest) =
    refuse_if (not (is_upstream upstreams name)) (unknown_route_upstream prefix name)
    >> check_upstreams prefix upstreams rest

abbrev pub split_of {ℓ} : {A : Type ℓ} → Text → SplitResult A → Result A
split_of prefix (SplitResult.ok a) = ok a
split_of prefix (SplitResult.err e) = err (invalid_route prefix (split e))

unfoldable pub check_filters : Text → (Text → Option LoadedFilter) → List Text → Result (Unit {0})
check_filters prefix filters [] = ok tt
check_filters prefix filters (id ∷ ids) =
    refuse_if (not (is_loaded filters id)) (unknown_route_filter prefix id)
    >> check_filters prefix filters ids

unfoldable pub check_rate : Text → Option RouteRateLimit → Result (Unit {0})
check_rate prefix none = ok tt
check_rate prefix (some rl) = do
  refuse_if (rl.rate == 0) (invalid_route_rate_limit prefix zero_rate)
  refuse_if (rl.burst == 0) (invalid_route_rate_limit prefix zero_burst)

-- The weights of named targets.
abbrev pub target_weights : Targets → List ℕ
target_weights [] = []
target_weights ((name, weight) ∷ rest) = weight ∷ target_weights rest

-- One turn of the loop of `validate_routes`.
unfoldable pub validate_route :
    (Text → Option LoadedFilter) → List UpstreamSpec → Route → Result Targets
validate_route filters upstreams r = do
  let prefix = r.matcher.path_prefix
  targets ← targets_of prefix r.upstream r.backends
  check_upstreams prefix upstreams targets
  total ← split_of prefix (validate_split (target_weights targets))
  check_filters prefix filters r.filters
  check_rate prefix r.rate_limit
  ok targets

unfoldable pub validate_routes :
    (Text → Option LoadedFilter) → List UpstreamSpec → List Route → Result (List (Route × Targets))
validate_routes filters upstreams [] = ok []
validate_routes filters upstreams (r ∷ rest) = do
  targets ← validate_route filters upstreams r
  validated ← validate_routes filters upstreams rest
  ok ((r, targets) ∷ validated)

abbrev pub with_group : Text → Text → ℕ → Option ℕ → Result (List (ℕ × ℕ)) → Result (List (ℕ × ℕ))
with_group prefix name weight none rest = err (unknown_route_upstream prefix name)
with_group prefix name weight (some g) rest = do resolved ← rest; ok ((g, weight) ∷ resolved)

-- The groups of the targets.
unfoldable pub resolve_targets : UpstreamRegistry → Text → Targets → Result (List (ℕ × ℕ))
resolve_targets registry prefix [] = ok []
resolve_targets registry prefix ((name, weight) ∷ rest) =
    with_group prefix name weight (group registry name) (resolve_targets registry prefix rest)

abbrev pub upper_byte : ℕ → ℕ
upper_byte c = if leb b'a' c && leb c b'z' then c - 32 else c

abbrev pub to_ascii_uppercase : Text → Text
to_ascii_uppercase = map upper_byte

abbrev pub map_option : (Text → Text) → Option Text → Option Text
map_option f none = none
map_option f (some t) = some (f t)

abbrev pub compiled_match : Route → CompiledRoute
compiled_match r = record {
  host = map_option to_ascii_lowercase r.matcher.host;
  path_prefix = r.matcher.path_prefix;
  method = map_option to_ascii_uppercase r.matcher.method;
  headers = map (λ h. (to_ascii_lowercase h.0, h.1)) r.matcher.headers;
  query = r.matcher.query;
  strip = r.strip_prefix;
}

abbrev pub limiter_of : (Text → ℕ) → Option RouteRateLimit → Option NativeRateLimit
limiter_of hasher none = none
limiter_of hasher (some rl) = some (RateLimit.new rl hasher)

abbrev pub reads : (LoadedFilter → Bool) → (Text → Option LoadedFilter) → Text → Bool
reads reads_body filters id = elim (filters id) [ none ↦ false | some f ↦ reads_body f ]

abbrev pub compiled_route :
    (LoadedFilter → Bool)
    → (Text → ℕ)
    → (Text → Option LoadedFilter)
    → Route
    → WeightedBackends
    → RouteEntry
compiled_route reads_body hasher filters r backends = record {
  matcher = compiled_match r;
  filters = r.filters;
  backends = backends;
  reads_body = any (reads reads_body filters) r.filters;
  rate_limit = limiter_of hasher r.rate_limit;
}

unfoldable pub compile_routes :
    (LoadedFilter → Bool)
    → (Text → ℕ)
    → UpstreamRegistry
    → (Text → Option LoadedFilter)
    → List (Route × Targets)
    → Result (List RouteEntry)
compile_routes reads_body hasher registry filters [] = ok []
compile_routes reads_body hasher registry filters ((r, targets) ∷ rest) = do
  let prefix = r.matcher.path_prefix
  resolved ← resolve_targets registry prefix targets
  backends ← split_of prefix (Weighted.new resolved)
  routes ← compile_routes reads_body hasher registry filters rest
  ok (compiled_route reads_body hasher filters r backends ∷ routes)
