-- ===== src/Control/Examples.antt =====
-- A manifest with one filter, one upstream and one route; its build, and reloads.
use plecto.Prelude.{ℕ, ◌≡◌, ◌⊎◌, refl, ap, true, false, List, [], ◌∷◌, none, some, Text, bytes, All}
use plecto.Chain.{LoadedFilter, continue, continue_body, continue_response}
use plecto.Errors.{io, unknown_chain_filter, Result, ok, err, ◌>>=◌}
use plecto.Host.Examples.{toy, signed}
use plecto.Host.Gate.{gate, verifies, sbom_binds_component}
use plecto.Manifest.{validate_lb, weight_error, algorithm_error, hash_error, weight_of, address_of}
use plecto.Manifest.Filters.{
  FilterEntry, untrusted, validate, ratelimit_error, load_options, policy_of,
}
use plecto.Control.{Route, Manifest, Env, ActiveConfig, Persistent, ControlState}
use plecto.Control.Routes.{
  is_loaded, targets_of, check_upstreams, check_filters, check_rate, validate_route,
  validate_routes, resolve_targets, compile_routes,
}
use plecto.Control.Active.{load_filter, load_filters, check_chain, prepare, build_active}
use plecto.Control.Atomic.{build_active-all_or_nothing}
use plecto.Control.Compiled.{IsPlaced}
use plecto.Control.Resolved.{build_active-IsPlaced}
use plecto.Control.Signed.{CameFrom, build_active-CameFrom}
use plecto.Control.Reload.{
  unchanged, reloaded, reload_from_disk, read_version, ensure_trust_unchanged, trust_eq,
  serve_reloads,
}
use plecto.Control.Start.{started, build_host_and_store, from_manifest_path}
use plecto.Control.Live.{RunsFrom, from_manifest_path-serve_reloads}
use plecto.Control.Running.{reload_from_disk-kept, reload_from_disk_idempotent}
use plecto.Upstream.Lb.Examples.{pool}
use plecto.Upstream.Registry.{
  reconcile, validate_from, build_all, build_group, reusable, instances_of, no_groups,
}
use plecto.Upstream.Registry.Examples.{web}
use plecto.Weighted

abbrev pass : LoadedFilter
pass = record {
  on_request = λ q. continue;
  on_request_body = λ b. continue_body b;
  on_response = λ r. continue_response;
}

-- The hash of a manifest is its default chain's first id here.
abbrev version_of : Manifest → Result Text
version_of m = elim m.chain [ [] ↦ ok [] | id ∷ ids ↦ ok id ]

abbrev env : Env ℕ ℕ ℕ Text
env = record {
  outbound_http = true;
  space = λ c. false;
  parse = λ cidr. none;
  resolve = λ source digest. ok signed;
  crypto = toy;
  trusted_keys = 1 ∷ [];
  instantiate = λ id a o. some pass;
  reads_body = λ f. false;
  build_server_configs = λ certs. ok none;
  content_hash = version_of;
  hasher = λ t. 0;
}

abbrev auth : FilterEntry
auth = record {
  id = bytes "auth";
  source = bytes "auth.oci";
  digest = bytes "sha256:00";
  isolation = untrusted;
  init_deadline_ms = none;
  request_deadline_ms = some 50;
  max_memory_bytes = none;
  ratelimit = none;
  outbound = none;
}

abbrev all_to_web : Route
all_to_web = record {
  matcher = record {
    host = none;
    path_prefix = bytes "/";
    method = none;
    headers = [];
    query = [];
  };
  filters = bytes "auth" ∷ [];
  upstream = some (bytes "web");
  backends = [];
  strip_prefix = none;
  rate_limit = none;
}

abbrev manifest : Manifest
manifest = record {
  trust = [];
  filters = auth ∷ [];
  chain = bytes "auth" ∷ [];
  upstreams = web ∷ [];
  routes = all_to_web ∷ [];
  tls = [];
}

abbrev empty : Persistent
empty = (no_groups, pool)

abbrev no_config : ActiveConfig ℕ
no_config = record { filters = λ id. none; chain = []; routes = []; tls = none; hash = [] }

abbrev ok_or {ℓ} : {A : Type ℓ} → A → Result A → A
ok_or d (ok a) = a
ok_or d (err e) = d

abbrev config : ActiveConfig ℕ
config = ok_or no_config (build_active env manifest empty).0

-- Its chain names a filter that it does not have.
abbrev bad : Manifest
bad = record manifest { chain = bytes "waf" ∷ [] }

abbrev second : Manifest
second = record manifest { chain = [] }

abbrev running : ControlState ℕ
running = record {
  active = config;
  upstreams = (build_active env manifest empty).1;
  manifest_path = some (bytes "plecto.toml");
  trust = [];
}

runs :
    ((build_active env manifest empty).0 ≡ ok config)
    × (config.filters (bytes "auth") ≡ some pass)
    × ((build_active env bad empty).0 ≡ err (unknown_chain_filter (bytes "waf")))
    × ((reload_from_disk env running (ok bad)).0 ≡ err (unknown_chain_filter (bytes "waf")))
    × ((reload_from_disk env running (ok second)).0 ≡ ok (reloaded []))
unfolding build_active prepare load_filters load_filter check_chain validate_routes validate_route
    targets_of check_upstreams check_filters check_rate compile_routes resolve_targets gate verifies
    sbom_binds_component validate ratelimit_error load_options policy_of reconcile validate_from
    validate_lb weight_error algorithm_error hash_error weight_of address_of build_all build_group
    reusable instances_of Weighted.new Weighted.validate_split Weighted.weighted_schedule
    Weighted.compile Weighted.bounded_table Weighted.reduce_gcd Weighted.reduced Weighted.steps
    Weighted.credit Weighted.debit Weighted.gcd reload_from_disk read_version ensure_trust_unchanged
    trust_eq
runs = (refl, refl, refl, refl, refl)

build_active-all_or_nothing_example :
    ((build_active env bad empty).1 ≡ empty)
    × ((prepare env bad ≡ err (unknown_chain_filter (bytes "waf")))
        ⊎ ((reconcile env.space empty.1 empty.0 bad.upstreams).0
            ≡ some (unknown_chain_filter (bytes "waf"))))
build_active-all_or_nothing_example =
    build_active-all_or_nothing env bad empty (unknown_chain_filter (bytes "waf")) runs.2

build_active-IsPlaced_example :
    All (λ id. is_loaded config.filters id ≡ true) config.chain
    × All (IsPlaced config.filters (build_active env manifest empty).1.0 (web ∷ [])) config.routes
build_active-IsPlaced_example = build_active-IsPlaced env manifest empty config runs.0

build_active-CameFrom_example : CameFrom env (auth ∷ []) (bytes "auth") pass
build_active-CameFrom_example =
    build_active-CameFrom env manifest empty config (bytes "auth") pass runs.0 runs.1

reload_from_disk-kept_example : (reload_from_disk env running (ok bad)).1 ≡ running
reload_from_disk-kept_example =
    reload_from_disk-kept env running (ok bad) (unknown_chain_filter (bytes "waf")) runs.3

reload_from_disk_idempotent_example :
    let c' = (reload_from_disk env running (ok second)).1 in
    ((reload_from_disk env c' (ok second)).0 ≡ ok unchanged)
    × ((reload_from_disk env c' (ok second)).1 ≡ c')
reload_from_disk_idempotent_example =
    reload_from_disk_idempotent env running (ok second) (reloaded []) runs.4

-- The file of the first manifest, and one key.
abbrev read_keys : List Text → Result (List ℕ)
read_keys paths = ok (1 ∷ [])

abbrev loaded : ControlState ℕ
loaded = record running { trust = manifest.trust }

made : from_manifest_path env read_keys pool (bytes "plecto.toml") (ok manifest) ≡ ok (env, loaded)
unfolding from_manifest_path build_host_and_store
made =
    ap (λ r. started (some (bytes "plecto.toml")) manifest r >>= λ c. ok (env, c))
      (built_pair runs.0)
  where
    built_pair :
        (build_active env manifest empty).0 ≡ ok config
        → build_active env manifest empty ≡ (ok config, (build_active env manifest empty).1)
    built_pair e = ap (λ r. (r, (build_active env manifest empty).1)) e

from_manifest_path-serve_reloads_example :
    let c = serve_reloads env loaded (ok bad ∷ err io ∷ ok second ∷ []) in
    ((m : Manifest) × (read_keys m.trust ≡ ok (1 ∷ [])) × RunsFrom env m c.active c.upstreams)
    × (c.manifest_path ≡ some (bytes "plecto.toml"))
from_manifest_path-serve_reloads_example =
    from_manifest_path-serve_reloads env read_keys pool (bytes "plecto.toml") (ok manifest) env
      loaded (ok bad ∷ err io ∷ ok second ∷ []) made
