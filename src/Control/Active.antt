-- ===== src/Control/Active.antt =====
-- control/src/lib.rs: `build_active`. What fails before the registry is reconciled leaves it alone.
use plecto.Prelude.{not, List, [], ◌∷◌, Option, none, some, Text, text_eq, if◌then◌else◌}
use plecto.Chain.{LoadedFilter}
use plecto.Errors.{
  ControlError, load, instantiate, invalid_filter_config, unknown_chain_filter, duplicate_filter_id,
  Result, ok, err, ◌>>=◌, ◌>>◌, refuse_if,
}
use plecto.Host.Gate.{SignedArtifact, gate}
use plecto.Manifest.Filters
use plecto.Manifest.Filters.{FilterEntry, FilterReason, load_options}
use plecto.Control.{Route, Manifest, Env, ActiveConfig, Persistent}
use plecto.Control.Routes.{Targets, is_loaded, validate_routes, compile_routes}
use plecto.Proxy.{RouteEntry}
use plecto.Upstream.Registry.{reconcile}

abbrev pub Filters_ : Type 0
Filters_ = Text → Option LoadedFilter

abbrev pub no_filters : Filters_
no_filters id = none

abbrev pub insert_filter : Filters_ → Text → LoadedFilter → Filters_
insert_filter filters id f k = if text_eq id k then some f else filters k

abbrev pub validated : Text → Option FilterReason → Result (Unit {0})
validated id none = ok tt
validated id (some reason) = err (invalid_filter_config id reason)

abbrev pub instantiated : Text → Option LoadedFilter → Result LoadedFilter
instantiated id none = err (instantiate id)
instantiated id (some f) = ok f

-- What the steps before `reconcile` make.
pub record Prepared (Tls : Type 0) : Type 0 where
  pub filters : Filters_
  pub routes : List (Route × Targets)
  pub tls : Option Tls
  pub hash : Text

module _ {Net Tls Key Value : Type 0} (env : Env Net Tls Key Value) where
  -- `Host::load`: the gate, and the runtime behind it.
  unfoldable pub load_filter : FilterEntry → SignedArtifact → Result LoadedFilter
  load_filter entry a = elim (gate env.crypto env.trusted_keys entry.id a) [
    | some refused ↦ err (load entry.id refused)
    | none ↦ instantiated entry.id (env.instantiate entry.id a (load_options env.parse entry))
  ]

  unfoldable pub load_filters : Filters_ → List FilterEntry → Result Filters_
  load_filters filters [] = ok filters
  load_filters filters (entry ∷ rest) = do
    refuse_if (is_loaded filters entry.id) (duplicate_filter_id entry.id)
    validated entry.id (Filters.validate env.outbound_http env.space env.parse entry)
    a ← env.resolve entry.source entry.digest
    f ← load_filter entry a
    load_filters (insert_filter filters entry.id f) rest

  unfoldable pub check_chain : Filters_ → List Text → Result (Unit {0})
  check_chain filters [] = ok tt
  check_chain filters (id ∷ ids) =
      refuse_if (not (is_loaded filters id)) (unknown_chain_filter id) >> check_chain filters ids

  unfoldable pub prepare : Manifest → Result (Prepared Tls)
  prepare m = do
    filters ← load_filters no_filters m.filters
    check_chain filters m.chain
    routes ← validate_routes filters m.upstreams m.routes
    tls ← env.build_server_configs m.tls
    hash ← env.content_hash m
    ok (record { filters = filters; routes = routes; tls = tls; hash = hash })

  abbrev pub active_of : Manifest → Prepared Tls → List RouteEntry → ActiveConfig Tls
  active_of m p routes = record {
    filters = p.filters;
    chain = m.chain;
    routes = routes;
    tls = p.tls;
    hash = p.hash;
  }

  abbrev pub after_reconcile :
      Manifest
      → Prepared Tls
      → Option ControlError × Persistent
      → Result (ActiveConfig Tls) × Persistent
  after_reconcile m p (some e, s) = (err e, s)
  after_reconcile m p (none, s) = (
    compile_routes env.reads_body env.hasher s.0 p.filters p.routes >>= λ routes.
        ok (active_of m p routes),
    s,
  )

  abbrev pub after_prepare :
      Manifest → Persistent → Result (Prepared Tls) → Result (ActiveConfig Tls) × Persistent
  after_prepare m s (err e) = (err e, s)
  after_prepare m s (ok p) = after_reconcile m p (reconcile env.space s.1 s.0 m.upstreams)

  unfoldable pub build_active : Manifest → Persistent → Result (ActiveConfig Tls) × Persistent
  build_active m s = after_prepare m s (prepare m)
