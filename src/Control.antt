-- ===== src/Control.antt =====
-- control/src/lib.rs and control_reload.rs: the manifest's parts that a build reads, and the state of the
-- control plane. `Routes` has the routes of a manifest, `Active` the build of an active configuration,
-- and `Reload` the reloads. `Net` is a parsed range of addresses, `Tls` a TLS configuration, and `Key`
-- and `Value` are the trusted keys and the JSON values of the load gate.
pub mod Routes
pub mod Active
pub mod Start
pub mod Reload
pub mod Checked
pub mod Compiled
pub mod Atomic
pub mod Resolved
pub mod Signed
pub mod Running
pub mod Live
pub mod Examples
use plecto.Prelude.{ℕ, Bool, List, Option, Text}
use plecto.Bucket.{Bucket}
use plecto.Chain.{LoadedFilter}
use plecto.Errors.{Result}
use plecto.Host.Gate.{SignedArtifact, Crypto}
use plecto.Manifest.Filters.{FilterEntry, LoadOptions}
use plecto.Proxy.{RouteEntry}
use plecto.RateLimit.{RouteRateLimit}
use plecto.Upstream.{Heap}
use plecto.Upstream.Registry.{UpstreamSpec, UpstreamRegistry}

-- The maps of a matcher are ordered lists of their entries.
pub record RouteMatch : Type 0 where
  pub host : Option Text
  pub path_prefix : Text
  pub method : Option Text
  pub headers : List (Text × Text)
  pub query : List (Text × Text)

pub record Backend : Type 0 where
  pub upstream : Text
  pub weight : ℕ

pub record Route : Type 0 where
  pub matcher : RouteMatch
  pub filters : List Text
  pub upstream : Option Text
  pub backends : List Backend
  pub strip_prefix : Option Text
  pub rate_limit : Option RouteRateLimit

pub record TlsCert : Type 0 where
  pub host : Option Text
  pub cert_path : Text
  pub key_path : Text

-- `trust` lists the paths of the trusted keys, and `chain` the filters of the default chain.
pub record Manifest : Type 0 where
  pub trust : List Text
  pub filters : List FilterEntry
  pub chain : List Text
  pub upstreams : List UpstreamSpec
  pub routes : List Route
  pub tls : List TlsCert

-- What a build calls: the artifact store, the runtime once the gate has let a component through, the
-- TLS library, the hash of a serialized manifest, the hasher of a limiter's table, and the parsers.
pub record Env (Net Tls Key Value : Type 0) : Type 0 where
  pub outbound_http : Bool
  pub space : ℕ → Bool
  pub parse : Text → Option Net
  pub resolve : Text → Text → Result SignedArtifact
  pub crypto : Crypto Key Value
  pub trusted_keys : List Key
  pub instantiate : Text → SignedArtifact → LoadOptions Net → Option LoadedFilter
  pub reads_body : LoadedFilter → Bool
  pub build_server_configs : List TlsCert → Result (Option Tls)
  pub content_hash : Manifest → Result Text
  pub hasher : Text → ℕ

-- The filters are a map from their ids.
pub record ActiveConfig (Tls : Type 0) : Type 0 where
  pub filters : Text → Option LoadedFilter
  pub chain : List Text
  pub routes : List RouteEntry
  pub tls : Option Tls
  pub hash : Text

-- The persistent upstreams: the registry and the heap that it points into.
abbrev pub Persistent : Type 0
Persistent = UpstreamRegistry × Heap

pub record ControlState (Tls : Type 0) : Type 0 where
  pub active : ActiveConfig Tls
  pub upstreams : Persistent
  pub manifest_path : Option Text
  pub trust : List Text
