-- ===== src/Upstream/Registry.antt =====
-- control/src/upstream/registry.rs: the live set of upstream groups, and its reconciliation with a
-- manifest. A group that is built anew has a new pointer; an instance that is kept has its old one.
pub mod Kept
pub mod Reuse
pub mod Rebuilt
pub mod Examples
use plecto.Prelude.{
  ℕ, ◌+◌, ◌≡◌, Bool, true, false, ◌&&◌, ◌||◌, not, List, [], ◌∷◌, map, Option, none, some, Text,
  text_eq, any, find, update, if◌then◌else◌, ◌==◌, to_ascii_lowercase,
}
use plecto.Errors.{ControlError, empty_upstream_addresses, duplicate_upstream, invalid_upstream_lb}
use plecto.Maglev.{build}
use plecto.Manifest
use plecto.Manifest.{
  AddressSpec, address_of, weight_of, HashConfig, HashKeyKind, by_header, by_source_ip, LbError,
  validate_lb, use_round_robin, use_least_request, use_maglev,
}
use plecto.Upstream.{
  HealthConfig, UpstreamInstance, UpstreamGroup, Heap, LbState, round_robin, least_request, maglev,
  HashKeySource, header, source_ip,
}
use plecto.Upstream.Instance.{new}
use plecto.Upstream.Outlier.{set_instance}

-- An upstream of the manifest; `balancing` holds the fields that `validate_lb` reads.
pub record UpstreamSpec : Type 0 where
  pub name : Text
  pub balancing : Manifest.Upstream
  pub health : HealthConfig
  pub request_timeout_ms : ℕ
  pub overall_timeout_ms : ℕ
  pub max_retries : ℕ
  pub max_requests : ℕ
  pub consecutive_gateway_failures : ℕ
  pub base_ejection_time_ms : ℕ
  pub max_ejection_percent : ℕ

-- The map from names to groups.
pub record UpstreamRegistry : Type 0 where
  pub groups : Text → Option ℕ

abbrev pub is_nil {ℓ} : {A : Type ℓ} → List A → Bool
is_nil [] = true
is_nil (x ∷ xs) = false

abbrev pub lb_refusal : Text → Option LbError → Option ControlError → Option ControlError
lb_refusal name none rest = rest
lb_refusal name (some reason) rest = some (invalid_upstream_lb name reason)

-- The first loop of `reconcile`, with the names seen so far.
unfoldable pub validate_from : (ℕ → Bool) → List Text → List UpstreamSpec → Option ControlError
validate_from space seen [] = none
validate_from space seen (up ∷ rest) =
    let more = validate_from space (up.name ∷ seen) rest in
    if is_nil up.balancing.addresses
    then some (empty_upstream_addresses up.name)
    else if any (text_eq up.name) seen
    then some (duplicate_upstream up.name)
    else lb_refusal up.name (validate_lb space up.balancing) more

-- `PartialEq` of the health policy.
abbrev pub port_eq : Option ℕ → Option ℕ → Bool
port_eq none none = true
port_eq none (some p) = false
port_eq (some p) none = false
port_eq (some p) (some q) = p == q

abbrev pub health_eq : HealthConfig → HealthConfig → Bool
health_eq a b =
    text_eq a.path b.path
    && (a.interval_ms == b.interval_ms)
    && (a.timeout_ms == b.timeout_ms)
    && (a.healthy_threshold == b.healthy_threshold)
    && (a.unhealthy_threshold == b.unhealthy_threshold)
    && port_eq a.port b.port

-- The instances of the group of the same name, if its health policy is the same.
unfoldable pub reusable : Heap → Option ℕ → HealthConfig → List ℕ
reusable h none health = []
reusable h (some g) health =
    if health_eq (h.group_at g).health health then (h.group_at g).instances else []

abbrev pub is_same : Heap → AddressSpec → ℕ → Bool
is_same h spec p =
    text_eq (h.instance_at p).address (address_of spec)
    && ((h.instance_at p).weight == weight_of spec)

-- The old instance of an address and weight, or a new one.
abbrev pub keep_or_new : Heap → HealthConfig → AddressSpec → Option ℕ → ℕ × Heap
keep_or_new h health spec (some p) = (p, h)
keep_or_new h health spec none = (
  h.next_instance,
  record (set_instance h h.next_instance (new (address_of spec) (weight_of spec) health)) {
    next_instance = h.next_instance + 1;
  },
)

unfoldable pub instances_of : Heap → HealthConfig → List ℕ → List AddressSpec → List ℕ × Heap
instances_of h health old [] = ([], h)
instances_of h health old (spec ∷ specs) =
    let (p, h') = keep_or_new h health spec (find (is_same h spec) old) in
    let (ps, h'') = instances_of h' health old specs in (p ∷ ps, h'')

abbrev pub or_zero : Heap → Option ℕ → ℕ
or_zero h none = 0
or_zero h (some g) = (h.group_at g).rr

abbrev pub hash_key_of : Option HashConfig → Option HashKeySource
hash_key_of none = none
hash_key_of (some c) = elim c.key [
  | by_source_ip ↦ some source_ip
  | by_header ↦ elim c.header [
    | none ↦ some (header [])
    | some name ↦ some (header (to_ascii_lowercase name))
  ]
]

abbrev pub table_size_of : Option HashConfig → ℕ
table_size_of none = 65537
table_size_of (some c) = c.table_size

abbrev pub insert_group : Heap → UpstreamRegistry → Text → UpstreamGroup → UpstreamRegistry × Heap
insert_group h next name group = (
  record { groups = λ k. if text_eq name k then some h.next_group else next.groups k },
  record h { group_at = update h.group_at h.next_group group; next_group = h.next_group + 1 },
)

abbrev pub no_groups : UpstreamRegistry
no_groups = record { groups = λ name. none }

abbrev pub lb_of : Heap → List ℕ → Manifest.Upstream → LbState
lb_of h instances b = elim b.lb_algorithm [
  | use_round_robin ↦ round_robin
  | use_least_request ↦ least_request
  | use_maglev ↦ maglev (
      build (map (λ p. ((h.instance_at p).address, (h.instance_at p).weight)) instances)
        (table_size_of b.hash))
]

-- One turn of the second loop: the group of an upstream, from the group `prev` of its name.
unfoldable pub build_group : Heap → Option ℕ → UpstreamSpec → UpstreamGroup × Heap
build_group h prev up =
    let (instances, h') =
      instances_of h up.health (reusable h prev up.health) up.balancing.addresses in
    (
      record {
        name = up.name;
        health = up.health;
        instances = instances;
        request_timeout = up.request_timeout_ms;
        overall_timeout = up.overall_timeout_ms;
        max_retries = up.max_retries;
        rr = or_zero h prev;
        max_requests = up.max_requests;
        in_flight = 0;
        outlier_consecutive = up.consecutive_gateway_failures;
        outlier_base_ejection = up.base_ejection_time_ms;
        outlier_max_ejection_percent = up.max_ejection_percent;
        lb = lb_of h' instances up.balancing;
        hash_key = hash_key_of up.balancing.hash;
      },
      h',
    )

unfoldable pub build_all :
    Heap → UpstreamRegistry → UpstreamRegistry → List UpstreamSpec → UpstreamRegistry × Heap
build_all h old next [] = (next, h)
build_all h old next (up ∷ rest) =
    let (group, h') = build_group h (old.groups up.name) up in
    let (next', h'') = insert_group h' next up.name group in build_all h'' old next' rest

-- Nothing is built before every upstream is validated.
unfoldable pub reconcile :
    (ℕ → Bool)
    → Heap
    → UpstreamRegistry
    → List UpstreamSpec
    → Option ControlError × (UpstreamRegistry × Heap)
reconcile space h registry upstreams = elim (validate_from space [] upstreams) [
  | some e ↦ (some e, (registry, h))
  | none ↦ (none, build_all h registry no_groups upstreams)
]

-- `UpstreamRegistry::group`.
abbrev pub group : UpstreamRegistry → Text → Option ℕ
group registry name = registry.groups name
