-- ===== src/Manifest/Filters.antt =====
-- control/src/manifest: a filter's entry (mod.rs), its validation (validate.rs) and what it lowers to
-- (lowering.rs), with the options of host/src/lib.rs. A build without the feature `outbound-http` lends no
-- outbound calls. `parse` is the CIDR parser of ipnet, and `space` the white space that `trim` removes.
use plecto.Prelude.{
  ℕ, Bool, true, false, ◌&&◌, List, [], ◌∷◌, map, Option, none, some, Text, all, if◌then◌else◌, ltb,
  ◌==◌,
}
use plecto.Bucket.{Bucket}
use plecto.Outbound
use plecto.Outbound.{OutboundPolicy, AllowEntry}
use plecto.Outbound.Options.{with_outbound, unwrap_or}

pub data IsolationKind : Type 0 where
  untrusted trusted : IsolationKind

pub data SchemeKind : Type 0 where
  https http : SchemeKind

pub record RateLimitConfig : Type 0 where
  pub capacity : ℕ
  pub refill_tokens : ℕ
  pub refill_interval_ms : ℕ

pub record AllowDest : Type 0 where
  pub host : Text
  pub port : Option ℕ
  pub scheme : SchemeKind

pub record OutboundConfig : Type 0 where
  pub allow : List AllowDest
  pub allow_private : List Text
  pub connect_timeout_ms : Option ℕ
  pub total_timeout_ms : Option ℕ
  pub max_response_bytes : Option ℕ
  pub max_concurrent : Option ℕ

pub record FilterEntry : Type 0 where
  pub id : Text
  pub source : Text
  pub digest : Text
  pub isolation : IsolationKind
  pub init_deadline_ms : Option ℕ
  pub request_deadline_ms : Option ℕ
  pub max_memory_bytes : Option ℕ
  pub ratelimit : Option RateLimitConfig
  pub outbound : Option OutboundConfig

-- The reasons of `InvalidFilterConfig`.
pub data FilterReason : Type 0 where
  zero_init_deadline zero_request_deadline zero_memory zero_capacity zero_interval : FilterReason
  no_outbound_build no_destination empty_host zero_connect_timeout : FilterReason
  zero_total_timeout zero_response_bytes zero_concurrent : FilterReason
  zero_port invalid_cidr : Text → FilterReason

-- `== Some(0)`.
abbrev pub is_some_zero : Option ℕ → Bool
is_some_zero none = false
is_some_zero (some n) = n == 0

abbrev pub is_nil {ℓ} : {A : Type ℓ} → List A → Bool
is_nil [] = true
is_nil (x ∷ xs) = false

unfoldable pub ratelimit_error : Option RateLimitConfig → Option FilterReason
ratelimit_error none = none
ratelimit_error (some rl) =
    if rl.capacity == 0
    then some zero_capacity
    else if ltb 0 rl.refill_tokens && (rl.refill_interval_ms == 0)
    then some zero_interval
    else none

unfoldable pub allow_error : (ℕ → Bool) → List AllowDest → Option FilterReason
allow_error space [] = none
allow_error space (dest ∷ rest) =
    let more = allow_error space rest in
    if all space dest.host
    then some empty_host
    else if is_some_zero dest.port
    then some (zero_port dest.host)
    else more

abbrev pub cidr_or : {Net : Type 0} → Text → Option Net → Option FilterReason → Option FilterReason
cidr_or cidr none more = some (invalid_cidr cidr)
cidr_or cidr (some net) more = more

unfoldable pub cidr_error : {Net : Type 0} → (Text → Option Net) → List Text → Option FilterReason
cidr_error parse [] = none
cidr_error parse (cidr ∷ rest) = cidr_or cidr (parse cidr) (cidr_error parse rest)

abbrev pub or_reason : Option FilterReason → Option FilterReason → Option FilterReason
or_reason none later = later
or_reason (some r) later = some r

unfoldable pub bounds_error : OutboundConfig → Option FilterReason
bounds_error ob =
    if is_some_zero ob.connect_timeout_ms
    then some zero_connect_timeout
    else if is_some_zero ob.total_timeout_ms
    then some zero_total_timeout
    else if is_some_zero ob.max_response_bytes
    then some zero_response_bytes
    else if is_some_zero ob.max_concurrent
    then some zero_concurrent
    else none

-- Both versions of `validate_outbound`.
unfoldable pub validate_outbound :
    {Net : Type 0} → Bool → (ℕ → Bool) → (Text → Option Net) → OutboundConfig → Option FilterReason
validate_outbound false space parse ob = some no_outbound_build
validate_outbound true space parse ob =
    if is_nil ob.allow
    then some no_destination
    else or_reason (allow_error space ob.allow)
        (or_reason (cidr_error parse ob.allow_private) (bounds_error ob))

abbrev pub outbound_error :
    {Net : Type 0}
    → Bool
    → (ℕ → Bool)
    → (Text → Option Net)
    → Option OutboundConfig
    → Option FilterReason
outbound_error feature space parse none = none
outbound_error feature space parse (some ob) = validate_outbound feature space parse ob

-- `FilterEntry::validate`.
unfoldable pub validate :
    {Net : Type 0} → Bool → (ℕ → Bool) → (Text → Option Net) → FilterEntry → Option FilterReason
validate feature space parse entry =
    if is_some_zero entry.init_deadline_ms
    then some zero_init_deadline
    else if is_some_zero entry.request_deadline_ms
    then some zero_request_deadline
    else if is_some_zero entry.max_memory_bytes
    then some zero_memory
    else or_reason (ratelimit_error entry.ratelimit)
        (outbound_error feature space parse entry.outbound)

-- The options that a manifest can set; the others keep the defaults of the host.
pub record LoadOptions (Net : Type 0) : Type 0 where
  pub isolation : IsolationKind
  pub init_deadline_ms : ℕ
  pub request_deadline_ms : ℕ
  pub max_memory_bytes : ℕ
  pub ratelimit_bucket : Option Bucket
  pub outbound : Option (OutboundPolicy Net)

-- DEFAULT_INIT_DEADLINE_MS, DEFAULT_UNTRUSTED_INIT_DEADLINE_MS, DEFAULT_REQUEST_DEADLINE_MS and
-- DEFAULT_MAX_MEMORY_BYTES.
abbrev pub default_init_deadline_ms : IsolationKind → ℕ
default_init_deadline_ms trusted = 5000
default_init_deadline_ms untrusted = 250

abbrev pub default_request_deadline_ms : ℕ
default_request_deadline_ms = 100

abbrev pub default_max_memory_bytes : ℕ
default_max_memory_bytes = 67108864

abbrev pub bucket_of : Option RateLimitConfig → Option Bucket
bucket_of none = none
bucket_of (some rl) = some (record {
  capacity = rl.capacity;
  refill_tokens = rl.refill_tokens;
  refill_interval_ms = rl.refill_interval_ms;
})

abbrev pub scheme_of : SchemeKind → Outbound.Scheme
scheme_of https = Outbound.https
scheme_of http = Outbound.http

abbrev pub default_port : SchemeKind → ℕ
default_port https = 443
default_port http = 80

abbrev pub allow_entry : AllowDest → AllowEntry
allow_entry d = record {
  scheme = scheme_of d.scheme;
  host = d.host;
  port = unwrap_or d.port (default_port d.scheme);
}

abbrev pub cons_some : {Net : Type 0} → Option Net → List Net → List Net
cons_some none nets = nets
cons_some (some net) nets = net ∷ nets

-- `filter_map(|c| c.parse().ok())` of `with_outbound`.
unfoldable pub parsed : {Net : Type 0} → (Text → Option Net) → List Text → List Net
parsed parse [] = []
parsed parse (cidr ∷ rest) = cons_some (parse cidr) (parsed parse rest)

unfoldable pub policy_of :
    {Net : Type 0} → (Text → Option Net) → Option OutboundConfig → Option (OutboundPolicy Net)
policy_of parse none = none
policy_of parse (some ob) = some (
    with_outbound (map allow_entry ob.allow) (parsed parse ob.allow_private) ob.connect_timeout_ms
      ob.total_timeout_ms ob.max_response_bytes ob.max_concurrent)

-- `FilterEntry::load_options`, in a build that has outbound calls.
unfoldable pub load_options : {Net : Type 0} → (Text → Option Net) → FilterEntry → LoadOptions Net
load_options parse entry = record {
  isolation = entry.isolation;
  init_deadline_ms = unwrap_or entry.init_deadline_ms (default_init_deadline_ms entry.isolation);
  request_deadline_ms = unwrap_or entry.request_deadline_ms default_request_deadline_ms;
  max_memory_bytes = unwrap_or entry.max_memory_bytes default_max_memory_bytes;
  ratelimit_bucket = bucket_of entry.ratelimit;
  outbound = policy_of parse entry.outbound;
}
