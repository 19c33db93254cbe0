-- ===== src/Host.antt =====
-- host/src/lib.rs: what the host lends a filter. Each capability holds the quota's and the store's
-- locks in turn; the calls of this model run one after the other.
pub mod Quota
pub mod Capabilities
pub mod Keys
pub mod Effect
pub mod Isolation
pub mod Log
pub mod Gate
pub mod Examples
use plecto.Prelude.{ℕ, List, [], ◌∷◌, ◌++◌, Option, Text}
use plecto.Bucket.{Bucket}
use plecto.Kv.{MemoryBackend}

-- KV_NS_DELIM and the tags of the three primitives.
abbrev pub kv_ns_delim : ℕ
kv_ns_delim = 31

abbrev pub tag_kv : ℕ
tag_kv = b'k'

abbrev pub tag_counter : ℕ
tag_counter = b'c'

abbrev pub tag_ratelimit : ℕ
tag_ratelimit = b'r'

-- MAX_KV_VALUE_BYTES, MAX_KV_KEY_BYTES, and the caps on a namespace and on the host.
abbrev pub max_kv_value_bytes : ℕ
max_kv_value_bytes = 262144

abbrev pub max_kv_key_bytes : ℕ
max_kv_key_bytes = 1024

abbrev pub max_ns_entries : ℕ
max_ns_entries = 100000

abbrev pub max_ns_bytes : ℕ
max_ns_bytes = 67108864

abbrev pub max_total_entries : ℕ
max_total_entries = 5000000

abbrev pub max_total_bytes : ℕ
max_total_bytes = 1073741824

-- The fields of a filter's state that the key-value, counter and rate-limit capabilities read.
pub record HostState : Type 0 where
  pub kv_prefix : Text
  pub now_ms : ℕ
  pub ratelimit_bucket : Option Bucket

pub record NsUsage : Type 0 where
  pub entries : ℕ
  pub bytes_ : ℕ

-- A namespace that is not in the map reads as one with no usage.
pub record QuotaInner : Type 0 where
  pub ns : Text → NsUsage
  pub total_entries : ℕ
  pub total_bytes : ℕ

-- What the filters of one host share.
pub record Store : Type 0 where
  pub kv : MemoryBackend
  pub quota : QuotaInner

-- `load_inner` gives a filter the prefix of its id.
abbrev pub kv_prefix_of : Text → Text
kv_prefix_of filter_id = filter_id ++ kv_ns_delim ∷ []

abbrev pub ns_key : HostState → ℕ → Text → Text
ns_key h tag key = h.kv_prefix ++ tag ∷ kv_ns_delim ∷ key
