-- ===== src/Upstream.antt =====
-- control/src/upstream/mod.rs, and the shared state of its children.
--
-- An `Arc<UpstreamInstance>` or `Arc<UpstreamGroup>` is a pointer, a number, into a `Heap`: the code
-- shares instances between groups and compares them by `Arc::ptr_eq`. The atomics of an instance or a
-- group are fields of its record, and so are what its mutex guards and the mutex's poison mark.
use plecto.Prelude.{ℕ, Bool, List, Option, Text}
use plecto.Maglev.{MaglevTable}
pub mod Examples
pub mod Instance
pub mod Breaker
pub mod Outlier
pub mod Registry
pub mod Lb

pub record HealthConfig : Type 0 where
  pub path : Text
  pub interval_ms : ℕ
  pub timeout_ms : ℕ
  pub healthy_threshold : ℕ
  pub unhealthy_threshold : ℕ
  pub port : Option ℕ

pub record HealthCounters : Type 0 where
  pub consecutive_ok : ℕ
  pub consecutive_fail : ℕ
  pub ever_healthy : Bool
  pub consecutive_gw_fail : ℕ
  pub outlier_eject_count : ℕ

pub record UpstreamInstance : Type 0 where
  pub address : Text
  pub weight : ℕ
  pub healthy : Bool
  pub in_flight : ℕ
  pub counters : HealthCounters
  pub poisoned : Bool
  pub healthy_threshold : ℕ
  pub unhealthy_threshold : ℕ
  pub outlier_ejected_until_ms : ℕ

pub data HashKeySource : Type 0 where
  header : Text → HashKeySource
  source_ip : HashKeySource

pub data LbState : Type 0 where
  round_robin : LbState
  least_request : LbState
  maglev : MaglevTable → LbState

-- Durations are in milliseconds.
pub record UpstreamGroup : Type 0 where
  pub name : Text
  pub health : HealthConfig
  pub instances : List ℕ
  pub request_timeout : ℕ
  pub overall_timeout : ℕ
  pub max_retries : ℕ
  pub rr : ℕ
  pub max_requests : ℕ
  pub in_flight : ℕ
  pub outlier_consecutive : ℕ
  pub outlier_base_ejection : ℕ
  pub outlier_max_ejection_percent : ℕ
  pub lb : LbState
  pub hash_key : Option HashKeySource

-- Every `Arc` points at an allocated value: the pointers below `next_instance` and `next_group`.
pub record Heap : Type 0 where
  pub instance_at : ℕ → UpstreamInstance
  pub next_instance : ℕ
  pub group_at : ℕ → UpstreamGroup
  pub next_group : ℕ
