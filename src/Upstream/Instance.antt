-- ===== src/Upstream/Instance.antt =====
-- control/src/upstream/instance.rs: the health state machine of one instance. Each method holds the
-- instance's mutex from its first read to its last write, so it is one step on the record.
pub mod Health
pub mod Streaks
use plecto.Prelude.{
  ℕ, ◌≤◌, Bool, true, false, ◌&&◌, List, [], ◌∷◌, max, saturating_add, u32_max, if◌then◌else◌, leb,
  ltb, Text,
}
use plecto.Upstream.{HealthConfig, HealthCounters, UpstreamInstance}

abbrev fresh_counters : HealthCounters
fresh_counters = record {
  consecutive_ok = 0;
  consecutive_fail = 0;
  ever_healthy = false;
  consecutive_gw_fail = 0;
  outlier_eject_count = 0;
}

unfoldable pub new : Text → ℕ → HealthConfig → UpstreamInstance
new address weight health = record {
  address = address;
  weight = max weight 1;
  healthy = false;
  in_flight = 0;
  counters = fresh_counters;
  poisoned = false;
  healthy_threshold = max health.healthy_threshold 1;
  unhealthy_threshold = max health.unhealthy_threshold 1;
  outlier_ejected_until_ms = 0;
}

abbrev pub is_outlier_ejected : UpstreamInstance → ℕ → Bool
is_outlier_ejected i now_ms = ltb now_ms i.outlier_ejected_until_ms

-- The second half of `record_probe_success`, from the increment of `consecutive_ok`.
promote : UpstreamInstance → HealthCounters → UpstreamInstance
promote i c =
    let ok = saturating_add u32_max c.consecutive_ok 1 in
    let need = if c.ever_healthy then i.healthy_threshold else 1 in
    if leb need ok
    then record i {
      counters = record c { ever_healthy = true; consecutive_ok = 0 };
      healthy = true;
    }
    else record i { counters = record c { consecutive_ok = ok } }

unfoldable pub record_probe_success : UpstreamInstance → UpstreamInstance
unfolding promote
record_probe_success i =
    let c = record i.counters { consecutive_fail = 0 } in
    if i.poisoned then i else if i.healthy then record i { counters = c } else promote i c

unfoldable pub record_failure : UpstreamInstance → UpstreamInstance
record_failure i =
    let fail = saturating_add u32_max i.counters.consecutive_fail 1 in
    let c = record i.counters { consecutive_ok = 0; consecutive_fail = fail } in
    if i.poisoned
    then i
    else if i.healthy && leb i.unhealthy_threshold fail
    then record i { counters = record c { consecutive_fail = 0 }; healthy = false }
    else record i { counters = c }

-- `record_probe_failure` and `record_passive_failure` differ in what they log.
unfoldable pub record_probe_failure : UpstreamInstance → UpstreamInstance
unfolding record_failure
record_probe_failure i = record_failure i

unfoldable pub record_passive_failure : UpstreamInstance → UpstreamInstance
unfolding record_failure
record_passive_failure i = record_failure i

-- What the prober and the fast path report of an instance.
pub data Signal : Type 0 where
  probe_success probe_failure passive_failure : Signal

unfoldable pub observe : UpstreamInstance → Signal → UpstreamInstance
unfolding record_probe_success record_probe_failure record_passive_failure
observe i probe_success = record_probe_success i
observe i probe_failure = record_probe_failure i
observe i passive_failure = record_passive_failure i

unfoldable pub observe_all : UpstreamInstance → List Signal → UpstreamInstance
observe_all i [] = i
observe_all i (s ∷ ss) = observe_all (observe i s) ss
