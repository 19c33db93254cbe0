-- ===== src/Upstream/Instance/Health.antt =====
-- The invariant of the health state machine.
use plecto.Prelude.{ℕ, ◌≤◌, ◌<◌, ◌≡◌, true, false, List, [], ◌∷◌, arith, u32_max, Text}
use plecto.Upstream.{HealthConfig, UpstreamInstance}
use plecto.Upstream.Instance.{
  new, Signal, probe_success, probe_failure, passive_failure, observe, observe_all,
}

-- The thresholds are u32 values of at least 1; an instance in rotation has been healthy, counts no
-- successes, and is short of its failure threshold; one out of rotation is short of its promotion.
pub record IsValid (i : UpstreamInstance) : Type 0 where
  pub healthy_pos : 1 ≤ i.healthy_threshold
  pub healthy_word : i.healthy_threshold ≤ u32_max
  pub unhealthy_pos : 1 ≤ i.unhealthy_threshold
  pub unhealthy_word : i.unhealthy_threshold ≤ u32_max
  pub weight_pos : 1 ≤ i.weight
  pub fail_word : i.counters.consecutive_fail ≤ u32_max
  pub up_known : i.healthy ≡ true → i.counters.ever_healthy ≡ true
  pub up_settled : i.healthy ≡ true → i.counters.consecutive_ok ≡ 0
  pub up_short : i.healthy ≡ true → i.counters.consecutive_fail < i.unhealthy_threshold
  pub down_short :
      i.healthy ≡ false
      → i.counters.ever_healthy ≡ true
      → i.counters.consecutive_ok < i.healthy_threshold
  pub cold_short : i.counters.ever_healthy ≡ false → i.counters.consecutive_ok ≡ 0

pub new-IsValid :
    (address : Text) (weight : ℕ) (h : HealthConfig)
    → h.healthy_threshold ≤ u32_max
    → h.unhealthy_threshold ≤ u32_max
    → IsValid (new address weight h)
unfolding new
new-IsValid address weight h p q = ground arith

pub observe-IsValid : (i : UpstreamInstance) (s : Signal) → IsValid i → IsValid (observe i s)
unfolding observe
observe-IsValid i probe_success v = ground arith
observe-IsValid i probe_failure v = ground arith
observe-IsValid i passive_failure v = ground arith

-- Every history of probes and of passive failures keeps the state machine's invariant.
pub observe_all-IsValid :
    (i : UpstreamInstance) (ss : List Signal) → IsValid i → IsValid (observe_all i ss)
unfolding observe_all
observe_all-IsValid i [] v = v
observe_all-IsValid i (s ∷ ss) v = observe_all-IsValid (observe i s) ss (observe-IsValid i s v)
