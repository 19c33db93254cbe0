-- ===== src/Upstream/Instance/Streaks.antt =====
-- How many probes in a row move an instance in or out of rotation.
use plecto.Prelude.{
  ℕ, ◌+◌, ◌≡◌, refl, Bool, true, false, List, [], ◌∷◌, arith, ltb, leb, length, all, Text,
  Bool-cases, inl, inr, &&_iff,
}
use plecto.Upstream.{HealthConfig, UpstreamInstance}
use plecto.Upstream.Instance.{
  new, Signal, probe_success, probe_failure, passive_failure, observe, observe_all,
}
use plecto.Upstream.Instance.Health.{IsValid, observe-IsValid}

abbrev pub is_failure : Signal → Bool
is_failure probe_success = false
is_failure probe_failure = true
is_failure passive_failure = true

abbrev pub is_success : Signal → Bool
is_success probe_success = true
is_success probe_failure = false
is_success passive_failure = false

failure_down :
    (i : UpstreamInstance) (s : Signal)
    → is_failure s ≡ true
    → i.healthy ≡ false
    → (observe i s).healthy ≡ false
unfolding observe
failure_down i probe_success f d = ground arith
failure_down i probe_failure f d = ground arith
failure_down i passive_failure f d = ground arith

failure_up :
    (i : UpstreamInstance) (s : Signal)
    → is_failure s ≡ true
    → IsValid i
    → i.poisoned ≡ false
    → i.healthy ≡ true
    → ((observe i s).healthy ≡ ltb (i.counters.consecutive_fail + 1) i.unhealthy_threshold)
      × ((observe i s).healthy ≡ true
          → (observe i s).counters.consecutive_fail ≡ i.counters.consecutive_fail + 1)
      × ((observe i s).poisoned ≡ false)
      × ((observe i s).unhealthy_threshold ≡ i.unhealthy_threshold)
unfolding observe
failure_up i probe_success f v p u = ground arith
failure_up i probe_failure f v p u = ground arith
failure_up i passive_failure f v p u = ground arith

failures_down :
    (i : UpstreamInstance) (ss : List Signal)
    → all is_failure ss ≡ true
    → i.healthy ≡ false
    → (observe_all i ss).healthy ≡ false
unfolding observe_all
failures_down i [] f d = d
failures_down i (s ∷ ss) f d =
    let both = (&&_iff (is_failure s) (all is_failure ss)).0 f in
    failures_down (observe i s) ss both.1 (failure_down i s both.0 d)

-- An instance in rotation that has a streak of `consecutive_fail` failures, and then only fails, stays
-- in rotation exactly as long as the streak is below the unhealthy threshold. Probes and requests
-- count alike.
pub failures_eject :
    (i : UpstreamInstance) (ss : List Signal)
    → IsValid i
    → i.poisoned ≡ false
    → i.healthy ≡ true
    → all is_failure ss ≡ true
    → (observe_all i ss).healthy
      ≡ ltb (i.counters.consecutive_fail + length ss) i.unhealthy_threshold
unfolding observe_all
failures_eject i [] v p u f = ground (arith, v.up_short u)
failures_eject i (s ∷ ss) v p u f =
    let both = (&&_iff (is_failure s) (all is_failure ss)).0 f in
    let step = failure_up i s both.0 v p u in
    elim (Bool-cases (observe i s).healthy) [
      | inl up ↦ ground (
        arith,
        failures_eject (observe i s) ss (observe-IsValid i s v) step.2 up both.1,
        step.1 up,
        step.3,
      )
      | inr down ↦ ground (arith, failures_down (observe i s) ss both.1 down, step.0)
    ]

success_up :
    (i : UpstreamInstance) (s : Signal)
    → is_success s ≡ true
    → i.healthy ≡ true
    → (observe i s).healthy ≡ true
unfolding observe
success_up i probe_success f u = ground arith
success_up i probe_failure f u = ground arith
success_up i passive_failure f u = ground arith

successes_up :
    (i : UpstreamInstance) (ss : List Signal)
    → all is_success ss ≡ true
    → i.healthy ≡ true
    → (observe_all i ss).healthy ≡ true
unfolding observe_all
successes_up i [] f u = u
successes_up i (s ∷ ss) f u =
    let both = (&&_iff (is_success s) (all is_success ss)).0 f in
    successes_up (observe i s) ss both.1 (success_up i s both.0 u)

success_down :
    (i : UpstreamInstance) (s : Signal)
    → is_success s ≡ true
    → IsValid i
    → i.poisoned ≡ false
    → i.healthy ≡ false
    → i.counters.ever_healthy ≡ true
    → ((observe i s).healthy ≡ leb i.healthy_threshold (i.counters.consecutive_ok + 1))
      × ((observe i s).healthy ≡ false
          → (observe i s).counters.consecutive_ok ≡ i.counters.consecutive_ok + 1)
      × ((observe i s).poisoned ≡ false)
      × ((observe i s).healthy_threshold ≡ i.healthy_threshold)
      × ((observe i s).counters.ever_healthy ≡ true)
unfolding observe
success_down i probe_success f v p d e = ground (arith, v.down_short d e)
success_down i probe_failure f v p d e = ground arith
success_down i passive_failure f v p d e = ground arith

-- An instance that was ejected and has a streak of `consecutive_ok` successes, and then only succeeds,
-- is back in rotation exactly from the healthy threshold on.
pub successes_restore :
    (i : UpstreamInstance) (ss : List Signal)
    → IsValid i
    → i.poisoned ≡ false
    → i.healthy ≡ false
    → i.counters.ever_healthy ≡ true
    → all is_success ss ≡ true
    → (observe_all i ss).healthy ≡ leb i.healthy_threshold (i.counters.consecutive_ok + length ss)
unfolding observe_all
successes_restore i [] v p d e f = ground (arith, v.down_short d e)
successes_restore i (s ∷ ss) v p d e f =
    let both = (&&_iff (is_success s) (all is_success ss)).0 f in
    let step = success_down i s both.0 v p d e in
    elim (Bool-cases (observe i s).healthy) [
      | inl up ↦ ground (arith, successes_up (observe i s) ss both.1 up, step.0)
      | inr down ↦ ground (
        arith,
        successes_restore (observe i s) ss (observe-IsValid i s v) step.2 down step.4 both.1,
        step.1 down,
        step.3,
      )
    ]

failure_cold :
    (i : UpstreamInstance) (s : Signal)
    → is_failure s ≡ true
    → i.counters.ever_healthy ≡ false
    → i.healthy ≡ false
    → i.poisoned ≡ false
    → ((observe i s).counters.ever_healthy ≡ false)
      × ((observe i s).healthy ≡ false)
      × ((observe i s).poisoned ≡ false)
unfolding observe
failure_cold i probe_success f e d p = ground arith
failure_cold i probe_failure f e d p = ground arith
failure_cold i passive_failure f e d p = ground arith

success_cold :
    (i : UpstreamInstance)
    → i.counters.ever_healthy ≡ false
    → i.healthy ≡ false
    → i.poisoned ≡ false
    → (observe i probe_success).healthy ≡ true
unfolding observe
success_cold i e d p = ground arith

failures_cold :
    (i : UpstreamInstance) (ss : List Signal)
    → all is_failure ss ≡ true
    → i.counters.ever_healthy ≡ false
    → i.healthy ≡ false
    → i.poisoned ≡ false
    → ((observe_all i ss).healthy ≡ false)
      × ((observe (observe_all i ss) probe_success).healthy ≡ true)
unfolding observe_all
failures_cold i [] f e d p = (d, success_cold i e d p)
failures_cold i (s ∷ ss) f e d p =
    let both = (&&_iff (is_failure s) (all is_failure ss)).0 f in
    let next = failure_cold i s both.0 e d p in
    failures_cold (observe i s) ss both.1 next.0 next.1 next.2

-- A fresh instance is out of rotation, failures leave it there, and then one successful probe puts it
-- in, whatever the healthy threshold.
pub cold_start :
    (address : Text) (weight : ℕ) (h : HealthConfig) (ss : List Signal)
    → all is_failure ss ≡ true
    → ((observe_all (new address weight h) ss).healthy ≡ false)
      × ((observe (observe_all (new address weight h) ss) probe_success).healthy ≡ true)
unfolding new
cold_start address weight h ss f = failures_cold (new address weight h) ss f refl refl refl
