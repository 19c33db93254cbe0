-- ===== src/Upstream/Examples.antt =====
-- The health state machine, the breaker and outlier ejection at concrete histories.
use plecto.Prelude.{◌≤◌, ◌+◌, ◌-◌, ◌*◌, ◌≡◌, refl, true, false, List, [], ◌∷◌, arith, total}
use plecto.Upstream.{UpstreamInstance, round_robin}
use plecto.Upstream.Instance.{observe_all, Signal, probe_failure, passive_failure}
use plecto.Upstream.Instance.Health.{IsValid}
use plecto.Upstream.Instance.Streaks.{failures_eject}
use plecto.Upstream.Breaker.Interleaving.{permits, run, start, busy, permits-capped}
use plecto.Upstream.Outlier.{already_ejected, decide, eject, outlier_enabled, window_ms}
use plecto.Upstream.Outlier.Cap.{Capped}
use plecto.Upstream.Outlier.Reports.{
  Event, report, store, report_steps, report_step, between_reports, report_steps-Capped,
}
use plecto.Upstream.Lb.Examples.{idle_instance, group_of, pool}

abbrev up : UpstreamInstance
up = idle_instance

up-IsValid : IsValid up
up-IsValid = record {
  healthy_pos = omega arith;
  healthy_word = omega arith;
  unhealthy_pos = omega arith;
  unhealthy_word = omega arith;
  weight_pos = omega arith;
  fail_word = omega arith;
  up_known = λ e. refl;
  up_settled = λ e. refl;
  up_short = λ e. omega arith;
  down_short = λ e k. omega arith;
  cold_short = λ e. refl;
}

abbrev down : UpstreamInstance
down = record up { healthy = false }

down-IsValid : IsValid down
down-IsValid = record {
  healthy_pos = omega arith;
  healthy_word = omega arith;
  unhealthy_pos = omega arith;
  unhealthy_word = omega arith;
  weight_pos = omega arith;
  fail_word = omega arith;
  up_known = λ e. refl;
  up_settled = λ e. refl;
  up_short = λ e. omega arith;
  down_short = λ e k. omega arith;
  cold_short = λ e. refl;
}

abbrev failures : List Signal
failures = probe_failure ∷ passive_failure ∷ probe_failure ∷ []

failures_eject_example : (observe_all up failures).healthy ≡ false
failures_eject_example = failures_eject up failures up-IsValid refl refl refl

-- Three callers race for one permit.
permits-capped_example :
    (permits (run 1 (start 3) (0 ∷ 1 ∷ 2 ∷ 1 ∷ 0 ∷ 2 ∷ [])) ≤ 1)
    × ((run 1 (start 3) (0 ∷ 1 ∷ 2 ∷ 1 ∷ 0 ∷ 2 ∷ [])).in_flight
        ≡ total busy (run 1 (start 3) (0 ∷ 1 ∷ 2 ∷ 1 ∷ 0 ∷ 2 ∷ [])).callers)
permits-capped_example = permits-capped 1 3 (0 ∷ 1 ∷ 2 ∷ 1 ∷ 0 ∷ 2 ∷ []) (omega arith) (omega arith)

-- Two callers report on two instances at once.
abbrev events : List Event
events = report 0 0 true 10 ∷ report 1 1 true 20 ∷ store 0 ∷ store 1 ∷ []

nothing_ejected : Capped pool (group_of round_robin) 0
unfolding already_ejected
nothing_ejected = omega arith

report_steps-Capped_example :
    let s =
      report_steps
        (group_of round_robin)
        (record { heap = pool; callers = between_reports 2 })
        events in
    already_ejected s.heap (group_of round_robin) 20 * 100 ≤ 50 * 3 + (2 - 1) * 100
report_steps-Capped_example =
    report_steps-Capped pool (group_of round_robin) 0 2 events (omega arith)
      ((ground arith, (ground arith, tt)), ((ground arith, tt), (tt, tt)))
      (omega arith, (omega arith, tt)) nothing_ejected

-- Both had counted before either stored: two of three instances are ejected, which is more than half.
cap_overshot :
    already_ejected
      (report_steps
        (group_of round_robin)
        (record { heap = pool; callers = between_reports 2 })
        events).heap
      (group_of round_robin)
      20
    ≡ 2
unfolding report_steps report_step already_ejected decide eject outlier_enabled window_ms
cap_overshot = refl

-- One after the other, the second is spared.
cap_kept :
    already_ejected
      (report_steps
        (group_of round_robin)
        (record { heap = pool; callers = between_reports 2 })
        (report 0 0 true 10 ∷ store 0 ∷ report 1 1 true 20 ∷ store 1 ∷ [])).heap
      (group_of round_robin)
      20
    ≡ 1
unfolding report_steps report_step already_ejected decide eject outlier_enabled window_ms
cap_kept = refl
