-- ===== src/Upstream/Lb/Examples.antt =====
-- Picks in a small pool: every group has the instances 0, 1 and 2, all healthy and idle.
use plecto.Prelude.{
  ℕ, ◌≡◌, ◌≢◌, ◌↔◌, refl, [], ◌∷◌, Option, none, some, arith, true, false, bytes, ◌&&◌,
}
use plecto.Upstream.{
  Heap, HealthConfig, UpstreamInstance, UpstreamGroup, LbState, round_robin, least_request,
}
use plecto.Upstream.Instance.{is_outlier_ejected}
use plecto.Upstream.Outlier.{outlier_enabled}
use plecto.Upstream.Lb.{
  Env, pick, pick_excluding, pick_dispatch, round_robin_pick, least_request_pick, rr_scan, capture,
  choose, meter, lower_load, has_eligible, is_eligible, eligibility_ctx,
}
use plecto.Upstream.Lb.Scan.{Among}
use plecto.Upstream.Lb.Eligible.{pick_excluding_sound, pick-none_iff}
use plecto.Upstream.Lb.Serves.{sight, IsDraw}
use plecto.Upstream.Lb.Rotation.{rotation, picks, rotate, picks-rotate}
use plecto.Upstream.Lb.Load.{Countable}

abbrev pub config : HealthConfig
config = record {
  path = bytes "/healthz";
  interval_ms = 5000;
  timeout_ms = 1000;
  healthy_threshold = 2;
  unhealthy_threshold = 3;
  port = none;
}

abbrev pub idle_instance : UpstreamInstance
idle_instance = record {
  address = bytes "10.0.0.1:80";
  weight = 1;
  healthy = true;
  in_flight = 0;
  counters = record {
    consecutive_ok = 0;
    consecutive_fail = 0;
    ever_healthy = true;
    consecutive_gw_fail = 0;
    outlier_eject_count = 0;
  };
  poisoned = false;
  healthy_threshold = 2;
  unhealthy_threshold = 3;
  outlier_ejected_until_ms = 0;
}

abbrev pub group_of : LbState → UpstreamGroup
group_of lb = record {
  name = bytes "web";
  health = config;
  instances = 0 ∷ 1 ∷ 2 ∷ [];
  request_timeout = 30000;
  overall_timeout = 0;
  max_retries = 1;
  rr = 1;
  max_requests = 2;
  in_flight = 0;
  outlier_consecutive = 1;
  outlier_base_ejection = 30000;
  outlier_max_ejection_percent = 50;
  lb = lb;
  hash_key = none;
}

abbrev heap_of : LbState → Heap
heap_of lb = record {
  instance_at = λ q. idle_instance;
  next_instance = 3;
  group_at = λ g. group_of lb;
  next_group = 2;
}

abbrev pub pool : Heap
pool = heap_of round_robin

abbrev env : Heap → Option ℕ → Env
env h exclude = record { clock = 10; later = sight h 0 exclude 10; draw = λ n. (0, 1) }

draws : IsDraw (λ n. (0, 1))
draws = λ n two. (omega (arith, two), omega (arith, two), ground arith)

few : (lb : LbState) → Countable (heap_of lb)
few lb = λ q. omega arith

pub group_serves : has_eligible pool (group_of round_robin) 0 ≡ true
unfolding has_eligible eligibility_ctx outlier_enabled
group_serves = refl

-- With the cursor at 1, a retry that leaves out the instance 0 takes the second of the instances 1 and 2.
second_choice :
    (pick_excluding pool (env pool (some 0)) 0 0 none).0
    ≡ some (record { instance_ptr = 2; load = none })
unfolding pick_excluding pick_dispatch round_robin_pick is_eligible eligibility_ctx outlier_enabled
    rr_scan
second_choice = refl

pick_excluding_sound_example :
    Among 2 (0 ∷ 1 ∷ 2 ∷ [])
    × (idle_instance.healthy ≡ true)
    × ((outlier_enabled (group_of round_robin) && is_outlier_ejected idle_instance 10) ≡ false)
    × ◌≢◌ {A = ℕ} 2 0
pick_excluding_sound_example =
    pick_excluding_sound pool (env pool (some 0)) 0 0 none
      (record { instance_ptr = 2; load = none }) refl draws second_choice

pick-none_iff_example :
    ((pick pool (env pool none) 0 none).0 ≡ none)
    ↔ (has_eligible pool (group_of round_robin) 10 ≡ false)
pick-none_iff_example = pick-none_iff pool (env pool none) 0 none refl draws

all_eligible : (lb : LbState) → rotation (heap_of lb) 0 10 ≡ 0 ∷ 1 ∷ 2 ∷ []
unfolding is_eligible eligibility_ctx outlier_enabled
all_eligible lb = refl

picks-rotate_example : picks 4 pool (env pool none) 0 none ≡ rotate (rotation pool 0 10) 1 4
picks-rotate_example =
    picks-rotate 4 pool (env pool none) 0 none refl refl
      (rw (all_eligible round_robin) (omega arith)) (omega arith)

first_choice :
    (pick (heap_of least_request) (env (heap_of least_request) none) 0 none).0
    ≡ some (record { instance_ptr = 0; load = some 0 })
unfolding pick pick_dispatch least_request_pick is_eligible eligibility_ctx outlier_enabled capture
    choose meter lower_load
first_choice = refl
