-- ===== src/Weighted/Examples.antt =====
-- Splits at concrete weights.
use plecto.Prelude.{ℕ, ◌≡◌, refl, List, [], ◌∷◌, some, arith, take}
use plecto.Upstream.Lb.{has_eligible, eligibility_ctx}
use plecto.Weighted.{
  WeightedBackends, ok, weighted_schedule, reduced, validate_split, new, pick, compile, reduce_gcd,
  gcd, skip_forward, backend_eligible,
}
use plecto.Prelude.Int.{◌+ℤ◌, ◌-ℤ◌}
use plecto.Upstream.Outlier.{outlier_enabled}
use plecto.Weighted.Schedule.{schedule_proportional}
use plecto.Weighted.Apportioned.{count}
use plecto.Weighted.Split.{ServesFirst, pick-ServesFirst, new-IsValid}
use plecto.Upstream.Lb.Examples.{pool}

abbrev weights : List ℕ
weights = 5 ∷ 1 ∷ 1 ∷ []

-- The smooth order of the weights 5, 1, 1.
smooth_order : weighted_schedule weights ≡ 0 ∷ 0 ∷ 1 ∷ 0 ∷ 2 ∷ 0 ∷ 0 ∷ []
unfolding weighted_schedule ◌+ℤ◌ ◌-ℤ◌
smooth_order = refl

schedule_proportional_example : count 0 (weighted_schedule weights) ≡ 5
schedule_proportional_example =
    schedule_proportional weights 0 (omega arith) (omega arith) (omega arith)

accepted : validate_split weights ≡ ok 7
unfolding validate_split reduce_gcd gcd
accepted = refl

abbrev targets : List (ℕ × ℕ)
targets = (0, 2) ∷ (1, 1) ∷ []

abbrev split : WeightedBackends
split = record { groups = 0 ∷ 1 ∷ []; table = 0 ∷ 1 ∷ 0 ∷ []; cursor = 0 }

compiled : new targets ≡ ok split
unfolding new compile validate_split weighted_schedule reduced ◌+ℤ◌ ◌-ℤ◌ reduce_gcd gcd
compiled = refl

pick-ServesFirst_example : ServesFirst pool 0 split (pick pool 0 split)
pick-ServesFirst_example = pick-ServesFirst pool 0 split (new-IsValid targets split compiled)

served : (pick pool 0 split).0 ≡ some 0
unfolding pick has_eligible eligibility_ctx outlier_enabled skip_forward backend_eligible
served = refl

-- The schedule can fall more than a whole pick behind: after 40 picks of the weights 33, 33, 1, 1, 5 the
-- second backend has 17, and its share is above 18.
lagging : count 1 (take 40 (weighted_schedule (33 ∷ 33 ∷ 1 ∷ 1 ∷ 5 ∷ []))) ≡ 17
unfolding weighted_schedule ◌+ℤ◌ ◌-ℤ◌
lagging = refl
