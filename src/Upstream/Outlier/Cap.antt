-- ===== src/Upstream/Outlier/Cap.antt =====
-- How many instances of a group are ejected at once, and for how long.
use plecto.Prelude.{
  ℕ, suc, ◌+◌, ◌*◌, ◌≤◌, ◌≡◌, ◌≢◌, refl, Bool, List, [], ◌∷◌, arith, length, filter, update, true,
  false, not, Option, none, some, if◌then◌else◌, saturating_add, u32_max, Bool-cases, inl, inr, ltb,
  ◌==◌, tests,
}
use plecto.Upstream.{UpstreamInstance, UpstreamGroup, HealthCounters, Heap}
use plecto.Upstream.Instance.{is_outlier_ejected}
use plecto.Upstream.Outlier.{
  already_ejected, at_threshold, decide, eject, outlier_enabled, record_outcome, set_instance,
}

-- No pointer twice.
abbrev pub Absent : ℕ → List ℕ → Type 0
Absent p [] = Unit {0}
Absent p (q ∷ qs) = (p ≢ q) × Absent p qs

abbrev pub Distinct : List ℕ → Type 0
Distinct [] = Unit {0}
Distinct (p ∷ ps) = Absent p ps × Distinct ps

abbrev ejected : (ℕ → UpstreamInstance) → ℕ → List ℕ → ℕ
ejected at now_ms ps = length (filter (λ p. is_outlier_ejected (at p) now_ms) ps)

ejected-Absent :
    (at : ℕ → UpstreamInstance) (p : ℕ) (i : UpstreamInstance) (now_ms : ℕ) (ps : List ℕ)
    → Absent p ps
    → ejected (update at p i) now_ms ps ≡ ejected at now_ms ps
ejected-Absent at p i now_ms [] a = refl
ejected-Absent at p i now_ms (q ∷ qs) a = ground (arith, ejected-Absent at p i now_ms qs a.1, a.0)

ejected-update :
    (at : ℕ → UpstreamInstance) (p : ℕ) (i : UpstreamInstance) (now_ms : ℕ) (ps : List ℕ)
    → Distinct ps
    → ejected (update at p i) now_ms ps ≤ suc (ejected at now_ms ps)
ejected-update at p i now_ms [] d = omega arith
ejected-update at p i now_ms (q ∷ qs) d = elim (Bool-cases (p == q)) [
  | inl e ↦ ground (arith, ejected-Absent at q i now_ms qs d.0, ejected-update at p i now_ms qs d.1)
  | inr e ↦ ground (arith, ejected-update at p i now_ms qs d.1)
]

ejected-unmoved :
    (at : ℕ → UpstreamInstance) (p : ℕ) (i : UpstreamInstance) (now_ms : ℕ) (ps : List ℕ)
    → i.outlier_ejected_until_ms ≡ (at p).outlier_ejected_until_ms
    → ejected (update at p i) now_ms ps ≡ ejected at now_ms ps
ejected-unmoved at p i now_ms [] e = refl
ejected-unmoved at p i now_ms (q ∷ qs) e = ground (arith, ejected-unmoved at p i now_ms qs e)

ejected-later :
    (at : ℕ → UpstreamInstance) (now_ms later : ℕ) (ps : List ℕ)
    → now_ms ≤ later
    → ejected at later ps ≤ ejected at now_ms ps
ejected-later at now_ms later [] h = omega arith
ejected-later at now_ms later (q ∷ qs) h = ground (arith, ejected-later at now_ms later qs h)

-- At the clock `now_ms`, the ejected instances are at most `max_ejection_percent` of the group.
abbrev pub Capped : Heap → UpstreamGroup → ℕ → Type 0
Capped h g now_ms =
    already_ejected h g now_ms * 100 ≤ g.outlier_max_ejection_percent * length g.instances

pub already_ejected-later :
    (h : Heap) (g : UpstreamGroup) (now_ms later : ℕ)
    → now_ms ≤ later
    → already_ejected h g later ≤ already_ejected h g now_ms
unfolding already_ejected
already_ejected-later h g now_ms later le = ejected-later h.instance_at now_ms later g.instances le

already_ejected-unmoved :
    (h : Heap) (g : UpstreamGroup) (p : ℕ) (i : UpstreamInstance) (now_ms : ℕ)
    → i.outlier_ejected_until_ms ≡ (h.instance_at p).outlier_ejected_until_ms
    → already_ejected (set_instance h p i) g now_ms ≡ already_ejected h g now_ms
unfolding already_ejected
already_ejected-unmoved h g p i now_ms e = ejected-unmoved h.instance_at p i now_ms g.instances e

already_ejected-set :
    (h : Heap) (g : UpstreamGroup) (p : ℕ) (i : UpstreamInstance) (now_ms : ℕ)
    → Distinct g.instances
    → already_ejected (set_instance h p i) g now_ms ≤ suc (already_ejected h g now_ms)
unfolding already_ejected
already_ejected-set h g p i now_ms d = ejected-update h.instance_at p i now_ms g.instances d

-- A report that decides to eject has room for one more under the cap; one that does not leaves the ejections
-- as they are.
abbrev pub Decided : Heap → UpstreamGroup → ℕ → Heap × Option HealthCounters → Type 0
Decided h g now_ms (h', none) = (later : ℕ) → already_ejected h' g later ≡ already_ejected h g later
Decided h g now_ms (h', some c) =
    (h' ≡ h)
    × ((already_ejected h g now_ms + 1) * 100 ≤ g.outlier_max_ejection_percent * length g.instances)

at_threshold-Decided :
    (h : Heap) (g : UpstreamGroup) (p : ℕ) (c : HealthCounters) (now_ms : ℕ)
    → Decided h g now_ms (at_threshold h g p c now_ms)
unfolding at_threshold
at_threshold-Decided h g p c now_ms = elim (Bool-cases full) [
  | inl e ↦ rw e (λ later. already_ejected-unmoved h g p _ later refl)
  | inr e ↦ rw e (refl, omega (tests, e))
]
  where
    full : Bool
    full =
        ltb (g.outlier_max_ejection_percent * length g.instances)
          ((already_ejected h g now_ms + 1) * 100)

pub decide-Decided :
    (h : Heap) (g : UpstreamGroup) (p : ℕ) (gateway_failure : Bool) (now_ms : ℕ)
    → Decided h g now_ms (decide h g p gateway_failure now_ms)
unfolding decide
decide-Decided h g p gateway_failure now_ms =
    by_guards (not (outlier_enabled g)) (h.instance_at p).poisoned (not gateway_failure) _
  where
    by_guards :
        (off poisoned success few : Bool)
        → Decided h g now_ms (
            if off
            then (h, none)
            else if poisoned
            then (h, none)
            else if success
            then (
              set_instance h p (record (h.instance_at p) {
                counters = record (h.instance_at p).counters {
                  consecutive_gw_fail = 0;
                  outlier_eject_count = 0;
                };
              }),
              none,
            )
            else if few
            then (
              set_instance h p (record (h.instance_at p) {
                counters = record (h.instance_at p).counters {
                  consecutive_gw_fail =
                      saturating_add u32_max (h.instance_at p).counters.consecutive_gw_fail 1;
                };
              }),
              none,
            )
            else at_threshold h g p
                (record (h.instance_at p).counters {
                  consecutive_gw_fail =
                      saturating_add u32_max (h.instance_at p).counters.consecutive_gw_fail 1;
                })
                now_ms)
    by_guards true poisoned success few = λ later. refl
    by_guards false true success few = λ later. refl
    by_guards false false true few = λ later. already_ejected-unmoved h g p _ later refl
    by_guards false false false true = λ later. already_ejected-unmoved h g p _ later refl
    by_guards false false false false = at_threshold-Decided h g p _ now_ms

pub eject-one :
    (h : Heap) (g : UpstreamGroup) (p : ℕ) (c : HealthCounters) (now_ms later : ℕ)
    → Distinct g.instances
    → already_ejected (eject h g p c now_ms) g later ≤ suc (already_ejected h g later)
unfolding eject
eject-one h g p c now_ms later d = already_ejected-set h g p _ later d

-- Outlier detection is an axis of its own: an outcome leaves the health bit, the probe streaks and the
-- load of every instance as they were.
pub record_outcome_axis :
    (h : Heap) (g : UpstreamGroup) (p : ℕ) (gateway_failure : Bool) (now_ms : ℕ) (q : ℕ)
    → let i = h.instance_at q in
      let j = (record_outcome h g p gateway_failure now_ms).0.instance_at q in
      (j.healthy ≡ i.healthy)
      × (j.in_flight ≡ i.in_flight)
      × (j.counters.consecutive_ok ≡ i.counters.consecutive_ok)
      × (j.counters.consecutive_fail ≡ i.counters.consecutive_fail)
      × (j.counters.ever_healthy ≡ i.counters.ever_healthy)
unfolding record_outcome decide at_threshold eject
record_outcome_axis h g p gateway_failure now_ms q = ground arith
