-- ===== src/Upstream/Outlier/Reports.antt =====
-- Reports of any number of callers at once. A report is two steps: the decision, under the lock of its own
-- instance, which counts the ejections of all instances; and the store of its own ejection. A third caller's
-- step may come between them, but none that reports on the same instance, whose lock is held. The reads of
-- one count are one step.
use plecto.Prelude.{
  ℕ, zero, suc, ◌+◌, ◌-◌, ◌*◌, ◌≤◌, ◌<◌, ◌≡◌, ◌∙◌, refl, ap, Bool, false, List, [], ◌∷◌, Option,
  none, some, arith, length, set, total, total-set, length-set, get_elem?, if◌then◌else◌, any, ◌==◌,
  Bool-cases, inl, inr,
}
use plecto.Upstream.{UpstreamGroup, HealthCounters, Heap}
use plecto.Upstream.Outlier.{already_ejected, decide, eject}
use plecto.Upstream.Outlier.Cap.{
  Distinct, Capped, already_ejected-later, Decided, decide-Decided, eject-one,
}

-- An ejection that has been decided on and not yet stored.
pub record Pending : Type 0 where
  pub instance_ptr : ℕ
  pub counters : HealthCounters
  pub now_ms : ℕ

-- The callers, each between reports or with a decision.
pub record Reporting : Type 0 where
  pub heap : Heap
  pub callers : List (Option Pending)

-- Caller `i` reports the outcome of an instance, or stores what it decided.
pub data Event : Type 0 where
  report : ℕ → ℕ → Bool → ℕ → Event
  store : ℕ → Event

abbrev pub holds : ℕ → Option Pending → Bool
holds p none = false
holds p (some q) = p == q.instance_ptr

abbrev pub pending_of : ℕ → ℕ → Option HealthCounters → Option Pending
pending_of p now_ms none = none
pending_of p now_ms (some c) = some (record { instance_ptr = p; counters = c; now_ms = now_ms })

abbrev pub decided : Reporting → ℕ → ℕ → ℕ → Heap × Option HealthCounters → Reporting
decided s i p now_ms (h, o) = record { heap = h; callers = set s.callers i (pending_of p now_ms o) }

-- A caller that has a decision does not report, and one whose instance is locked waits.
abbrev pub reported :
    UpstreamGroup → Reporting → ℕ → ℕ → Bool → ℕ → Option (Option Pending) → Reporting
reported g s i p gateway_failure now_ms none = s
reported g s i p gateway_failure now_ms (some (some q)) = s
reported g s i p gateway_failure now_ms (some none) =
    if any (holds p) s.callers
    then s
    else decided s i p now_ms (decide s.heap g p gateway_failure now_ms)

abbrev pub stored : UpstreamGroup → Reporting → ℕ → Option (Option Pending) → Reporting
stored g s i none = s
stored g s i (some none) = s
stored g s i (some (some q)) = record {
  heap = eject s.heap g q.instance_ptr q.counters q.now_ms;
  callers = set s.callers i none;
}

unfoldable pub report_step : UpstreamGroup → Reporting → Event → Reporting
report_step g s (report i p gateway_failure now_ms) =
    reported g s i p gateway_failure now_ms (get_elem? s.callers i)
report_step g s (store i) = stored g s i (get_elem? s.callers i)

unfoldable pub report_steps : UpstreamGroup → Reporting → List Event → Reporting
report_steps g s [] = s
report_steps g s (e ∷ es) = report_steps g (report_step g s e) es

abbrev pub is_pending : Option Pending → ℕ
is_pending none = 0
is_pending (some q) = 1

-- The clock does not step back from one report to the next.
abbrev pub Forward : ℕ → List Event → Type 0
Forward t [] = Unit {0}
Forward t (report i p gateway_failure now_ms ∷ es) = (t ≤ now_ms) × Forward now_ms es
Forward t (store i ∷ es) = Forward t es

abbrev pub last_clock : ℕ → List Event → ℕ
last_clock t [] = t
last_clock t (report i p gateway_failure now_ms ∷ es) = last_clock now_ms es
last_clock t (store i ∷ es) = last_clock t es

-- The ejected instances and those about to be are within the cap and one more for each other caller.
WithinRace : UpstreamGroup → ℕ → ℕ → Reporting → Type 0
WithinRace g n t s =
    (length s.callers ≡ n)
    × ((already_ejected s.heap g t + total is_pending s.callers) * 100
        ≤ g.outlier_max_ejection_percent * length g.instances + (n - 1) * 100)

pending-le-length : (cs : List (Option Pending)) → total is_pending cs ≤ length cs
pending-le-length [] = omega arith
pending-le-length (none ∷ cs) = omega (arith, pending-le-length cs)
pending-le-length (some q ∷ cs) = omega (arith, pending-le-length cs)

WithinRace-later :
    (g : UpstreamGroup) (n t later : ℕ) (s : Reporting)
    → t ≤ later
    → WithinRace g n t s
    → WithinRace g n later s
unfolding WithinRace
WithinRace-later g n t later s le (few, v) =
    (few, omega (arith, v, already_ejected-later s.heap g t later le))

decided-WithinRace :
    (g : UpstreamGroup) (n : ℕ) (s : Reporting) (i p now_ms : ℕ) (r : Heap × Option HealthCounters)
    → get_elem? s.callers i ≡ some none
    → Decided s.heap g now_ms r
    → WithinRace g n now_ms s
    → WithinRace g n now_ms (decided s i p now_ms r)
unfolding WithinRace
decided-WithinRace g n s i p now_ms (h', none) at d (few, v) =
    let same = total-set is_pending s.callers i none none at in
    (length-set s.callers i none ∙ few, omega (arith, v, same, d now_ms))
decided-WithinRace g n s i p now_ms (h', some c) at (kept, room) (few, v) =
    let q : Option Pending = some (record { instance_ptr = p; counters = c; now_ms = now_ms }) in
    let more = total-set is_pending s.callers i none q at in
    let size = length-set s.callers i q in
    let bound = pending-le-length (set s.callers i q) in
    (size ∙ few, rw kept (omega (arith, room, more, size, bound, few)))

stored-WithinRace :
    (g : UpstreamGroup) (n t : ℕ) (s : Reporting) (i : ℕ) (o : Option (Option Pending))
    → Distinct g.instances
    → get_elem? s.callers i ≡ o
    → WithinRace g n t s
    → WithinRace g n t (stored g s i o)
unfolding WithinRace
stored-WithinRace g n t s i none d at v = v
stored-WithinRace g n t s i (some none) d at v = v
stored-WithinRace g n t s i (some (some q)) d at (few, v) =
    let fewer = total-set is_pending s.callers i (some q) none at in
    let one = eject-one s.heap g q.instance_ptr q.counters q.now_ms t d in
    (length-set s.callers i none ∙ few, omega (arith, v, fewer, one))

reported-WithinRace :
    (g : UpstreamGroup) (n : ℕ) (s : Reporting) (i p : ℕ) (gateway_failure : Bool) (now_ms : ℕ)
    (o : Option (Option Pending))
    → get_elem? s.callers i ≡ o
    → WithinRace g n now_ms s
    → WithinRace g n now_ms (reported g s i p gateway_failure now_ms o)
reported-WithinRace g n s i p gateway_failure now_ms none at v = v
reported-WithinRace g n s i p gateway_failure now_ms (some (some q)) at v = v
reported-WithinRace g n s i p gateway_failure now_ms (some none) at v =
    elim (Bool-cases (any (holds p) s.callers)) [
      | inl e ↦ rw e v
      | inr e ↦ rw e (
          decided-WithinRace g n s i p now_ms (decide s.heap g p gateway_failure now_ms) at
            (decide-Decided s.heap g p gateway_failure now_ms) v)
    ]

report_steps-WithinRace :
    (g : UpstreamGroup) (n t : ℕ) (s : Reporting) (es : List Event)
    → Distinct g.instances
    → Forward t es
    → WithinRace g n t s
    → WithinRace g n (last_clock t es) (report_steps g s es)
unfolding report_steps report_step
report_steps-WithinRace g n t s [] d f v = v
report_steps-WithinRace g n t s (report i p gateway_failure now_ms ∷ es) d f v =
    report_steps-WithinRace g n now_ms
      (reported g s i p gateway_failure now_ms (get_elem? s.callers i)) es d f.1
      (reported-WithinRace g n s i p gateway_failure now_ms (get_elem? s.callers i) refl
        (WithinRace-later g n t now_ms s f.0 v))
report_steps-WithinRace g n t s (store i ∷ es) d f v =
    report_steps-WithinRace g n t (stored g s i (get_elem? s.callers i)) es d f
      (stored-WithinRace g n t s i (get_elem? s.callers i) d refl v)

abbrev pub between_reports : ℕ → List (Option Pending)
between_reports zero = []
between_reports (suc n) = none ∷ between_reports n

between-length : (n : ℕ) → length (between_reports n) ≡ n
between-length zero = refl
between-length (suc n) = ap suc (between-length n)

between-total : (n : ℕ) → total is_pending (between_reports n) ≡ 0
between-total zero = refl
between-total (suc n) = omega (arith, between-total n)

-- Whatever the interleaving of the reports of `n` callers, on a clock that does not step back, and with no
-- instance twice in the group: the instances ejected at the last clock exceed `max_ejection_percent` of the
-- group by at most one for each caller but one, if those ejected at the start were within it. Reports of one
-- caller, which come one after the other, stay within it.
pub report_steps-Capped :
    (h : Heap) (g : UpstreamGroup) (t n : ℕ) (es : List Event)
    → 0 < n
    → Distinct g.instances
    → Forward t es
    → Capped h g t
    → let s = report_steps g (record { heap = h; callers = between_reports n }) es in
      already_ejected s.heap g (last_clock t es) * 100
      ≤ g.outlier_max_ejection_percent * length g.instances + (n - 1) * 100
unfolding WithinRace
report_steps-Capped h g t n es some_caller d f c =
    let start : Reporting = record { heap = h; callers = between_reports n } in
    let v : WithinRace g n t start = (between-length n, omega (arith, c, between-total n)) in
    let (_, bound) = report_steps-WithinRace g n t start es d f v in omega (arith, bound)
