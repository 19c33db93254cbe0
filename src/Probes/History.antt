-- ===== src/Probes/History.antt =====
-- Which instance is probed when, over the turns of the supervisor.
use plecto.Prelude.{
  ℕ, ◌+◌, ◌-◌, ◌≤◌, ◌<◌, max, ◌≡◌, refl, sym, ◌∙◌, ap, subst, ◌⊎◌, inl, inr, List, [], ◌∷◌, ◌++◌,
  none, some, All, Option-cases,
}
use plecto.Upstream.{HealthConfig, UpstreamGroup, Heap}
use plecto.Probes.{Last, Sweep, interval_of, key_of, round, sleep_of}
use plecto.Probes.Turn.{IsFresh, OneOf, WasDue, Named, IsKept, OneOf-left}
use plecto.Probes.Schedule.{IsWatched, round-IsScheduled}

-- The probes of a turn, with its clock.
abbrev pub entries : ℕ → List (ℕ × HealthConfig) → List (ℕ × ℕ)
entries now [] = []
entries now ((p, health) ∷ probes) = (now, p) ∷ entries now probes

-- The map and the probes after the turns at the clocks `ts`.
unfoldable pub supervise :
    Heap → List UpstreamGroup → Last → List (ℕ × ℕ) → List ℕ → Last × List (ℕ × ℕ)
supervise h groups last log [] = (last, log)
supervise h groups last log (now ∷ ts) =
    let s = round h groups now last in supervise h groups s.last (log ++ entries now s.probes) ts

-- The supervisor starts with an empty map.
abbrev pub nothing : Last
nothing key = none

-- No two instances of the groups have one key.
abbrev pub HaveOwnKeys : Heap → List UpstreamGroup → Type 0
HaveOwnKeys h groups =
    (g g' : UpstreamGroup) (p p' : ℕ)
    → OneOf g groups
    → OneOf g' groups
    → OneOf p g.instances
    → OneOf p' g'.instances
    → key_of h g p ≡ key_of h g' p'
    → p ≡ p'

-- What the probes so far say of an instance after a turn at `now`: it has itself been probed, less than its
-- interval ago; and if the next turn begins no later than the sleep ends, its last probe is then not older
-- than the interval and a sleep of at most that interval or 20 ms.
abbrev pub IsProbed : ℕ → Sweep → List (ℕ × ℕ) → UpstreamGroup → ℕ → Type 0
IsProbed now s log g p =
    (t : ℕ) × OneOf (t, p) log
    × (now - t < interval_of g)
    × ((next : ℕ) → next ≤ now + sleep_of s → next - t < interval_of g + max (interval_of g) 20)

-- Every instant of the map is that of a probe of the instance itself.
IsTruthful : Heap → List UpstreamGroup → Last → List (ℕ × ℕ) → Type 0
IsTruthful h groups last log =
    (g : UpstreamGroup) (p t : ℕ)
    → OneOf g groups
    → OneOf p g.instances
    → last (key_of h g p) ≡ some t
    → OneOf (t, p) log

All-OneOf : {A : Type 0} (P : A → Type 0) (xs : List A) (x : A) → All P xs → OneOf x xs → P x
All-OneOf P [] x v m = absurd m
All-OneOf P (y ∷ ys) x v (inl e) = subst P (sym e) v.0
All-OneOf P (y ∷ ys) x v (inr m) = All-OneOf P ys x v.1 m

All-of : {A : Type 0} (P : A → Type 0) (xs : List A) → ((x : A) → OneOf x xs → P x) → All P xs
All-of P [] f = tt
All-of P (x ∷ xs) f = (f x (inl refl), All-of P xs (λ y m. f y (inr m)))

OneOf-right : {A : Type 0} (x : A) (xs ys : List A) → OneOf x ys → OneOf x (xs ++ ys)
OneOf-right x [] ys m = m
OneOf-right x (y ∷ xs) ys m = inr (OneOf-right x xs ys m)

OneOf-entries :
    (now p : ℕ) (health : HealthConfig) (probes : List (ℕ × HealthConfig))
    → OneOf (p, health) probes
    → OneOf (now, p) (entries now probes)
OneOf-entries now p health [] m = absurd m
OneOf-entries now p health ((q, policy) ∷ probes) (inl e) = inl (ap (λ x. (now, x.0)) e)
OneOf-entries now p health ((q, policy) ∷ probes) (inr m) =
    inr (OneOf-entries now p health probes m)

module _ (h : Heap) (groups : List UpstreamGroup) (own : HaveOwnKeys h groups) where
  IsWatched-at :
      (now : ℕ) (last : Last) (g : UpstreamGroup) (p : ℕ)
      → OneOf g groups
      → OneOf p g.instances
      → IsWatched h groups now last (round h groups now last) g p
  IsWatched-at now last g p of_groups of_instances =
      let s = round h groups now last in
      All-OneOf (IsWatched h groups now last s g) g.instances p
        (All-OneOf (λ x. All (IsWatched h groups now last s x) x.instances) groups g
          (round-IsScheduled h groups now last).watched of_groups)
        of_instances

  round-IsTruthful :
      (now : ℕ) (last : Last) (log : List (ℕ × ℕ))
      → IsTruthful h groups last log
      → let s = round h groups now last in IsTruthful h groups s.last (log ++ entries now s.probes)
  unfolding IsTruthful
  round-IsTruthful now last log v g p t of_groups of_instances e =
      by_kept (IsWatched-at now last g p of_groups of_instances).kept
    where
      s : Sweep
      s = round h groups now last

      by_kept :
          IsKept h groups last now (key_of h g p) (round h groups now last)
          → OneOf (t, p) (log ++ entries now (round h groups now last).probes)
      by_kept (inl same) =
          OneOf-left (t, p) log (entries now (round h groups now last).probes)
            (v g p t of_groups of_instances (sym same ∙ e))
      by_kept (inr (is_now, (g', p', of_groups', of_instances', member, named))) =
          let same_time : now ≡ t = cc (is_now, e) in
          let same_instance : p ≡ p' =
            own g g' p p' of_groups of_groups' of_instances of_instances' named in
          OneOf-right (t, p) log (entries now (round h groups now last).probes)
            (rw (← same_time, same_instance)
              (OneOf-entries now p' g'.health (round h groups now last).probes member))

  supervise-IsTruthful :
      (last : Last) (log : List (ℕ × ℕ)) (ts : List ℕ)
      → IsTruthful h groups last log
      → let r = supervise h groups last log ts in IsTruthful h groups r.0 r.1
  unfolding supervise
  supervise-IsTruthful last log [] v = v
  supervise-IsTruthful last log (now ∷ ts) v =
      supervise-IsTruthful (round h groups now last).last
        (log ++ entries now (round h groups now last).probes) ts (round-IsTruthful now last log v)

  nothing-IsTruthful : IsTruthful h groups nothing []
  unfolding IsTruthful
  nothing-IsTruthful g p t of_groups of_instances e = cc

  IsProbed-at :
      (now : ℕ) (last : Last) (log : List (ℕ × ℕ)) (g : UpstreamGroup) (p : ℕ)
      → IsTruthful h groups last log
      → OneOf g groups
      → OneOf p g.instances
      → let s = round h groups now last in IsProbed now s (log ++ entries now s.probes) g p
  unfolding IsTruthful
  IsProbed-at now last log g p v of_groups of_instances =
      let s = round h groups now last in
      let w = IsWatched-at now last g p of_groups of_instances in
      elim (Option-cases (s.last (key_of h g p))) [
        | inl e ↦ absurd (subst (λ o. IsFresh o now (interval_of g)) e w.fresh)
        | inr (t, e) ↦ (
          t,
          round-IsTruthful now last log v g p t of_groups of_instances e,
          subst (λ o. IsFresh o now (interval_of g)) e w.fresh,
          λ next soon.
              subst (λ o. IsFresh o next (interval_of g + max (interval_of g) 20)) e
                (w.soon next soon),
        )
      ]

  -- While no reload changes the groups, and if no two of their instances have one name and address: after
  -- every turn of a supervisor that started with an empty map, each instance has itself been probed less
  -- than its interval ago, the first time in the first turn, and before the next turn, when that begins no
  -- later than the sleep ends, its last probe does not get older than the interval and a sleep of at most
  -- that interval or 20 ms. A turn probes only instances of the groups whose interval is over or that were
  -- never probed, with their group's policy, and keeps no key that is not of the groups.
  pub supervise-probe :
      (ts : List ℕ) (now : ℕ)
      → let r = supervise h groups nothing [] ts in
        let s = round h groups now r.0 in
        All (λ g. All (IsProbed now s (r.1 ++ entries now s.probes) g) g.instances) groups
        × All (WasDue h groups now r.0) s.probes
        × ((k : _) → (s.last k ≡ none) ⊎ Named h groups k)
  supervise-probe ts now =
      let r = supervise h groups nothing [] ts in
      let v = supervise-IsTruthful nothing [] ts nothing-IsTruthful in
      let s = round h groups now r.0 in
      let scheduled = round-IsScheduled h groups now r.0 in
      (
        All-of (λ g. All (IsProbed now s (r.1 ++ entries now s.probes) g) g.instances) groups
            (λ g of_groups.
              All-of (IsProbed now s (r.1 ++ entries now s.probes) g) g.instances
                (λ p of_instances. IsProbed-at now r.0 r.1 g p v of_groups of_instances)),
        scheduled.due,
        scheduled.known,
      )
