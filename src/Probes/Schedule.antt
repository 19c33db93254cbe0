-- ===== src/Probes/Schedule.antt =====
-- When the supervisor probes which instance.
use plecto.Prelude.{
  ℕ, ◌+◌, ◌≤◌, max, ◌≡◌, refl, ◌∙◌, ◌⊎◌, inl, inr, true, List, [], ◌∷◌, Option, none, some, arith,
  All, All-mono, any, Bool-cases,
}
use plecto.Upstream.{UpstreamGroup, Heap}
use plecto.Probes.{
  Key, key_eq, Last, Sweep, interval_of, key_of, visit_groups, retain, round, sleep_of,
}
use plecto.Probes.Turn.{
  IsFresh, WasDue, Named, IsKept, key_eq→eq, IsSound, Visited, visit_groups-Visited,
  visit_groups-IsSound,
}

-- What a turn leaves for an instance of a group: its key has been probed less than an interval ago, before the
-- turn or by a probe that the turn spawned; and if the next turn begins when the sleep is over, or before,
-- the last probe is then not older than the interval and the longest sleep.
pub record IsWatched (h : Heap) (groups : List UpstreamGroup) (now : ℕ) (last : Last) (s : Sweep)
    (g : UpstreamGroup) (p : ℕ) : Type 0 where
  pub fresh : IsFresh (s.last (key_of h g p)) now (interval_of g)
  pub kept : IsKept h groups last now (key_of h g p) s
  pub soon :
      (next : ℕ)
      → next ≤ now + sleep_of s
      → IsFresh (s.last (key_of h g p)) next (interval_of g + max (interval_of g) 20)

-- What a turn of the supervisor promises.
pub record IsScheduled (h : Heap) (groups : List UpstreamGroup) (now : ℕ) (last : Last) (s : Sweep)
    : Type 0 where
  pub watched : All (λ g. All (IsWatched h groups now last s g) g.instances) groups
  pub due : All (WasDue h groups now last) s.probes
  pub known : (k : Key) → (s.last k ≡ none) ⊎ Named h groups k

IsFresh-later :
    (o : Option ℕ) (now next interval sleep : ℕ)
    → IsFresh o now interval
    → next ≤ now + sleep
    → IsFresh o next (interval + sleep)
IsFresh-later none now next interval sleep f h = absurd f
IsFresh-later (some t) now next interval sleep f h = omega (arith, f)

IsFresh-wider : (o : Option ℕ) (now a b : ℕ) → IsFresh o now a → a ≤ b → IsFresh o now b
IsFresh-wider none now a b f h = absurd f
IsFresh-wider (some t) now a b f h = omega (arith, f)

any-Named :
    (h : Heap) (groups : List UpstreamGroup) (k : Key) (live : List Key)
    → All (Named h groups) live
    → any (key_eq k) live ≡ true
    → Named h groups k
any-Named h groups k [] v e = cc
any-Named h groups k (j ∷ live) v e = elim (Bool-cases (key_eq k j)) [
  | inl same ↦
      let (g, p, of_groups, of_instances, named) = v.0 in
      (g, p, of_groups, of_instances, key_eq→eq k j same ∙ named)
  | inr other ↦ any-Named h groups k live v.1 (rw other at e)
]

module _ (h : Heap) (groups : List UpstreamGroup) (now : ℕ) (last : Last) where
  swept : Sweep
  swept = visit_groups h now groups (record { last = last; live = []; period = 5000; probes = [] })

  Visited-IsWatched :
      (s : Sweep) (g : UpstreamGroup) (p : ℕ)
      → IsSound h groups now last s
      → s.period ≤ interval_of g
      → Visited h groups now last s g p
      → IsWatched h groups now last (record s { last = retain s.live s.last }) g p
  Visited-IsWatched s g p sound short v =
      let fresh = v.0 in
      record {
        fresh = rw v.1 fresh;
        kept = rw v.1 (sound.kept (key_of h g p));
        soon = λ next soon. rw v.1 (
            IsFresh-wider (s.last (key_of h g p)) next (interval_of g + sleep_of s)
              (interval_of g + max (interval_of g) 20)
              (IsFresh-later (s.last (key_of h g p)) now next (interval_of g) (sleep_of s) fresh
                soon)
              (omega (arith, short)));
      }

  known_keys :
      (s : Sweep) (k : Key)
      → IsSound h groups now last s
      → (retain s.live s.last k ≡ none) ⊎ Named h groups k
  known_keys s k sound = elim (Bool-cases (any (key_eq k) s.live)) [
    | inl e ↦ inr (any-Named h groups k s.live sound.named e)
    | inr e ↦ inl (rw e refl)
  ]

  pub round-IsScheduled : IsScheduled h groups now last (round h groups now last)
  unfolding round swept
  round-IsScheduled =
      let start : Sweep = record { last = last; live = []; period = 5000; probes = [] } in
      let sound =
        visit_groups-IsSound h groups now last groups start (λ g m. m)
          (record { kept = λ k. inl refl; due = tt; named = tt }) in
      record {
        watched =
            All-mono
              (λ g.
                All (Visited h groups now last swept g) g.instances
                × (swept.period ≤ interval_of g))
              (λ g.
                All
                  (IsWatched h groups now last
                    (record swept { last = retain swept.live swept.last }) g)
                  g.instances)
              groups
              (λ g v.
                All-mono (Visited h groups now last swept g)
                  (IsWatched h groups now last
                    (record swept { last = retain swept.live swept.last }) g)
                  g.instances (λ p w. Visited-IsWatched swept g p sound v.1 w) v.0)
              (visit_groups-Visited h groups now last groups start);
        due = sound.due;
        known = λ k. known_keys swept k sound;
      }
