-- ===== src/Probes/Turn.antt =====
-- What holds all along a turn of the supervisor.
use plecto.Prelude.{
  ℕ, ◌-◌, ◌≤◌, ◌<◌, min, ◌≡◌, refl, sym, ap, ◌⊎◌, inl, inr, Bool, true, false, ◌||◌, List, [], ◌∷◌,
  ◌++◌, Option, none, some, arith, All, All-mono, any, text_eq, text_eq_refl, text_eq→eq,
  Bool-cases, &&_iff, if◌then◌else◌,
}
use plecto.Upstream.{HealthConfig, UpstreamGroup, Heap}
use plecto.Probes.{
  Key, key_eq, Last, insert, is_due, Sweep, interval_of, key_of, visit, visit_all, visit_groups,
}

-- The last probe of a key is less than an interval ago.
abbrev pub IsFresh : Option ℕ → ℕ → ℕ → Type 0
IsFresh none now interval = ⊥
IsFresh (some t) now interval = now - t < interval

abbrev pub OneOf : {A : Type 0} → A → List A → Type 0
OneOf x [] = ⊥
OneOf x (y ∷ ys) = (x ≡ y) ⊎ OneOf x ys

-- A spawned probe: an instance of a group, with the group's policy, whose key was due before the turn.
abbrev pub WasDue : Heap → List UpstreamGroup → ℕ → Last → ℕ × HealthConfig → Type 0
WasDue h groups now last (p, health) =
    (g : UpstreamGroup) × OneOf g groups
    × OneOf p g.instances
    × (health ≡ g.health)
    × (is_due (last (key_of h g p)) now (interval_of g) ≡ true)

-- The key of an instance of a group.
abbrev pub Named : Heap → List UpstreamGroup → Key → Type 0
Named h groups k =
    (g : UpstreamGroup) × (p : ℕ) × OneOf g groups × OneOf p g.instances × (k ≡ key_of h g p)

-- A probe of an instance with the key has been spawned.
abbrev pub Spawned : Heap → List UpstreamGroup → Key → List (ℕ × HealthConfig) → Type 0
Spawned h groups k probes =
    (g : UpstreamGroup) × (p : ℕ) × OneOf g groups
    × OneOf p g.instances
    × OneOf (p, g.health) probes
    × (k ≡ key_of h g p)

-- A key is as it was, or has been probed now.
abbrev pub IsKept : Heap → List UpstreamGroup → Last → ℕ → Key → Sweep → Type 0
IsKept h groups last now k s =
    (s.last k ≡ last k) ⊎ ((s.last k ≡ some now) × Spawned h groups k s.probes)

key_eq_refl : (k : Key) → key_eq k k ≡ true
key_eq_refl (n, a) = (&&_iff (text_eq n n) (text_eq a a)).1 (text_eq_refl n, text_eq_refl a)

pub key_eq→eq : (j k : Key) → key_eq j k ≡ true → j ≡ k
key_eq→eq (n, a) (m, b) e =
    let both = (&&_iff (text_eq n m) (text_eq a b)).0 e in
    cc (text_eq→eq n m both.0, text_eq→eq a b both.1)

pub OneOf-left : {A : Type 0} (x : A) (xs ys : List A) → OneOf x xs → OneOf x (xs ++ ys)
OneOf-left x [] ys h = absurd h
OneOf-left x (y ∷ xs) ys (inl e) = inl e
OneOf-left x (y ∷ xs) ys (inr h) = inr (OneOf-left x xs ys h)

OneOf-last : {A : Type 0} (x : A) (xs : List A) → OneOf x (xs ++ (x ∷ []))
OneOf-last x [] = inl refl
OneOf-last x (y ∷ xs) = inr (OneOf-last x xs)

All-append {ℓ κ} :
    {A : Type ℓ} (P : A → Type κ) (xs : List A) (y : A) → All P xs → P y → All P (xs ++ (y ∷ []))
All-append P [] y h k = (k, tt)
All-append P (x ∷ xs) y h k = (h.0, All-append P xs y h.1 k)

not_due-IsFresh :
    (o : Option ℕ) (now interval : ℕ) → is_due o now interval ≡ false → IsFresh o now interval
not_due-IsFresh none now interval h = cc
not_due-IsFresh (some t) now interval h = ground (arith, h)

not_due_now : (now interval : ℕ) → 0 < interval → is_due (some now) now interval ≡ false
not_due_now now interval h = ground (arith, h)

module _ (h : Heap) (groups : List UpstreamGroup) (now : ℕ) (last : Last) where
  -- What holds all along a turn.
  pub record IsSound (s : Sweep) : Type 0 where
    pub kept : (k : Key) → IsKept h groups last now k s
    pub due : All (WasDue h groups now last) s.probes
    pub named : All (Named h groups) s.live

  -- An instance that the turn has come to.
  abbrev pub Visited : Sweep → UpstreamGroup → ℕ → Type 0
  Visited s g p =
      IsFresh (s.last (key_of h g p)) now (interval_of g)
      × (any (key_eq (key_of h g p)) s.live ≡ true)

  visit-IsKept :
      (g : UpstreamGroup) (p : ℕ) (s : Sweep) (k : Key)
      → OneOf g groups
      → OneOf p g.instances
      → IsKept h groups last now k s
      → IsKept h groups last now k (visit h now g p s)
  unfolding visit
  visit-IsKept g p s k of_groups of_instances v =
      elim (Bool-cases (is_due (s.last (key_of h g p)) now (interval_of g))) [
        | inr e ↦ rw e v
        | inl e ↦ rw e (elim (Bool-cases (key_eq (key_of h g p) k)) [
          | inl same ↦ rw same (
              inr (
                refl,
                (
                  g,
                  p,
                  of_groups,
                  of_instances,
                  OneOf-last (p, g.health) s.probes,
                  sym (key_eq→eq (key_of h g p) k same),
                ),
              ))
          | inr other ↦ rw other (elim v [
            | inl old ↦ inl old
            | inr (is_now, (g', p', of_groups', of_instances', member, named)) ↦ inr (
              is_now,
              (
                g',
                p',
                of_groups',
                of_instances',
                OneOf-left (p', g'.health) s.probes ((p, g.health) ∷ []) member,
                named,
              ),
            )
          ])
        ])
      ]

  -- A probe that is spawned was due before the turn.
  was_due :
      (g : UpstreamGroup) (p : ℕ) (s : Sweep)
      → IsKept h groups last now (key_of h g p) s
      → is_due (s.last (key_of h g p)) now (interval_of g) ≡ true
      → is_due (last (key_of h g p)) now (interval_of g) ≡ true
  was_due g p s (inl old) e = rw old at e
  was_due g p s (inr (is_now, _)) e =
      let fresh = not_due_now now (interval_of g) (omega arith) in
      absurd (cc (e, ap (λ o. is_due o now (interval_of g)) is_now, fresh))

  visit-IsSound :
      (g : UpstreamGroup) (p : ℕ) (s : Sweep)
      → OneOf g groups
      → OneOf p g.instances
      → IsSound s
      → IsSound (visit h now g p s)
  unfolding visit
  visit-IsSound g p s of_groups of_instances v = record {
    kept = λ k. visit-IsKept g p s k of_groups of_instances (v.kept k);
    due = elim (Bool-cases (is_due (s.last (key_of h g p)) now (interval_of g))) [
      | inr e ↦ rw e v.due
      | inl e ↦ rw e (
          All-append (WasDue h groups now last) s.probes (p, g.health) v.due
            (g, of_groups, of_instances, refl, was_due g p s (v.kept (key_of h g p)) e))
    ];
    named = ((g, p, of_groups, of_instances, refl), v.named);
  }

  visit-keeps :
      (g : UpstreamGroup) (p : ℕ) (s : Sweep) (g' : UpstreamGroup) (p' : ℕ)
      → Visited s g' p'
      → Visited (visit h now g p s) g' p'
  unfolding visit
  visit-keeps g p s g' p' v = (
    fresh (is_due (s.last (key_of h g p)) now (interval_of g)),
    rw v.1 (or_true (key_eq (key_of h g' p') (key_of h g p))),
  )
    where
      or_true : (b : Bool) → (b || true) ≡ true
      or_true true = refl
      or_true false = refl

      fresh :
          (b : Bool)
          → IsFresh
              ((if b then insert s.last (key_of h g p) now else s.last) (key_of h g' p'))
              now
              (interval_of g')
      fresh false = v.0
      fresh true = elim (Bool-cases (key_eq (key_of h g p) (key_of h g' p'))) [
        | inl same ↦ rw same (omega arith)
        | inr other ↦ rw other v.0
      ]

  visit-Visited : (g : UpstreamGroup) (p : ℕ) (s : Sweep) → Visited (visit h now g p s) g p
  unfolding visit
  visit-Visited g p s = (
    elim (Bool-cases (is_due (s.last (key_of h g p)) now (interval_of g))) [
      | inl e ↦ rw (e, key_eq_refl (key_of h g p)) (omega arith)
      | inr e ↦ rw e (not_due-IsFresh (s.last (key_of h g p)) now (interval_of g) e)
    ],
    rw (key_eq_refl (key_of h g p)) refl,
  )

  visit_all-keeps :
      (g : UpstreamGroup) (ps : List ℕ) (s : Sweep) (g' : UpstreamGroup) (p' : ℕ)
      → Visited s g' p'
      → Visited (visit_all h now g ps s) g' p'
  unfolding visit_all
  visit_all-keeps g [] s g' p' v = v
  visit_all-keeps g (p ∷ ps) s g' p' v =
      visit_all-keeps g ps (visit h now g p s) g' p' (visit-keeps g p s g' p' v)

  visit_all-Visited :
      (g : UpstreamGroup) (ps : List ℕ) (s : Sweep) → All (Visited (visit_all h now g ps s) g) ps
  unfolding visit_all
  visit_all-Visited g [] s = tt
  visit_all-Visited g (p ∷ ps) s = (
    visit_all-keeps g ps (visit h now g p s) g p (visit-Visited g p s),
    visit_all-Visited g ps (visit h now g p s),
  )

  visit_all-IsSound :
      (g : UpstreamGroup) (ps : List ℕ) (s : Sweep)
      → OneOf g groups
      → ((p : ℕ) → OneOf p ps → OneOf p g.instances)
      → IsSound s
      → IsSound (visit_all h now g ps s)
  unfolding visit_all
  visit_all-IsSound g [] s of_groups within v = v
  visit_all-IsSound g (p ∷ ps) s of_groups within v =
      visit_all-IsSound g ps (visit h now g p s) of_groups (λ q m. within q (inr m))
        (visit-IsSound g p s of_groups (within p (inl refl)) v)

  visit_all-period :
      (g : UpstreamGroup) (ps : List ℕ) (s : Sweep) → (visit_all h now g ps s).period ≡ s.period
  unfolding visit_all visit
  visit_all-period g [] s = refl
  visit_all-period g (p ∷ ps) s = visit_all-period g ps (visit h now g p s)

  abbrev shortened : UpstreamGroup → Sweep → Sweep
  shortened g s = record s { period = min s.period (interval_of g) }

  visit_groups-keeps :
      (gs : List UpstreamGroup) (s : Sweep) (g' : UpstreamGroup) (p' : ℕ)
      → Visited s g' p'
      → Visited (visit_groups h now gs s) g' p'
  unfolding visit_groups
  visit_groups-keeps [] s g' p' v = v
  visit_groups-keeps (g ∷ gs) s g' p' v =
      visit_groups-keeps gs (visit_all h now g g.instances (shortened g s)) g' p'
        (visit_all-keeps g g.instances (shortened g s) g' p' v)

  visit_groups-period :
      (gs : List UpstreamGroup) (s : Sweep) → (visit_groups h now gs s).period ≤ s.period
  unfolding visit_groups
  visit_groups-period [] s = omega arith
  visit_groups-period (g ∷ gs) s =
      let t = visit_all h now g g.instances (shortened g s) in
      omega (arith, visit_groups-period gs t, visit_all-period g g.instances (shortened g s))

  -- Every instance of the groups has been come to, and the sleep is no longer than any interval.
  pub visit_groups-Visited :
      (gs : List UpstreamGroup) (s : Sweep)
      → let s' = visit_groups h now gs s in
        All (λ g. All (Visited s' g) g.instances × (s'.period ≤ interval_of g)) gs
  unfolding visit_groups
  visit_groups-Visited [] s = tt
  visit_groups-Visited (g ∷ gs) s =
      let t = visit_all h now g g.instances (shortened g s) in
      (
        (
          All-mono (Visited t g) (Visited (visit_groups h now gs t) g) g.instances
              (λ p v. visit_groups-keeps gs t g p v)
              (visit_all-Visited g g.instances (shortened g s)),
          omega (arith, visit_groups-period gs t, visit_all-period g g.instances (shortened g s)),
        ),
        visit_groups-Visited gs t,
      )

  pub visit_groups-IsSound :
      (gs : List UpstreamGroup) (s : Sweep)
      → ((g : UpstreamGroup) → OneOf g gs → OneOf g groups)
      → IsSound s
      → IsSound (visit_groups h now gs s)
  unfolding visit_groups
  visit_groups-IsSound [] s within v = v
  visit_groups-IsSound (g ∷ gs) s within v =
      visit_groups-IsSound gs (visit_all h now g g.instances (shortened g s))
        (λ q m. within q (inr m))
        (visit_all-IsSound g g.instances (shortened g s) (within g (inl refl)) (λ p m. m)
          (record { kept = v.kept; due = v.due; named = v.named }))
