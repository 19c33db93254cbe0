-- ===== src/Upstream/Registry/Kept.antt =====
-- What a reload keeps: the running set, and the instances whose address and weight did not change.
use plecto.Prelude.{
  ℕ, ◌≤◌, ◌<◌, ◌≡◌, ◌⊎◌, ◌↔◌, ◌∙◌, refl, Bool, true, false, List, [], ◌∷◌, Option, none, some, Text,
  text_eq, any, find, update, ◌==◌, ==_iff, arith, Bool-cases, inl, inr,
}
use plecto.Manifest.{AddressSpec}
use plecto.Upstream.{HealthConfig, UpstreamGroup, Heap}
use plecto.Errors.{ControlError}
use plecto.Upstream.Registry.{
  UpstreamSpec, UpstreamRegistry, validate_from, reusable, is_same, keep_or_new, instances_of,
  build_group, insert_group, build_all, no_groups, reconcile, group,
}

-- A later heap, in which everything that was allocated is as it was.
pub record Extends (h h' : Heap) : Type 0 where
  pub more_instances : h.next_instance ≤ h'.next_instance
  pub more_groups : h.next_group ≤ h'.next_group
  pub same_instances : (q : ℕ) → q < h.next_instance → h'.instance_at q ≡ h.instance_at q
  pub same_groups : (g : ℕ) → g < h.next_group → h'.group_at g ≡ h.group_at g

pub Extends-refl : (h : Heap) → Extends h h
Extends-refl h = record {
  more_instances = omega arith;
  more_groups = omega arith;
  same_instances = λ q l. refl;
  same_groups = λ g l. refl;
}

pub Extends-trans : (h k l : Heap) → Extends h k → Extends k l → Extends h l
Extends-trans h k l a b = record {
  more_instances = omega (arith, a.more_instances, b.more_instances);
  more_groups = omega (arith, a.more_groups, b.more_groups);
  same_instances = λ q q_old.
      b.same_instances q (omega (arith, q_old, a.more_instances)) ∙ a.same_instances q q_old;
  same_groups =
      λ g g_old. b.same_groups g (omega (arith, g_old, a.more_groups)) ∙ a.same_groups g g_old;
}

update_other : {A : Type 0} (f : ℕ → A) (p q : ℕ) (v : A) → q < p → update f p v q ≡ f q
update_other f p q v l = let other : (p == q) ≡ false = ground arith in rw other refl

pub update_here : {A : Type 0} (f : ℕ → A) (p : ℕ) (v : A) → update f p v p ≡ v
update_here f p v = rw ((==_iff p p).1 refl) refl

pub keep_or_new-Extends :
    (h : Heap) (health : HealthConfig) (spec : AddressSpec) (o : Option ℕ)
    → Extends h (keep_or_new h health spec o).1
keep_or_new-Extends h health spec (some p) = Extends-refl h
keep_or_new-Extends h health spec none = record {
  more_instances = omega arith;
  more_groups = omega arith;
  same_instances = λ q l. update_other h.instance_at h.next_instance q _ l;
  same_groups = λ g l. refl;
}

pub instances_of-Extends :
    (h : Heap) (health : HealthConfig) (old : List ℕ) (specs : List AddressSpec)
    → Extends h (instances_of h health old specs).1
unfolding instances_of
instances_of-Extends h health old [] = Extends-refl h
instances_of-Extends h health old (spec ∷ specs) =
    Extends-trans _ _ _ (keep_or_new-Extends h health spec (find (is_same h spec) old)) (
      instances_of-Extends (keep_or_new h health spec (find (is_same h spec) old)).1 health old
        specs)

insert_group-Extends :
    (h : Heap) (next : UpstreamRegistry) (name : Text) (g : UpstreamGroup)
    → Extends h (insert_group h next name g).1
insert_group-Extends h next name g = record {
  more_instances = omega arith;
  more_groups = omega arith;
  same_instances = λ q l. refl;
  same_groups = λ q l. update_other h.group_at h.next_group q g l;
}

not_some : {n : ℕ} {P : Type 0} → ◌≡◌ {A = Option ℕ} (some n) none → P
not_some e = cc

true_false : {P : Type 0} → true ≡ false → P
true_false e = cc

abbrev pub is_named : Text → UpstreamSpec → Bool
is_named name up = text_eq up.name name

build_all-Extends :
    (h : Heap) (old next : UpstreamRegistry) (ups : List UpstreamSpec)
    → Extends h (build_all h old next ups).1
unfolding build_all build_group
build_all-Extends h old next [] = Extends-refl h
build_all-Extends h old next (up ∷ rest) =
    let kept = build_group h (old.groups up.name) up in
    let inserted = insert_group kept.1 next up.name kept.0 in
    Extends-trans h inserted.1 _
      (Extends-trans h kept.1 inserted.1
        (instances_of-Extends h up.health (reusable h (old.groups up.name) up.health)
          up.balancing.addresses)
        (insert_group-Extends kept.1 next up.name kept.0))
      (build_all-Extends inserted.1 old inserted.0 rest)

-- A name is in the result if an upstream has it, or if it was there before.
build_all-none :
    (h : Heap) (old next : UpstreamRegistry) (ups : List UpstreamSpec) (name : Text)
    → ((build_all h old next ups).0.groups name ≡ none)
      ↔ ((any (is_named name) ups ≡ false) × (next.groups name ≡ none))
unfolding build_all
build_all-none h old next [] name = (λ e. (refl, e), λ e. e.1)
build_all-none h old next (up ∷ rest) name =
    let kept = build_group h (old.groups up.name) up in
    let inserted = insert_group kept.1 next up.name kept.0 in
    let later = build_all-none inserted.1 old inserted.0 rest name in
    elim (Bool-cases (text_eq up.name name)) [
      | inl e ↦ (
        λ gone. not_some (rw e at (later.0 gone).1),
        λ none_of_them. true_false (rw e at none_of_them.0),
      )
      | inr e ↦ rw e (
        λ gone. ((later.0 gone).0, rw e at (later.0 gone).1),
        λ none_of_them. later.1 (none_of_them.0, rw e none_of_them.1),
      )
    ]

pub reconcile-all_or_nothing :
    (space : ℕ → Bool) (h : Heap) (registry : UpstreamRegistry) (ups : List UpstreamSpec)
    (name : Text)
    → let (error, (registry', h')) = reconcile space h registry ups in
      Extends h h'
      × (((e : ControlError) × (error ≡ some e) × (registry' ≡ registry) × (h' ≡ h))
          ⊎ ((error ≡ none) × ((group registry' name ≡ none) ↔ (any (is_named name) ups ≡ false))))
unfolding reconcile
reconcile-all_or_nothing space h registry ups name = settled (validate_from space [] ups)
  where
    settled :
        (o : Option ControlError)
        → let (error, (registry', h')) =
            elim o as (λ _. Option ControlError × (UpstreamRegistry × Heap)) [
              | some e ↦ (some e, (registry, h))
              | none ↦ (none, build_all h registry no_groups ups)
            ] in
          Extends h h'
          × (((e : ControlError) × (error ≡ some e) × (registry' ≡ registry) × (h' ≡ h))
              ⊎ ((error ≡ none)
                  × ((group registry' name ≡ none) ↔ (any (is_named name) ups ≡ false))))
    settled (some e) = (Extends-refl h, inl (e, refl, refl, refl))
    settled none =
        let names = build_all-none h registry no_groups ups name in
        (
          build_all-Extends h registry no_groups ups,
          inr (refl, (λ gone. (names.0 gone).0, λ none_of_them. names.1 (none_of_them, refl))),
        )
