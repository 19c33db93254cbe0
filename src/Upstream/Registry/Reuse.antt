-- ===== src/Upstream/Registry/Reuse.antt =====
-- Where the instances of a rebuilt group come from, in terms of the search that the code makes.
use plecto.Prelude.{
  ℕ, ◌≤◌, ◌<◌, ◌≡◌, ◌⊎◌, ◌∙◌, refl, sym, ap, ap₂, Bool, true, false, ◌&&◌, ◌||◌, List, [], ◌∷◌,
  Option, none, some, text_eq, any, find, ◌==◌, arith, All, Bool-cases, inl, inr,
}
use plecto.Manifest.{AddressSpec, address_of, weight_of}
use plecto.Upstream.{HealthConfig, Heap}
use plecto.Upstream.Instance.{new}
use plecto.Upstream.Lb.Scan.{Among}
use plecto.Upstream.Registry.{
  is_same, keep_or_new, instances_of, UpstreamSpec, reusable, build_group,
}
use plecto.Upstream.Registry.Kept.{
  Extends, Extends-refl, Extends-trans, keep_or_new-Extends, instances_of-Extends, update_here,
}

-- The instance `p` that an address gets: an old one of that address and weight, with all its state; or, when no
-- old one has them, one in its first state, which is not healthy.
abbrev pub Placed : Heap → Heap → HealthConfig → List ℕ → AddressSpec → ℕ → Type 0
Placed h h' health old spec p =
    ((is_same h spec p ≡ true) × Among p old × (h'.instance_at p ≡ h.instance_at p))
    ⊎ ((any (is_same h spec) old ≡ false)
        × (h.next_instance ≤ p)
        × (h'.instance_at p ≡ new (address_of spec) (weight_of spec) health))

-- The addresses and the instances, one by one.
abbrev pub PlacedAll : Heap → Heap → HealthConfig → List ℕ → List AddressSpec → List ℕ → Type 0
PlacedAll h h' health old [] [] = Unit
PlacedAll h h' health old [] (p ∷ ps) = ⊥
PlacedAll h h' health old (spec ∷ specs) [] = ⊥
PlacedAll h h' health old (spec ∷ specs) (p ∷ ps) =
    Placed h h' health old spec p × PlacedAll h h' health old specs ps

found :
    (f : ℕ → Bool) (ps : List ℕ)
    → ((find f ps ≡ none) × (any f ps ≡ false))
      ⊎ ((p : ℕ) × (find f ps ≡ some p) × (f p ≡ true) × Among p ps)
found f [] = inl (refl, refl)
found f (p ∷ ps) = elim (Bool-cases (f p)) [
  | inl e ↦ rw e (inr (p, refl, e, inl refl))
  | inr e ↦ rw e (elim (found f ps) [
    | inl gone ↦ inl gone
    | inr (q, hit, holds, among) ↦ inr (q, hit, holds, inr among)
  ])
]

-- Old instances are as they were, so the test gives what it gave.
is_same-old :
    (h0 h : Heap) (spec : AddressSpec) (p : ℕ)
    → Extends h0 h
    → p < h0.next_instance
    → is_same h spec p ≡ is_same h0 spec p
is_same-old h0 h spec p later l =
    ap (λ i. text_eq i.address (address_of spec) && (i.weight == weight_of spec))
      (later.same_instances p l)

any-old :
    (h0 h : Heap) (spec : AddressSpec) (old : List ℕ)
    → Extends h0 h
    → All (λ p. p < h0.next_instance) old
    → any (is_same h spec) old ≡ any (is_same h0 spec) old
any-old h0 h spec [] later l = refl
any-old h0 h spec (p ∷ ps) later l =
    ap₂ ◌||◌ (is_same-old h0 h spec p later l.0) (any-old h0 h spec ps later l.1)

Among-All : (bound p : ℕ) (ps : List ℕ) → All (λ q. q < bound) ps → Among p ps → p < bound
Among-All bound p [] l a = absurd a
Among-All bound p (q ∷ ps) l (inl e) = omega (arith, e, l.0)
Among-All bound p (q ∷ ps) l (inr a) = Among-All bound p ps l.1 a

keep_or_new-Placed :
    (h0 h h' : Heap) (health : HealthConfig) (old : List ℕ) (spec : AddressSpec)
    → Extends h0 h
    → All (λ p. p < h0.next_instance) old
    → Extends (keep_or_new h health spec (find (is_same h spec) old)).1 h'
    → Placed h0 h' health old spec (keep_or_new h health spec (find (is_same h spec) old)).0
keep_or_new-Placed h0 h h' health old spec later l after = elim (found (is_same h spec) old) [
  | inr (p, hit, holds, among) ↦
      let is_old = Among-All h0.next_instance p old l among in
      let stays : Extends h h' = rw hit at after in
      rw hit (
        inl (
          sym (is_same-old h0 h spec p later is_old) ∙ holds,
          among,
          stays.same_instances p (omega (arith, is_old, later.more_instances))
              ∙ later.same_instances p is_old,
        ))
  | inl (missed, gone) ↦
      let stays = rw missed at after in
      rw missed (
        inr (
          sym (any-old h0 h spec old later l) ∙ gone,
          later.more_instances,
          stays.same_instances h.next_instance (omega arith)
              ∙ update_here h.instance_at h.next_instance
                  (new (address_of spec) (weight_of spec) health),
        ))
]

placed_from :
    (h0 h : Heap) (health : HealthConfig) (old : List ℕ) (specs : List AddressSpec)
    → Extends h0 h
    → All (λ p. p < h0.next_instance) old
    → PlacedAll h0
        (instances_of h health old specs).1
        health
        old
        specs
        (instances_of h health old specs).0
unfolding instances_of
placed_from h0 h health old [] later l = tt
placed_from h0 h health old (spec ∷ specs) later l =
    let one = keep_or_new h health spec (find (is_same h spec) old) in
    (
      keep_or_new-Placed h0 h _ health old spec later l
          (instances_of-Extends one.1 health old specs),
      placed_from h0 one.1 health old specs
          (Extends-trans h0 h one.1 later
            (keep_or_new-Extends h health spec (find (is_same h spec) old)))
          l,
    )

pub build_group-PlacedAll :
    (h : Heap) (prev : Option ℕ) (up : UpstreamSpec)
    → All (λ p. p < h.next_instance) (reusable h prev up.health)
    → let (group, h') = build_group h prev up in
      PlacedAll h h' up.health (reusable h prev up.health) up.balancing.addresses group.instances
unfolding build_group
build_group-PlacedAll h prev up l =
    placed_from h h up.health (reusable h prev up.health) up.balancing.addresses (Extends-refl h) l
