-- ===== src/Upstream/Lb/Eligible.antt =====
-- A pick serves from the eligible instances, and fails exactly when there is none.
use plecto.Prelude.{
  ℕ, ◌≡◌, ◌≢◌, ◌↔◌, refl, sym, ◌∙◌, Bool, true, false, List, [], ◌∷◌, Option, none, some, arith,
  any, Option-cases, inl, inr, ap, ◌&&◌, ◌||◌, not, subst,
}
use plecto.Upstream.{Heap, UpstreamGroup}
use plecto.Upstream.Instance.{is_outlier_ejected}
use plecto.Upstream.Outlier.{outlier_enabled}
use plecto.Upstream.Lb.{
  HashInput, Pick, Env, eligibility_ctx, is_eligible, pick_dispatch, pick, pick_excluding,
  has_eligible,
}
use plecto.Upstream.Lb.Scan.{Among}
use plecto.Upstream.Lb.Serves.{sight, Steady, IsDraw, Serves, pick_dispatch-Serves}

sight-none :
    (h : Heap) (g clock : ℕ)
    → has_eligible h (h.group_at g) clock ≡ any (sight h g none clock) (h.group_at g).instances
unfolding has_eligible is_eligible
sight-none h g clock = same (h.group_at g).instances
  where
    group : UpstreamGroup
    group = h.group_at g

    same :
        (ps : List ℕ)
        → any
            (λ p.
              (h.instance_at p).healthy
              && (not (eligibility_ctx group clock).0
                  || not (is_outlier_ejected (h.instance_at p) (eligibility_ctx group clock).1)))
            ps
          ≡ any (sight h g none clock) ps
    same [] = refl
    same (p ∷ ps) = ground (arith, same ps)

sight_facts :
    (h : Heap) (g ex clock p : ℕ)
    → sight h g (some ex) clock p ≡ true
    → ((h.instance_at p).healthy ≡ true)
      × ((outlier_enabled (h.group_at g) && is_outlier_ejected (h.instance_at p) clock) ≡ false)
      × (p ≢ ex)
unfolding is_eligible eligibility_ctx
sight_facts h g ex clock p s = (ground arith, ground arith, λ e. ground arith)

any-Among :
    (eligible : ℕ → Bool) (ps : List ℕ) (p : ℕ)
    → eligible p ≡ true
    → Among p ps
    → any eligible ps ≡ true
any-Among eligible [] p s a = absurd a
any-Among eligible (q ∷ qs) p s (inl e) = ground (arith, ap eligible e)
any-Among eligible (q ∷ qs) p s (inr a) = ground (arith, any-Among eligible qs p s a)

-- A retry, for each of the three algorithms, lands on an instance of the group that is healthy, is not
-- ejected when the outlier policy is on, and is not the one excluded, as long as health does not
-- change within the pick and the draws are two distinct ordinals in range.
pub pick_excluding_sound :
    (h : Heap) (e : Env) (g ex : ℕ) (key : Option HashInput) (p : Pick)
    → Steady h e g (some ex)
    → IsDraw e.draw
    → (pick_excluding h e g ex key).0 ≡ some p
    → Among p.instance_ptr (h.group_at g).instances
      × ((h.instance_at p.instance_ptr).healthy ≡ true)
      × ((outlier_enabled (h.group_at g)
            && is_outlier_ejected (h.instance_at p.instance_ptr) e.clock)
          ≡ false)
      × (p.instance_ptr ≢ ex)
unfolding pick_excluding
pick_excluding_sound h e g ex key p steady fair f =
    opened (
      subst (Serves h g (some ex) e.clock) f (pick_dispatch-Serves h e g (some ex) key steady fair))
  where
    opened :
        Serves h g (some ex) e.clock (some p)
        → Among p.instance_ptr (h.group_at g).instances
          × ((h.instance_at p.instance_ptr).healthy ≡ true)
          × ((outlier_enabled (h.group_at g)
                && is_outlier_ejected (h.instance_at p.instance_ptr) e.clock)
              ≡ false)
          × (p.instance_ptr ≢ ex)
    opened (s, a) =
        let facts = sight_facts h g ex e.clock p.instance_ptr s in (a, facts.0, facts.1, facts.2)

-- A pick fails exactly when `has_eligible` says that the upstream can serve nothing, for each of the
-- three algorithms, under the same conditions.
pub pick-none_iff :
    (h : Heap) (e : Env) (g : ℕ) (key : Option HashInput)
    → Steady h e g none
    → IsDraw e.draw
    → ((pick h e g key).0 ≡ none) ↔ (has_eligible h (h.group_at g) e.clock ≡ false)
unfolding pick
pick-none_iff h e g key steady fair = (down, up)
  where
    served : Serves h g none e.clock (pick_dispatch h e g none key).0
    served = pick_dispatch-Serves h e g none key steady fair

    down : (pick_dispatch h e g none key).0 ≡ none → has_eligible h (h.group_at g) e.clock ≡ false
    down f = sight-none h g e.clock ∙ subst (Serves h g none e.clock) f served

    up : has_eligible h (h.group_at g) e.clock ≡ false → (pick_dispatch h e g none key).0 ≡ none
    up f = elim (Option-cases (pick_dispatch h e g none key).0) [
      | inl z ↦ z
      | inr (p, z) ↦
          let (s, a) = subst (Serves h g none e.clock) z served in
          let some_seen =
            any-Among (sight h g none e.clock) (h.group_at g).instances p.instance_ptr s a in
          cc (sym (sight-none h g e.clock), f, some_seen)
    ]
