-- ===== src/Control/Resolved.antt =====
-- An active configuration refers to nothing that is missing.
use plecto.Prelude.{◌≡◌, sym, ◌∙◌, subst, true, not, List, [], ◌∷◌, Text, All, inl, inr}
use plecto.Errors.{Result, ok, >>=-eq-ok, refuse_if, refuse_if-ok, unknown_chain_filter}
use plecto.Control.{Manifest, Env, ActiveConfig, Persistent}
use plecto.Control.Routes.{is_loaded}
use plecto.Control.Active.{Filters_, check_chain, build_active}
use plecto.Control.Checked.{not-true}
use plecto.Control.Compiled.{IsPlaced}
use plecto.Control.Atomic.{build_active-Built}

module _ {Net Tls Key Value : Type 0} (env : Env Net Tls Key Value) where
  check_chain-ok :
      (filters : Filters_) (ids : List Text) (u : Unit {0})
      → check_chain env filters ids ≡ ok u
      → All (λ id. is_loaded filters id ≡ true) ids
  unfolding check_chain
  check_chain-ok filters [] u h = tt
  check_chain-ok filters (id ∷ ids) u h =
      let (v, e, later) =
        >>=-eq-ok (refuse_if (not (is_loaded filters id)) (unknown_chain_filter id)) _ h in
      (
        not-true (is_loaded filters id) (refuse_if-ok (not (is_loaded filters id)) _ e),
        check_chain-ok filters ids u later,
      )

  ok_injective :
      {a b : ActiveConfig Tls} → ◌≡◌ {A = Result (ActiveConfig Tls)} (ok a) (ok b) → a ≡ b
  ok_injective h = cc

  -- In a configuration that a build makes, every filter that the default chain or a route names is loaded,
  -- every group that a route's split holds is the new registry's group of an upstream of the manifest, and
  -- the split has a table in which each of its groups has an entry.
  pub build_active-IsPlaced :
      (m : Manifest) (s : Persistent) (a : ActiveConfig Tls)
      → (build_active env m s).0 ≡ ok a
      → All (λ id. is_loaded a.filters id ≡ true) a.chain
        × All (IsPlaced a.filters (build_active env m s).1.0 m.upstreams) a.routes
  build_active-IsPlaced m s a built = elim (build_active-Built env m s) [
    | inl (e, failed, _, _) ↦ cc
    | inr (p, b, f, prepared, filters, hash, chain, placed) ↦
        let same : b ≡ a = ok_injective (sym f ∙ built) in
        let chained : All (λ id. is_loaded b.filters id ≡ true) b.chain =
          rw (filters, chain) (check_chain-ok p.filters m.chain tt prepared.chained) in
        subst
          (λ x.
            All (λ id. is_loaded x.filters id ≡ true) x.chain
            × All (IsPlaced x.filters (build_active env m s).1.0 m.upstreams) x.routes)
          same (chained, placed)
  ]
