-- ===== src/Control/Atomic.antt =====
-- A build that fails changes nothing that persists.
use plecto.Prelude.{
  ◌≡◌, refl, sym, ◌∙◌, subst, ◌↔◌, ◌⊎◌, inl, inr, false, Option, none, some, Text, All, [], any,
}
use plecto.Errors.{ControlError, Result, ok, err, >>=-eq-ok}
use plecto.Control.{Manifest, Env, ActiveConfig, Persistent}
use plecto.Control.Routes.{is_upstream, validate_routes}
use plecto.Control.Active.{
  Prepared, load_filters, check_chain, no_filters, prepare, active_of, after_reconcile,
  after_prepare, build_active,
}
use plecto.Control.Checked.{validate_routes-Checked}
use plecto.Control.Compiled.{Registers, IsPlaced, compile_routes-ok}
use plecto.Upstream.Registry.{reconcile, group}
use plecto.Upstream.Registry.Kept.{reconcile-all_or_nothing, is_named}

err_injective {ℓ} :
    {A : Type ℓ} {e e' : ControlError} → ◌≡◌ {A = Result A} (err e) (err e') → e ≡ e'
err_injective h = cc

module _ {Net Tls Key Value : Type 0} (env : Env Net Tls Key Value) (m : Manifest) where
  -- The steps that a successful preparation went through.
  pub record IsPrepared (p : Prepared Tls) : Type 0 where
    pub filled : load_filters env no_filters m.filters ≡ ok p.filters
    pub chained : check_chain env p.filters m.chain ≡ ok tt
    pub validated : validate_routes p.filters m.upstreams m.routes ≡ ok p.routes
    pub hashed : env.content_hash m ≡ ok p.hash

  pub prepare-IsPrepared : (p : Prepared Tls) → prepare env m ≡ ok p → IsPrepared p
  unfolding prepare
  prepare-IsPrepared p h =
      let (filters, filled, h1) = >>=-eq-ok (load_filters env no_filters m.filters) _ h in
      let (u, chained, h2) = >>=-eq-ok (check_chain env filters m.chain) _ h1 in
      let (routes, validated, h3) = >>=-eq-ok (validate_routes filters m.upstreams m.routes) _ h2 in
      let (tls, _, h4) = >>=-eq-ok (env.build_server_configs m.tls) _ h3 in
      let (hash, hashed, h5) = >>=-eq-ok (env.content_hash m) _ h4 in
      let same : ◌≡◌ {A = Prepared Tls}
          (record { filters = filters; routes = routes; tls = tls; hash = hash }) p =
        cc in
      rw (← same)
        (record { filled = filled; chained = chained; validated = validated; hashed = hashed })

  -- What a reconciliation amounts to: it fails and keeps what persists, or it registers the upstreams.
  abbrev Settled : Persistent → Option ControlError × Persistent → Type 0
  Settled s r =
      ((e : ControlError) × (r.0 ≡ some e) × (r.1 ≡ s))
      ⊎ ((r.0 ≡ none) × Registers r.1.0 m.upstreams)

  reconcile-Settled : (s : Persistent) → Settled s (reconcile env.space s.1 s.0 m.upstreams)
  reconcile-Settled s = elim (reconcile-all_or_nothing env.space s.1 s.0 m.upstreams []).1 [
    | inl (e, failed, registry, heap) ↦ inl (e, failed, λ i. (registry i, heap i))
    | inr (done, _) ↦ inr (
      done,
      λ name. registers name done (reconcile-all_or_nothing env.space s.1 s.0 m.upstreams name).1,
    )
  ]
    where
      registers :
          (name : Text)
          → (reconcile env.space s.1 s.0 m.upstreams).0 ≡ none
          → ((e : ControlError) × ((reconcile env.space s.1 s.0 m.upstreams).0 ≡ some e)
              × ((reconcile env.space s.1 s.0 m.upstreams).1.0 ≡ s.0)
              × ((reconcile env.space s.1 s.0 m.upstreams).1.1 ≡ s.1))
            ⊎ (((reconcile env.space s.1 s.0 m.upstreams).0 ≡ none)
                × ((group (reconcile env.space s.1 s.0 m.upstreams).1.0 name ≡ none)
                    ↔ (any (is_named name) m.upstreams ≡ false)))
          → (group (reconcile env.space s.1 s.0 m.upstreams).1.0 name ≡ none)
            ↔ (is_upstream m.upstreams name ≡ false)
      registers name done (inl (e, failed, _, _)) = cc
      registers name done (inr (_, names)) = names

  -- A build as a sum: it fails and keeps what persists, or it succeeds with a configuration whose routes
  -- are all placed.
  abbrev pub Built : Persistent → Result (ActiveConfig Tls) × Persistent → Type 0
  Built s r =
      ((e : ControlError) × (r.0 ≡ err e)
        × (r.1 ≡ s)
        × ((prepare env m ≡ err e) ⊎ ((reconcile env.space s.1 s.0 m.upstreams).0 ≡ some e)))
      ⊎ ((p : Prepared Tls) × (a : ActiveConfig Tls) × (r.0 ≡ ok a)
          × IsPrepared p
          × (a.filters ≡ p.filters)
          × (a.hash ≡ p.hash)
          × (a.chain ≡ m.chain)
          × All (IsPlaced a.filters r.1.0 m.upstreams) a.routes)

  after_reconcile-Built :
      (p : Prepared Tls) (s : Persistent) (r : Option ControlError × Persistent)
      → IsPrepared p
      → Settled s r
      → (reconcile env.space s.1 s.0 m.upstreams).0 ≡ r.0
      → Built s (after_reconcile env m p r)
  after_reconcile-Built p s (some e, s') q (inl (_, _, kept)) at = inl (e, refl, kept, inr at)
  after_reconcile-Built p s (some e, s') q (inr (done, _)) at = cc
  after_reconcile-Built p s (none, s') q (inl (_, failed, _)) at = cc
  after_reconcile-Built p s (none, s') q (inr (_, has)) at =
      let checked = validate_routes-Checked p.filters m.upstreams m.routes p.routes q.validated in
      let (routes, e, placed) =
        compile_routes-ok s'.0 m.upstreams has env.reads_body env.hasher p.filters p.routes
          checked in
      inr (p, active_of env m p routes, rw e refl, q, refl, refl, refl, placed)

  after_prepare-Built :
      (s : Persistent) (o : Result (Prepared Tls))
      → prepare env m ≡ o
      → Built s (after_prepare env m s o)
  after_prepare-Built s (err e) h = inl (e, refl, refl, inl h)
  after_prepare-Built s (ok p) h =
      after_reconcile-Built p s (reconcile env.space s.1 s.0 m.upstreams) (prepare-IsPrepared p h)
        (reconcile-Settled s) refl

  pub build_active-Built : (s : Persistent) → Built s (build_active env m s)
  unfolding build_active
  build_active-Built s = after_prepare-Built s (prepare env m) refl

  -- A build of an active configuration that fails leaves the registry of the upstreams and everything it
  -- points to as they were, and it fails in the steps before the reconciliation or because that refuses
  -- the upstreams: once they are reconciled, nothing fails.
  pub build_active-all_or_nothing :
      (s : Persistent) (e : ControlError)
      → (build_active env m s).0 ≡ err e
      → ((build_active env m s).1 ≡ s)
        × ((prepare env m ≡ err e) ⊎ ((reconcile env.space s.1 s.0 m.upstreams).0 ≡ some e))
  build_active-all_or_nothing s e failed = elim (build_active-Built s) [
    | inl (e', f, kept, early) ↦
        let same : e' ≡ e = err_injective (sym f ∙ failed) in
        (
          kept,
          subst
              (λ x.
                (prepare env m ≡ err x) ⊎ ((reconcile env.space s.1 s.0 m.upstreams).0 ≡ some x))
              same early,
        )
    | inr (p, a, f, _, _, _, _, _) ↦ cc
  ]
