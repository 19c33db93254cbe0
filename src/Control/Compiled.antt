-- ===== src/Control/Compiled.antt =====
-- Routes that validation let through compile, against a registry that has every upstream.
use plecto.Prelude.{
  ℕ, ◌≡◌, refl, sym, ◌∙◌, ap, subst, ◌↔◌, Bool, true, false, List, [], ◌∷◌, Option, none, some,
  Text, All, Bool-cases, Option-cases, inl, inr,
}
use plecto.Chain.{LoadedFilter}
use plecto.Errors.{ok}
use plecto.Control.{Route}
use plecto.Control.Routes.{
  Targets, is_upstream, is_loaded, target_weights, resolve_targets, compile_routes, compiled_route,
}
use plecto.Control.Checked.{Checked}
use plecto.Proxy.{RouteEntry}
use plecto.Upstream.Registry.{UpstreamSpec, UpstreamRegistry, group}
use plecto.Weighted
use plecto.Weighted.{
  SplitResult, WeightedBackends, weights_of, keep_groups, is_positive, validate_split, compile,
}
use plecto.Weighted.Split.{IsValid, new-IsValid, new-validated, groups-compile}

-- The registry has a group for every upstream of the manifest, and for no other name.
abbrev pub Registers : UpstreamRegistry → List UpstreamSpec → Type 0
Registers registry upstreams =
    (name : Text) → (group registry name ≡ none) ↔ (is_upstream upstreams name ≡ false)

-- The pointer is the group of an upstream of the manifest.
abbrev pub Registered : UpstreamRegistry → List UpstreamSpec → ℕ → Type 0
Registered registry upstreams g =
    (name : Text) × (is_upstream upstreams name ≡ true) × (group registry name ≡ some g)

-- What a route of an active configuration can rely on.
pub record IsPlaced (filters : Text → Option LoadedFilter) (registry : UpstreamRegistry)
    (upstreams : List UpstreamSpec) (r : RouteEntry) : Type 0 where
  pub loaded : All (λ id. is_loaded filters id ≡ true) r.filters
  pub registered : All (Registered registry upstreams) r.backends.groups
  pub split : IsValid r.backends

module _ (registry : UpstreamRegistry) (upstreams : List UpstreamSpec)
    (has : Registers registry upstreams) where
  find_group :
      (name : Text) → is_upstream upstreams name ≡ true → (g : ℕ) × (group registry name ≡ some g)
  find_group name h = elim (Option-cases (group registry name)) [
    | inl gone ↦ let out = (has name).0 gone in cc
    | inr (g, e) ↦ (g, e)
  ]

  -- The targets resolve, weight by weight, to registered groups.
  record Resolves (targets : Targets) (resolved : List (ℕ × ℕ)) : Type 0 where
    same_weights : weights_of resolved ≡ target_weights targets
    registered : All (Registered registry upstreams) (keep_groups resolved)

  keep-Registered :
      (g weight : ℕ) (resolved : List (ℕ × ℕ))
      → Registered registry upstreams g
      → All (Registered registry upstreams) (keep_groups resolved)
      → All (Registered registry upstreams) (keep_groups ((g, weight) ∷ resolved))
  keep-Registered g weight resolved r rs = elim (Bool-cases (is_positive weight)) [
    | inl e ↦ rw e (r, rs)
    | inr e ↦ rw e rs
  ]

  resolve_targets-ok :
      (prefix : Text) (targets : Targets)
      → All (λ t. is_upstream upstreams t.0 ≡ true) targets
      → (resolved : List (ℕ × ℕ)) × (resolve_targets registry prefix targets ≡ ok resolved)
        × Resolves targets resolved
  unfolding resolve_targets
  resolve_targets-ok prefix [] known = ([], refl, record { same_weights = refl; registered = tt })
  resolve_targets-ok prefix ((name, weight) ∷ rest) known =
      let (g, e) = find_group name known.0 in
      let (resolved, f, r) = resolve_targets-ok prefix rest known.1 in
      (
        (g, weight) ∷ resolved,
        rw (e, f) refl,
        record {
          same_weights = ap (λ ws. weight ∷ ws) r.same_weights;
          registered = keep-Registered g weight resolved (name, known.0, e) r.registered;
        },
      )

  new-ok :
      (targets : Targets) (resolved : List (ℕ × ℕ)) (n : ℕ)
      → Resolves targets resolved
      → validate_split (target_weights targets) ≡ SplitResult.ok n
      → Weighted.new resolved ≡ SplitResult.ok (compile resolved)
  new-ok targets resolved n r e = new-validated resolved n (ap validate_split r.same_weights ∙ e)

  pub compile_routes-ok :
      (reads_body : LoadedFilter → Bool) (hasher : Text → ℕ) (filters : Text → Option LoadedFilter)
      (validated : List (Route × Targets))
      → All (Checked filters upstreams) validated
      → (routes : List RouteEntry) × (compile_routes reads_body hasher registry filters validated
          ≡ ok routes)
        × All (IsPlaced filters registry upstreams) routes
  unfolding compile_routes
  compile_routes-ok reads_body hasher filters [] checked = ([], refl, tt)
  compile_routes-ok reads_body hasher filters ((r, targets) ∷ rest) checked =
      let prefix = r.matcher.path_prefix in
      let (resolved, e, rs) = resolve_targets-ok prefix targets checked.0.known in
      let f = new-ok targets resolved checked.0.total.0 rs checked.0.total.1 in
      let (routes, g, placed) = compile_routes-ok reads_body hasher filters rest checked.1 in
      (
        compiled_route reads_body hasher filters r (compile resolved) ∷ routes,
        rw (e, f, g) refl,
        (
          record {
            loaded = checked.0.loaded;
            registered =
                subst (All (Registered registry upstreams)) (sym (groups-compile resolved))
                  rs.registered;
            split = new-IsValid resolved (compile resolved) f;
          },
          placed,
        ),
      )
