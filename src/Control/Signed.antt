-- ===== src/Control/Signed.antt =====
-- Every filter of an active configuration has passed the gate.
use plecto.Prelude.{
  ◌≡◌, refl, sym, ◌∙◌, ap, subst, ◌⊎◌, List, [], ◌∷◌, Option, none, some, Text, text_eq, text_eq→eq,
  inl, inr, Bool-cases, Option-cases,
}
use plecto.Chain.{LoadedFilter}
use plecto.Errors.{Result, ok, >>=-eq-ok, refuse_if, duplicate_filter_id}
use plecto.Host.Gate.{SignedArtifact, Admitted, gate, gate-Admitted}
use plecto.Manifest.Filters
use plecto.Manifest.Filters.{FilterEntry, FilterReason, load_options}
use plecto.Control.{Manifest, Env, ActiveConfig, Persistent}
use plecto.Control.Routes.{is_loaded}
use plecto.Control.Active.{
  Filters_, no_filters, insert_filter, validated, load_filter, load_filters, build_active,
}
use plecto.Control.Atomic.{build_active-Built}

abbrev pub Mentions : FilterEntry → List FilterEntry → Type 0
Mentions entry [] = ⊥
Mentions entry (e ∷ es) = (entry ≡ e) ⊎ Mentions entry es

some_injective : {f g : LoadedFilter} → ◌≡◌ {A = Option LoadedFilter} (some f) (some g) → f ≡ g
some_injective h = cc

filters_injective : {f g : Filters_} → ◌≡◌ {A = Result Filters_} (ok f) (ok g) → f ≡ g
filters_injective h = cc

config_injective {ℓ} : {A : Type ℓ} {a b : A} → ◌≡◌ {A = Result A} (ok a) (ok b) → a ≡ b
config_injective h = cc

module _ {Net Tls Key Value : Type 0} (env : Env Net Tls Key Value) where
  -- What is known of a filter that is loaded under an id.
  pub record CameFrom (entries : List FilterEntry) (id : Text) (f : LoadedFilter) : Type 0 where
    pub entry : FilterEntry
    pub artifact : SignedArtifact
    pub mentioned : Mentions entry entries
    pub named : entry.id ≡ id
    pub valid : Filters.validate env.outbound_http env.space env.parse entry ≡ none
    pub resolved : env.resolve entry.source entry.digest ≡ ok artifact
    pub admitted : Admitted env.crypto env.trusted_keys entry.id artifact
    pub made : env.instantiate entry.id artifact (load_options env.parse entry) ≡ some f

  abbrev AllCame : List FilterEntry → Filters_ → Type 0
  AllCame entries filters =
      (id : Text) (f : LoadedFilter) → filters id ≡ some f → CameFrom entries id f

  gated :
      (entry : FilterEntry) (a : SignedArtifact) (f : LoadedFilter)
      → load_filter env entry a ≡ ok f
      → (gate env.crypto env.trusted_keys entry.id a ≡ none)
        × (env.instantiate entry.id a (load_options env.parse entry) ≡ some f)
  unfolding load_filter
  gated entry a f h = elim (Option-cases (gate env.crypto env.trusted_keys entry.id a)) [
    | inr (refused, e) ↦ cc (rw (e, load_filter) at h)
    | inl e ↦ elim (Option-cases (env.instantiate entry.id a (load_options env.parse entry))) [
      | inl none_made ↦ cc (rw (e, none_made, load_filter) at h)
      | inr (g, made) ↦
          let same : g ≡ f = config_injective (rw (e, made, load_filter) at h) in
          (e, made ∙ ap some same)
    ]
  ]

  valid_of : (id : Text) (o : Option FilterReason) (u : Unit {0}) → validated id o ≡ ok u → o ≡ none
  valid_of id none u h = refl
  valid_of id (some r) u h = cc

  inserted :
      (entries : List FilterEntry) (filters : Filters_) (id : Text) (f : LoadedFilter)
      → AllCame entries filters
      → CameFrom entries id f
      → AllCame entries (insert_filter filters id f)
  inserted entries filters id f all_came came k g h = elim (Bool-cases (text_eq id k)) [
    | inl e ↦
        let same : f ≡ g = some_injective (rw e at h) in
        let same_id : id ≡ k = text_eq→eq id k e in rw (← same, ← same_id) came
    | inr e ↦ all_came k g (rw e at h)
  ]

  load_filters-AllCame :
      (entries : List FilterEntry) (filters filters' : Filters_) (rest : List FilterEntry)
      → ((e : FilterEntry) → Mentions e rest → Mentions e entries)
      → AllCame entries filters
      → load_filters env filters rest ≡ ok filters'
      → AllCame entries filters'
  unfolding load_filters
  load_filters-AllCame entries filters filters' [] sub all_came h =
      let same : ◌≡◌ {A = Filters_} filters filters' = filters_injective h in
      subst (AllCame entries) same all_came
  load_filters-AllCame entries filters filters' (entry ∷ rest) sub all_came h =
      let (u, _, h1) =
        >>=-eq-ok (refuse_if (is_loaded filters entry.id) (duplicate_filter_id entry.id)) _ h in
      let (v, valid, h2) =
        >>=-eq-ok
          (validated entry.id (Filters.validate env.outbound_http env.space env.parse entry)) _
          h1 in
      let (a, resolved, h3) = >>=-eq-ok (env.resolve entry.source entry.digest) _ h2 in
      let (f, loaded, h4) = >>=-eq-ok (load_filter env entry a) _ h3 in
      let (passed, made) = gated entry a f loaded in
      load_filters-AllCame entries (insert_filter filters entry.id f) filters' rest
        (λ e m. sub e (inr m))
        (inserted entries filters entry.id f all_came (record {
          entry = entry;
          artifact = a;
          mentioned = sub entry (inl refl);
          named = refl;
          valid = valid_of entry.id _ v valid;
          resolved = resolved;
          admitted = gate-Admitted env.crypto env.trusted_keys entry.id a passed;
          made = made;
        }))
        h4

  -- Every filter of a configuration that a build makes comes from an entry of the manifest with its id that
  -- validation accepts: the store resolved the entry's pinned artifact, which the gate admitted with
  -- signatures of the trusted keys and an SBOM bound to it, and the runtime made the filter of it with the
  -- options that the entry lowers to.
  pub build_active-CameFrom :
      (m : Manifest) (s : Persistent) (a : ActiveConfig Tls) (id : Text) (f : LoadedFilter)
      → (build_active env m s).0 ≡ ok a
      → a.filters id ≡ some f
      → CameFrom m.filters id f
  build_active-CameFrom m s a id f built present = elim (build_active-Built env m s) [
    | inl (e, failed, _, _) ↦ cc
    | inr (p, b, g, prepared, filters, _, _, _) ↦
        let same : b ≡ a = config_injective (sym g ∙ built) in
        let same_filters : p.filters ≡ a.filters = sym filters ∙ ap (λ x. x.filters) same in
        load_filters-AllCame m.filters no_filters p.filters m.filters (λ e x. x) (λ k g h. cc)
          prepared.filled id f (ap (λ x. x id) same_filters ∙ present)
  ]
