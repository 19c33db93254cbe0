-- ===== src/Control/Running.antt =====
-- What a reload does to the running configuration.
use plecto.Prelude.{
  ◌≡◌, refl, sym, ◌∙◌, ap, subst, ◌⊎◌, true, Text, text_eq, text_eq_refl, inl, inr, Bool-cases,
}
use plecto.Errors.{ControlError, Result, ok, err, >>=-eq-ok}
use plecto.Control.{Manifest, Env, ActiveConfig, Persistent, ControlState}
use plecto.Control.Active.{Prepared, build_active}
use plecto.Control.Atomic.{IsPrepared, Built, build_active-Built}
use plecto.Control.Reload.{
  ReloadOutcome, unchanged, reloaded, ensure_trust_unchanged, swapped, path_manifest, read_version,
  reload_version, reload_from_disk,
}

ok_injective {ℓ} : {A : Type ℓ} {a b : A} → ◌≡◌ {A = Result A} (ok a) (ok b) → a ≡ b
ok_injective h = cc

module _ {Net Tls Key Value : Type 0} (env : Env Net Tls Key Value) where
  -- The store after a build: it fails and the state stays, or the new configuration is active.
  swapped-cases :
      {A : Type 0} (c : ControlState Tls) (answer : A) (m : Manifest)
      (r : Result (ActiveConfig Tls) × Persistent)
      → Built env m c.upstreams r
      → let t = swapped env c answer r in
        ((e : ControlError) × (t.0 ≡ err e) × (t.1 ≡ c))
        ⊎ ((a : ActiveConfig Tls) × (p : Prepared Tls) × (r.0 ≡ ok a)
            × (t.0 ≡ ok answer)
            × (t.1 ≡ record c { active = a; upstreams = r.1 })
            × IsPrepared env m p
            × (a.hash ≡ p.hash))
  swapped-cases c answer m (err e, s) (inl (_, _, kept, _)) =
      inl (e, refl, ap (λ x. record c { upstreams = x }) kept)
  swapped-cases c answer m (err e, s) (inr (p, a, f, _, _, _, _, _)) = cc
  swapped-cases c answer m (ok a, s) (inl (_, failed, _, _)) = cc
  swapped-cases c answer m (ok a, s) (inr (p, b, f, prepared, _, hash, _, _)) =
      let same : b ≡ a = ok_injective (sym f) in
      inr (a, p, refl, refl, refl, prepared, ap (λ x. x.hash) (sym same) ∙ hash)

  -- A reload that swapped in what it built of a manifest.
  pub record IsSwapped (c : ControlState Tls) (v : Result (Manifest × Text))
      (t : Result ReloadOutcome × ControlState Tls) : Type 0 where
    pub manifest : Manifest
    pub hash : Text
    pub config : ActiveConfig Tls
    pub prepared : Prepared Tls
    pub read : v ≡ ok (manifest, hash)
    pub built : (build_active env manifest c.upstreams).0 ≡ ok config
    pub answer : t.0 ≡ ok (reloaded hash)
    pub state :
        t.1 ≡ record c { active = config; upstreams = (build_active env manifest c.upstreams).1 }
    pub is_prepared : IsPrepared env manifest prepared
    pub same_hash : config.hash ≡ prepared.hash

  -- A reload as a sum: it fails, it finds the running version, or it swaps.
  pub reload_version-cases :
      (c : ControlState Tls) (v : Result (Manifest × Text))
      → let t = reload_version env c v in
        ((e : ControlError) × (t.0 ≡ err e) × (t.1 ≡ c))
        ⊎ (((t.0 ≡ ok unchanged) × (t.1 ≡ c)) ⊎ IsSwapped c v t)
  reload_version-cases c (err e) = inl (e, refl, refl)
  reload_version-cases c (ok (m, hash)) = elim (Bool-cases (text_eq hash c.active.hash)) [
    | inl same ↦ rw same (inr (inl (refl, refl)))
    | inr other ↦
        rw other
          (elim (swapped-cases c (reloaded hash) m (build_active env m c.upstreams)
            (build_active-Built env m c.upstreams)) [
              | inl failed ↦ inl failed
              | inr (a, p, built, answer, state, prepared, same_hash) ↦ inr (
                  inr (record {
                    manifest = m;
                    hash = hash;
                    config = a;
                    prepared = p;
                    read = refl;
                    built = built;
                    answer = answer;
                    state = state;
                    is_prepared = prepared;
                    same_hash = same_hash;
                  }))
            ])
  ]

  -- A reload that fails, whatever is on the disk and wherever it fails, leaves the whole control plane as it
  -- was: the running configuration, the upstreams and their health.
  pub reload_from_disk-kept :
      (c : ControlState Tls) (disk : Result Manifest) (e : ControlError)
      → (reload_from_disk env c disk).0 ≡ err e
      → (reload_from_disk env c disk).1 ≡ c
  unfolding reload_from_disk
  reload_from_disk-kept c disk e failed = elim (reload_version-cases c (read_version env c disk)) [
    | inl (_, _, kept) ↦ kept
    | inr (inl (_, kept)) ↦ kept
    | inr (inr w) ↦ cc (w.answer)
  ]

  -- The version that a reload compares is the hash of the manifest's content.
  version_hash :
      (c : ControlState Tls) (disk : Result Manifest) (m : Manifest) (hash : Text)
      → read_version env c disk ≡ ok (m, hash)
      → env.content_hash m ≡ ok hash
  unfolding read_version
  version_hash c disk m hash h =
      let (n, _, h1) = >>=-eq-ok (path_manifest env c disk) _ h in
      let (u, _, h2) = >>=-eq-ok (ensure_trust_unchanged env c n) _ h1 in
      let (v, hashed, h3) = >>=-eq-ok (env.content_hash n) _ h2 in
      let same : ◌≡◌ {A = Manifest × Text} (n, v) (m, hash) = ok_injective h3 in
      let same_manifest : n ≡ m = ap (λ x. x.0) same in
      let same_text : v ≡ hash = ap (λ x. x.1) same in cc

  abbrev Again : Result Manifest → ControlState Tls → Type 0
  Again disk c =
      ((reload_from_disk env c disk).0 ≡ ok unchanged) × ((reload_from_disk env c disk).1 ≡ c)

  same_version :
      (c : ControlState Tls) (disk : Result Manifest) (a : ActiveConfig Tls) (s : Persistent)
      (m : Manifest) (hash : Text)
      → read_version env c disk ≡ ok (m, hash)
      → hash ≡ a.hash
      → Again disk (record c { active = a; upstreams = s })
  unfolding reload_from_disk read_version ensure_trust_unchanged
  same_version c disk a s m hash h e =
      let equal : text_eq hash a.hash ≡ true =
        subst (λ x. text_eq hash x ≡ true) e (text_eq_refl hash) in
      rw (h, equal) (refl, refl)

  -- A reload that succeeds can be repeated: with the same manifest on the disk the next one finds nothing to do
  -- and changes nothing.
  pub reload_from_disk_idempotent :
      (c : ControlState Tls) (disk : Result Manifest) (o : ReloadOutcome)
      → (reload_from_disk env c disk).0 ≡ ok o
      → let c' = (reload_from_disk env c disk).1 in
        ((reload_from_disk env c' disk).0 ≡ ok unchanged) × ((reload_from_disk env c' disk).1 ≡ c')
  unfolding reload_from_disk
  reload_from_disk_idempotent c disk o done =
      elim (reload_version-cases c (read_version env c disk)) [
        | inl (e, failed, _) ↦ cc
        | inr (inl (same, kept)) ↦ subst (Again disk) (sym kept) (same, kept)
        | inr (inr w) ↦
            let hashed = version_hash c disk w.manifest w.hash w.read in
            let equal : w.hash ≡ w.config.hash =
              ok_injective (sym hashed ∙ w.is_prepared.hashed) ∙ sym w.same_hash in
            subst (Again disk) (sym w.state)
              (same_version c disk w.config _ w.manifest w.hash w.read equal)
      ]
