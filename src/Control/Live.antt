-- ===== src/Control/Live.antt =====
-- What a control plane is, from its construction on, whatever its reloads find on the disk.
use plecto.Prelude.{
  ◌≡◌, refl, sym, ◌∙◌, ap, ap₂, subst, inl, inr, true, not, &&_iff, text_eq, text_eq→eq, arith,
  List, [], ◌∷◌, Option, some, Text, All,
}
use plecto.Chain.{LoadedFilter}
use plecto.Errors.{Result, ok, err, >>=-eq-ok, refuse_if-ok}
use plecto.Upstream.{Heap}
use plecto.Upstream.Registry.{no_groups}
use plecto.Control.{Manifest, Env, ActiveConfig, Persistent, ControlState}
use plecto.Control.Routes.{is_loaded}
use plecto.Control.Active.{build_active}
use plecto.Control.Compiled.{IsPlaced}
use plecto.Control.Resolved.{build_active-IsPlaced}
use plecto.Control.Signed.{CameFrom, build_active-CameFrom}
use plecto.Control.Start.{started, build_host_and_store, from_manifest_path}
use plecto.Control.Reload.{
  trust_eq, ensure_trust_unchanged, path_manifest, read_version, reload_from_disk, serve_reloads,
}
use plecto.Control.Running.{reload_version-cases}

trust_eq→eq : (js ks : List Text) → trust_eq js ks ≡ true → js ≡ ks
unfolding trust_eq
trust_eq→eq [] [] h = refl
trust_eq→eq [] (k ∷ ks) h = cc
trust_eq→eq (j ∷ js) [] h = cc
trust_eq→eq (j ∷ js) (k ∷ ks) h =
    let both = (&&_iff (text_eq j k) (trust_eq js ks)).0 h in
    ap₂ ◌∷◌ (text_eq→eq j k both.0) (trust_eq→eq js ks both.1)

module _ {Net Tls Key Value : Type 0} (env : Env Net Tls Key Value) where
  -- A configuration that was built from a manifest: its chain and its routes name loaded filters, its splits
  -- hold groups of the live registry, and every filter passed the gate for an entry of the manifest.
  abbrev pub RunsFrom : Manifest → ActiveConfig Tls → Persistent → Type 0
  RunsFrom m a s =
      All (λ id. is_loaded a.filters id ≡ true) a.chain
      × All (IsPlaced a.filters s.0 m.upstreams) a.routes
      × ((id : Text) (f : LoadedFilter) → a.filters id ≡ some f → CameFrom env m.filters id f)

  build_active-RunsFrom :
      (m : Manifest) (s : Persistent) (a : ActiveConfig Tls)
      → (build_active env m s).0 ≡ ok a
      → RunsFrom m a (build_active env m s).1
  build_active-RunsFrom m s a built =
      let (chained, placed) = build_active-IsPlaced env m s a built in
      (chained, placed, λ id f present. build_active-CameFrom env m s a id f built present)

  -- What a control plane keeps: it runs from a manifest with its trust, and has the path it was made with.
  abbrev pub IsLive : Option Text → List Text → ControlState Tls → Type 0
  IsLive path trust c =
      ((m : Manifest) × (m.trust ≡ trust) × RunsFrom m c.active c.upstreams)
      × (c.manifest_path ≡ path)
      × (c.trust ≡ trust)

  started-IsLive :
      (path : Option Text) (m : Manifest) (r : Result (ActiveConfig Tls) × Persistent)
      (c : ControlState Tls)
      → ((a : ActiveConfig Tls) → r.0 ≡ ok a → RunsFrom m a r.1)
      → started path m r ≡ ok c
      → IsLive path m.trust c
  started-IsLive path m (err e, s) c live h = cc
  started-IsLive path m (ok a, s) c live h =
      let made : ◌≡◌ {A = ControlState Tls}
          (record { active = a; upstreams = s; manifest_path = path; trust = m.trust }) c =
        cc in
      subst (IsLive path m.trust) made ((m, refl, live a refl), refl, refl)

  -- The trust of what a reload reads is that of the state.
  read_version-same_trust :
      (c : ControlState Tls) (disk : Result Manifest) (m : Manifest) (hash : Text)
      → read_version env c disk ≡ ok (m, hash)
      → m.trust ≡ c.trust
  unfolding read_version ensure_trust_unchanged
  read_version-same_trust c disk m hash h =
      let (m', _, checked) = >>=-eq-ok (path_manifest env c disk) _ h in
      let (_, trusted, hashed) = >>=-eq-ok (ensure_trust_unchanged env c m') _ checked in
      let (_, _, same) = >>=-eq-ok (env.content_hash m') _ hashed in
      let refused = refuse_if-ok (not (trust_eq m'.trust c.trust)) _ trusted in
      let here : m' ≡ m = cc in
      subst (λ x. x.trust ≡ c.trust) here (trust_eq→eq m'.trust c.trust (ground (arith, refused)))

  reload_from_disk-IsLive :
      (path : Option Text) (trust : List Text) (c : ControlState Tls) (disk : Result Manifest)
      → IsLive path trust c
      → IsLive path trust (reload_from_disk env c disk).1
  unfolding reload_from_disk
  reload_from_disk-IsLive path trust c disk v =
      elim (reload_version-cases env c (read_version env c disk)) [
        | inl (_, _, kept) ↦ subst (IsLive path trust) (sym kept) v
        | inr (inl (_, kept)) ↦ subst (IsLive path trust) (sym kept) v
        | inr (inr w) ↦
            let same = read_version-same_trust c disk w.manifest w.hash w.read ∙ v.2 in
            subst (IsLive path trust) (sym w.state) (
              (w.manifest, same, build_active-RunsFrom w.manifest c.upstreams w.config w.built),
              v.1,
              v.2,
            )
      ]

  serve_reloads-IsLive :
      (path : Option Text) (trust : List Text) (c : ControlState Tls)
      (triggers : List (Result Manifest))
      → IsLive path trust c
      → IsLive path trust (serve_reloads env c triggers)
  unfolding serve_reloads
  serve_reloads-IsLive path trust c [] v = v
  serve_reloads-IsLive path trust c (disk ∷ triggers) v =
      serve_reloads-IsLive path trust (reload_from_disk env c disk).1 triggers
        (reload_from_disk-IsLive path trust c disk v)

module _ {Net Tls Key Value : Type 0} (env : Env Net Tls Key Value)
    (read_keys : List Text → Result (List Key)) where
  from_manifest_path-made :
      (h : Heap) (path : Text) (disk : Result Manifest) (host : Env Net Tls Key Value)
      (c : ControlState Tls)
      → from_manifest_path env read_keys h path disk ≡ ok (host, c)
      → (m : Manifest) × (read_keys m.trust ≡ ok host.trusted_keys)
        × (started (some path) m (build_active host m (no_groups, h)) ≡ ok c)
  unfolding from_manifest_path build_host_and_store
  from_manifest_path-made h path disk host c made =
      let (m, _, with_manifest) = >>=-eq-ok disk _ made in
      let (host', hosted, with_host) =
        >>=-eq-ok (build_host_and_store env read_keys m) _ with_manifest in
      let (keys, keys_read, as_host) = >>=-eq-ok (read_keys m.trust) _ hosted in
      let (c', run, pair) =
        >>=-eq-ok (started (some path) m (build_active host' m (no_groups, h))) _ with_host in
      let same_host : host' ≡ host = cc in
      let same : c' ≡ c = cc in
      let with_keys : ◌≡◌ {A = Env Net Tls Key Value} (record env { trusted_keys = keys }) host =
        cc in
      let has_keys : keys ≡ host.trusted_keys =
        ap (λ (e : Env Net Tls Key Value). e.trusted_keys) with_keys in
      (m, keys_read ∙ ap ok has_keys, cc (run, same_host, same))

  started-serve_reloads :
      (h : Heap) (path : Option Text) (host : Env Net Tls Key Value) (m : Manifest)
      (c : ControlState Tls) (triggers : List (Result Manifest))
      → started path m (build_active host m (no_groups, h)) ≡ ok c
      → IsLive host path m.trust (serve_reloads host c triggers)
  started-serve_reloads h path host m c triggers run =
      serve_reloads-IsLive host path m.trust c triggers (
        started-IsLive host path m (build_active host m (no_groups, h)) c
          (build_active-RunsFrom host m (no_groups, h)) run)

  -- A control plane made from a manifest file runs, whatever its reload triggers find on the disk, bad manifests
  -- included, from a manifest whose trust section gives the keys of the host: its chain and its routes name
  -- loaded filters, its splits hold groups of the live registry, and every filter passed the gate under
  -- those keys. It reloads from the same path throughout.
  pub from_manifest_path-serve_reloads :
      (h : Heap) (path : Text) (disk : Result Manifest) (host : Env Net Tls Key Value)
      (c : ControlState Tls) (triggers : List (Result Manifest))
      → from_manifest_path env read_keys h path disk ≡ ok (host, c)
      → let c' = serve_reloads host c triggers in
        ((m : Manifest) × (read_keys m.trust ≡ ok host.trusted_keys)
          × RunsFrom host m c'.active c'.upstreams)
        × (c'.manifest_path ≡ some path)
  from_manifest_path-serve_reloads h path disk host c triggers made =
      of_start (from_manifest_path-made h path disk host c made)
    where
      of_start :
          (m : Manifest) × (read_keys m.trust ≡ ok host.trusted_keys)
            × (started (some path) m (build_active host m (no_groups, h)) ≡ ok c)
          → let c' = serve_reloads host c triggers in
            ((m : Manifest) × (read_keys m.trust ≡ ok host.trusted_keys)
              × RunsFrom host m c'.active c'.upstreams)
            × (c'.manifest_path ≡ some path)
      of_start (m, keys_read, run) =
          let ((m', trust, runs), kept, _) =
            started-serve_reloads h (some path) host m c triggers run in
          ((m', ap read_keys trust ∙ keys_read, runs), kept)
