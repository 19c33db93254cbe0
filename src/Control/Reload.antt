-- ===== src/Control/Reload.antt =====
-- control/src/control_reload.rs and reload.rs: the reloads. What is on the disk at a reload, parsed or
-- not, is an argument.
use plecto.Prelude.{
  Bool, true, false, ◌&&◌, not, List, [], ◌∷◌, none, some, Text, text_eq, if◌then◌else◌,
}
use plecto.Errors.{
  no_manifest_path, trust_change_requires_restart, Result, ok, err, ◌>>=◌, ◌>>◌, refuse_if,
}
use plecto.Control.{Manifest, Env, ActiveConfig, Persistent, ControlState}
use plecto.Control.Active.{build_active}

pub data ReloadOutcome : Type 0 where
  unchanged : ReloadOutcome
  reloaded : Text → ReloadOutcome

-- `PartialEq` of `Trust`.
unfoldable pub trust_eq : List Text → List Text → Bool
trust_eq [] [] = true
trust_eq [] (k ∷ ks) = false
trust_eq (j ∷ js) [] = false
trust_eq (j ∷ js) (k ∷ ks) = text_eq j k && trust_eq js ks

module _ {Net Tls Key Value : Type 0} (env : Env Net Tls Key Value) where
  unfoldable pub ensure_trust_unchanged : ControlState Tls → Manifest → Result (Unit {0})
  ensure_trust_unchanged c m =
      refuse_if (not (trust_eq m.trust c.trust)) trust_change_requires_restart

  -- The last steps of a reload: the build, and the store of what it made.
  abbrev pub swapped :
      {A : Type 0}
      → ControlState Tls
      → A
      → Result (ActiveConfig Tls) × Persistent
      → Result A × ControlState Tls
  swapped c answer (err e, s) = (err e, record c { upstreams = s })
  swapped c answer (ok a, s) = (ok answer, record c { active = a; upstreams = s })

  abbrev pub reload_trusted :
      ControlState Tls → Manifest → Result (Unit {0}) → Result (Unit {0}) × ControlState Tls
  reload_trusted c m (err e) = (err e, c)
  reload_trusted c m (ok u) = swapped c tt (build_active env m c.upstreams)

  unfoldable pub reload : ControlState Tls → Manifest → Result (Unit {0}) × ControlState Tls
  reload c m = reload_trusted c m (ensure_trust_unchanged c m)

  abbrev pub path_manifest : ControlState Tls → Result Manifest → Result Manifest
  path_manifest c disk = elim c.manifest_path [ none ↦ err no_manifest_path | some path ↦ disk ]

  -- What `reload_from_disk` reads before it compares versions.
  unfoldable pub read_version : ControlState Tls → Result Manifest → Result (Manifest × Text)
  read_version c disk = do
    m ← path_manifest c disk
    ensure_trust_unchanged c m
    hash ← env.content_hash m
    ok (m, hash)

  abbrev pub reload_version :
      ControlState Tls → Result (Manifest × Text) → Result ReloadOutcome × ControlState Tls
  reload_version c (err e) = (err e, c)
  reload_version c (ok (m, hash)) =
      if text_eq hash c.active.hash
      then (ok unchanged, c)
      else swapped c (reloaded hash) (build_active env m c.upstreams)

  unfoldable pub reload_from_disk :
      ControlState Tls → Result Manifest → Result ReloadOutcome × ControlState Tls
  reload_from_disk c disk = reload_version c (read_version c disk)

  -- The loop, on what each trigger finds on the disk. Errors are logged, and the loop goes on.
  unfoldable pub serve_reloads : ControlState Tls → List (Result Manifest) → ControlState Tls
  serve_reloads c [] = c
  serve_reloads c (disk ∷ triggers) = serve_reloads (reload_from_disk c disk).1 triggers
