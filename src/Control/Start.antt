-- ===== src/Control/Start.antt =====
-- control/src/lib.rs: the constructors of the control plane. `read_keys` stands for what reads the trusted
-- keys and makes the host of them; what is on the disk, parsed or not, is an argument.
use plecto.Prelude.{List, Option, none, some, Text}
use plecto.Errors.{Result, ok, err, ◌>>=◌}
use plecto.Upstream.{Heap}
use plecto.Upstream.Registry.{no_groups}
use plecto.Control.{Manifest, Env, ActiveConfig, Persistent, ControlState}
use plecto.Control.Active.{build_active}

-- The struct that every constructor makes once the build has succeeded.
abbrev pub started :
    {Tls : Type 0}
    → Option Text
    → Manifest
    → Result (ActiveConfig Tls) × Persistent
    → Result (ControlState Tls)
started path m (err e, s) = err e
started path m (ok a, s) =
    ok (record { active = a; upstreams = s; manifest_path = path; trust = m.trust })

module _ {Net Tls Key Value : Type 0} (env : Env Net Tls Key Value) where
  -- `Control::load`, on a host that exists; the registry is new.
  unfoldable pub load : Heap → Manifest → Result (ControlState Tls)
  load h m = started none m (build_active env m (no_groups, h))

  -- `Control::load_at`.
  unfoldable pub load_at : Heap → Text → Result Manifest → Result (ControlState Tls)
  load_at h path disk = disk >>= λ m. started (some path) m (build_active env m (no_groups, h))

module _ {Net Tls Key Value : Type 0} (env : Env Net Tls Key Value)
    (read_keys : List Text → Result (List Key)) where
  -- The host is the environment with the keys of the manifest.
  unfoldable pub build_host_and_store : Manifest → Result (Env Net Tls Key Value)
  build_host_and_store m = read_keys m.trust >>= λ keys. ok (record env { trusted_keys = keys })

  -- `Control::from_manifest`.
  unfoldable pub from_manifest : Heap → Manifest → Result (Env Net Tls Key Value × ControlState Tls)
  from_manifest h m = do host ← build_host_and_store m; c ← load host h m; ok (host, c)

  -- `Control::from_manifest_path`.
  unfoldable pub from_manifest_path :
      Heap → Text → Result Manifest → Result (Env Net Tls Key Value × ControlState Tls)
  from_manifest_path h path disk = do
    m ← disk
    host ← build_host_and_store m
    c ← started (some path) m (build_active host m (no_groups, h))
    ok (host, c)
