-- ===== src/Probes.antt =====
-- server/src/health.rs: the supervisor of the active health checks. The client is a parameter: what the
-- request of a URI comes to within a timeout, none if it cannot be built, fails or is late.
use plecto.Prelude.{
  ℕ, ◌-◌, min, max, Bool, true, false, ◌&&◌, List, [], ◌∷◌, ◌++◌, Option, none, some, Text, bytes,
  text_eq, if◌then◌else◌, leb, ltb, ◌==◌, any,
}
use plecto.Upstream.{HealthConfig, UpstreamInstance, UpstreamGroup, Heap}
use plecto.Upstream.Instance.{record_probe_success, record_probe_failure}
pub mod Turn
pub mod Schedule
pub mod History
pub mod Examples

-- A group's name and an instance's address.
abbrev pub Key : Type 0
Key = Text × Text

abbrev pub key_eq : Key → Key → Bool
key_eq (n, a) (m, b) = text_eq n m && text_eq a b

-- The map `last`, from keys to instants.
abbrev pub Last : Type 0
Last = Key → Option ℕ

abbrev pub insert : Last → Key → ℕ → Last
insert last k now j = if key_eq k j then some now else last j

abbrev pub is_due : Option ℕ → ℕ → ℕ → Bool
is_due none now interval = true
is_due (some t) now interval = leb interval (now - t)

-- What a turn of the loop keeps: the map, the live keys, the sleep, and the probes it has spawned.
pub record Sweep : Type 0 where
  pub last : Last
  pub live : List Key
  pub period : ℕ
  pub probes : List (ℕ × HealthConfig)

abbrev pub interval_of : UpstreamGroup → ℕ
interval_of g = max g.health.interval_ms 1

abbrev pub key_of : Heap → UpstreamGroup → ℕ → Key
key_of h g p = (g.name, (h.instance_at p).address)

-- The body of the inner loop.
unfoldable pub visit : Heap → ℕ → UpstreamGroup → ℕ → Sweep → Sweep
visit h now g p s =
    let key = key_of h g p in
    let due = is_due (s.last key) now (interval_of g) in
    record s {
      last = if due then insert s.last key now else s.last;
      probes = if due then s.probes ++ ((p, g.health) ∷ []) else s.probes;
      live = key ∷ s.live;
    }

unfoldable pub visit_all : Heap → ℕ → UpstreamGroup → List ℕ → Sweep → Sweep
visit_all h now g [] s = s
visit_all h now g (p ∷ ps) s = visit_all h now g ps (visit h now g p s)

unfoldable pub visit_groups : Heap → ℕ → List UpstreamGroup → Sweep → Sweep
visit_groups h now [] s = s
visit_groups h now (g ∷ gs) s =
    let shortened = record s { period = min s.period (interval_of g) } in
    visit_groups h now gs (visit_all h now g g.instances shortened)

abbrev pub retain : List Key → Last → Last
retain live last k = if any (key_eq k) live then last k else none

-- A turn of the loop of `serve_health_checks`.
unfoldable pub round : Heap → List UpstreamGroup → ℕ → Last → Sweep
round h groups now last =
    let s =
      visit_groups h now groups (record { last = last; live = []; period = 5000; probes = [] }) in
    record s { last = retain s.live s.last }

abbrev pub sleep_of : Sweep → ℕ
sleep_of s = max s.period 20

-- `rsplit_once(c)`.
unfoldable pub rsplit_once : ℕ → Text → Option (Text × Text)
rsplit_once c [] = none
rsplit_once c (x ∷ s) =
    let rest = rsplit_once c s in
    elim rest [
      | some (left, right) ↦ some (x ∷ left, right)
      | none ↦ if x == c then some ([], s) else none
    ]

-- `decimal` prints a port.
unfoldable pub probe_address : (ℕ → Text) → Text → Option ℕ → Text
probe_address decimal address none = address
probe_address decimal address (some port) = elim (rsplit_once b':' address) [
  | some (host, old) ↦ host ++ (b':' ∷ decimal port)
  | none ↦ address
]

unfoldable pub probe_once :
    (ℕ → Text) → (Text → ℕ → Option ℕ) → HealthConfig → UpstreamInstance → UpstreamInstance
probe_once decimal client health i =
    let uri = bytes "http://" ++ (probe_address decimal i.address health.port ++ health.path) in
    elim (client uri (max health.timeout_ms 1)) [
      | some status ↦
          if leb 200 status && ltb status 300
          then record_probe_success i
          else record_probe_failure i
      | none ↦ record_probe_failure i
    ]
