-- ===== src/Upstream/Lb.antt =====
-- control/src/upstream/lb.rs: which instance of a group serves a request.
--
-- A pick reads the clock, when the outlier policy is on, and least-request draws two ordinals by
-- `rng::two_distinct_below`: both enter as arguments. The second pass of round-robin takes what it
-- sees of the instances as an argument of its own, since health may change between the passes.
pub mod Examples
pub mod Scan
pub mod Serves
pub mod Eligible
pub mod Rotation
pub mod Load
pub mod InFlight
pub mod Retry
use plecto.Prelude.{
  ℕ, zero, suc, ◌+◌, ◌*◌, ◌%◌, ◌≡◌, Bool, true, false, ◌&&◌, ◌||◌, not, List, [], ◌∷◌, Option, none,
  some, length, get_elem?, filter, any, find, update, if◌then◌else◌, leb, ltb, ◌==◌, u64_mod, Text,
}
use plecto.Maglev
use plecto.Maglev.{MaglevTable}
use plecto.Hash.{hash64}
use plecto.Net.{IpAddr, octets}
use plecto.Upstream.{
  UpstreamInstance, UpstreamGroup, Heap, LbState, round_robin, least_request, maglev,
}
use plecto.Upstream.Instance.{is_outlier_ejected}
use plecto.Upstream.Breaker.{increment, decrement}
use plecto.Upstream.Outlier.{outlier_enabled, set_instance}

pub data HashInput : Type 0 where
  bytes : Text → HashInput
  ip : IpAddr → HashInput

pub hash : HashInput → ℕ
hash (bytes b) = hash64 b
hash (ip a) = hash64 (octets a)

-- `load` is the guard: the instance whose count goes down when the pick is dropped.
pub record Pick : Type 0 where
  pub instance_ptr : ℕ
  pub load : Option ℕ

unfoldable pub drop_pick : Heap → Pick → Heap
drop_pick h p = elim p.load [
  | none ↦ h
  | some q ↦
      let i = h.instance_at q in set_instance h q (record i { in_flight = decrement i.in_flight })
]

-- `(in_flight + 1) / weight` compared by the cross product, which a u128 holds.
unfoldable pub lower_load : UpstreamInstance → UpstreamInstance → Bool
lower_load a b = leb ((a.in_flight + 1) * b.weight) ((b.in_flight + 1) * a.weight)

unfoldable pub eligibility_ctx : UpstreamGroup → ℕ → Bool × ℕ
eligibility_ctx g clock = (outlier_enabled g, if outlier_enabled g then clock else 0)

abbrev not_excluded : ℕ → Option ℕ → Bool
not_excluded p none = true
not_excluded p (some ex) = not (p == ex)

unfoldable pub is_eligible : Heap → Option ℕ → Bool × ℕ → ℕ → Bool
is_eligible h exclude (check_outlier, now_ms) p =
    (h.instance_at p).healthy
    && (not check_outlier || not (is_outlier_ejected (h.instance_at p) now_ms))
    && not_excluded p exclude

abbrev pub unmetered_pick : ℕ → Pick
unmetered_pick p = record { instance_ptr = p; load = none }

unfoldable pub metered_pick : Heap → ℕ → Pick × Heap
metered_pick h p =
    let i = h.instance_at p in
    (
      record { instance_ptr = p; load = some p },
      set_instance h p (record i { in_flight = increment i.in_flight }),
    )

-- The second pass of `round_robin_pick`: the `target`-th eligible instance, or the last one seen.
unfoldable pub rr_scan : (ℕ → Bool) → ℕ → ℕ → Option ℕ → List ℕ → Option ℕ
rr_scan eligible target seen last [] = last
rr_scan eligible target seen last (p ∷ ps) = elim (eligible p) [
  | true ↦ elim (seen == target) [
    | true ↦ some p
    | false ↦ rr_scan eligible target (seen + 1) (some p) ps
  ]
  | false ↦ rr_scan eligible target seen last ps
]

abbrev set_rr : Heap → ℕ → ℕ → Heap
set_rr h g n = record h { group_at = update h.group_at g (record (h.group_at g) { rr = n }) }

abbrev to_pick : Option ℕ → Option Pick
to_pick none = none
to_pick (some p) = some (unmetered_pick p)

-- The group `g` of the heap, with `later` what the second pass sees.
round_robin_pick : Heap → (ℕ → Bool) → ℕ → Option ℕ → ℕ → Option Pick × Heap
round_robin_pick h later g exclude clock =
    let group = h.group_at g in
    let ctx = eligibility_ctx group clock in
    let eligible = length (filter (is_eligible h exclude ctx) group.instances) in
    if eligible == 0 then (none, h) else (
      to_pick (rr_scan later (group.rr % eligible) 0 none group.instances),
      set_rr h g (increment group.rr),
    )

-- The pass that captures the lo-th and the hi-th eligible instance.
unfoldable pub capture : (ℕ → Bool) → ℕ → ℕ → ℕ → Option ℕ → Option ℕ → List ℕ → Option ℕ × Option ℕ
capture eligible lo hi seen cand_lo cand_hi [] = (cand_lo, cand_hi)
capture eligible lo hi seen cand_lo cand_hi (p ∷ ps) = elim (eligible p) [
  | true ↦
      capture eligible lo hi (seen + 1) (if seen == lo then some p else cand_lo)
        (if seen == hi then some p else cand_hi) ps
  | false ↦ capture eligible lo hi seen cand_lo cand_hi ps
]

meter : Heap → Option ℕ → Option Pick × Heap
unfolding metered_pick
meter h none = (none, h)
meter h (some p) = let (pick, h') = metered_pick h p in (some pick, h')

-- `let (x, y) = (cand_lo?, cand_hi?)`, then the lower load.
choose : Heap → Option ℕ → Option ℕ → Option ℕ
choose h (some x) (some y) =
    if lower_load (h.instance_at x) (h.instance_at y) then some x else some y
choose h none y = none
choose h (some x) none = none

-- `draw` is what `two_distinct_below` returns at the number of the eligible.
least_request_pick : Heap → (ℕ → ℕ × ℕ) → ℕ → Option ℕ → ℕ → Option Pick × Heap
unfolding meter choose
least_request_pick h draw g exclude clock =
    let group = h.group_at g in
    let eligible = is_eligible h exclude (eligibility_ctx group clock) in
    let n = length (filter eligible group.instances) in
    let (a, b) = draw n in
    let lo = if leb a b then a else b in
    let hi = if leb a b then b else a in
    let (x, y) = capture eligible lo hi 0 none none group.instances in
    if n == 0
    then (none, h)
    else if n == 1
    then meter h (find eligible group.instances)
    else meter h (choose h x y)

-- The instance that the table holds for the key, if there is one.
affinity : MaglevTable → List ℕ → Option HashInput → Option ℕ
affinity t instances none = none
affinity t instances (some k) = elim (Maglev.lookup t (hash k)) [
  | none ↦ none
  | some idx ↦ get_elem? instances idx
]

if_eligible : (ℕ → Bool) → Option ℕ → Option ℕ
if_eligible eligible none = none
if_eligible eligible (some p) = if eligible p then some p else none

maglev_pick :
    Heap → (ℕ → Bool) → ℕ → MaglevTable → Option ℕ → Option HashInput → ℕ → Option Pick × Heap
unfolding affinity if_eligible round_robin_pick
maglev_pick h later g t exclude key clock =
    let group = h.group_at g in
    let eligible = is_eligible h exclude (eligibility_ctx group clock) in
    elim (if_eligible eligible (affinity t group.instances key)) [
      | some p ↦ (some (unmetered_pick p), h)
      | none ↦ round_robin_pick h later g exclude clock
    ]

-- What the environment gives to one pick.
pub record Env : Type 0 where
  pub clock : ℕ
  pub later : ℕ → Bool
  pub draw : ℕ → ℕ × ℕ

pub pick_dispatch : Heap → Env → ℕ → Option ℕ → Option HashInput → Option Pick × Heap
unfolding round_robin_pick least_request_pick maglev_pick
pick_dispatch h e g exclude key = elim (h.group_at g).lb [
  | round_robin ↦ round_robin_pick h e.later g exclude e.clock
  | least_request ↦ least_request_pick h e.draw g exclude e.clock
  | maglev t ↦ maglev_pick h e.later g t exclude key e.clock
]

unfoldable pub pick : Heap → Env → ℕ → Option HashInput → Option Pick × Heap
unfolding pick_dispatch
pick h e g key = pick_dispatch h e g none key

pub pick_excluding : Heap → Env → ℕ → ℕ → Option HashInput → Option Pick × Heap
unfolding pick_dispatch
pick_excluding h e g exclude key = pick_dispatch h e g (some exclude) key

-- The pick that `pick_excluding` hands out for a retry on instance `j`: least-request counts its load, the
-- other algorithms count none.
unfoldable pub retry_pick : Heap → ℕ → ℕ → Pick × Heap
retry_pick h g j = elim (h.group_at g).lb [
  | least_request ↦ metered_pick h j
  | round_robin ↦ (unmetered_pick j, h)
  | maglev table ↦ (unmetered_pick j, h)
]

unfoldable pub has_eligible : Heap → UpstreamGroup → ℕ → Bool
has_eligible h g clock =
    let (check_outlier, now_ms) = eligibility_ctx g clock in
    any
      (λ p.
        (h.instance_at p).healthy
        && (not check_outlier || not (is_outlier_ejected (h.instance_at p) now_ms)))
      g.instances
