-- ===== src/Upstream/Breaker.antt =====
-- control/src/upstream/circuit_breaker.rs: the cap on the requests in flight to one upstream.
pub mod Interleaving
use plecto.Prelude.{
  ℕ, ◌+◌, ◌-◌, ◌%◌, Bool, true, false, Option, none, some, update, u64_mod, if◌then◌else◌, leb,
  ◌==◌,
}
use plecto.Upstream.{UpstreamGroup, Heap}

-- `fetch_add(1)` and `fetch_sub(1)` on an `AtomicUsize`, which wrap.
abbrev pub increment : ℕ → ℕ
increment n = (n + 1) % u64_mod

abbrev pub decrement : ℕ → ℕ
decrement n = (n + u64_mod - 1) % u64_mod

pub record RequestPermit : Type 0 where
  pub group : Option ℕ

abbrev pub set_in_flight : Heap → ℕ → ℕ → Heap
set_in_flight h g n = record h {
  group_at = update h.group_at g (record (h.group_at g) { in_flight = n });
}

-- Whether the prior value that `fetch_add` returned means that the cap was full.
abbrev pub over_cap : ℕ → ℕ → Bool
over_cap max_requests prev = leb max_requests prev

-- `try_acquire` of one caller with nobody in between; `Interleaving` has the callers at once.
unfoldable pub try_acquire : Heap → ℕ → Option RequestPermit × Heap
try_acquire h g =
    let group = h.group_at g in
    let prev = group.in_flight in
    let taken = set_in_flight h g (increment prev) in
    if group.max_requests == 0
    then (some (record { group = none }), h)
    else if over_cap group.max_requests prev
    then (none, set_in_flight taken g (decrement (taken.group_at g).in_flight))
    else (some (record { group = some g }), taken)

unfoldable pub drop_permit : Heap → RequestPermit → Heap
drop_permit h p = elim p.group [
  | none ↦ h
  | some g ↦ set_in_flight h g (decrement (h.group_at g).in_flight)
]
