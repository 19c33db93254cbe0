-- ===== src/Upstream/Breaker/Interleaving.antt =====
-- `try_acquire` and the drop of a permit by any number of callers at once. Each atomic access is one
-- step: a caller between requests does the `fetch_add`, one over the cap does the `fetch_sub` that
-- backs it out, and one that holds a permit drops it. A schedule names the caller of each step.
use plecto.Prelude.{
  sym, ℕ, zero, suc, ◌≤◌, ◌<◌, ◌≡◌, refl, ap, List, [], ◌∷◌, none, some, arith, length, set, total,
  total-set, length-set, get_elem?, if◌then◌else◌, Option-cases, inl, inr, u64_mod,
}
use plecto.Upstream.Breaker.{increment, decrement, over_cap}

pub data Phase : Type 0 where
  idle backing_out holding : Phase

pub record Shared : Type 0 where
  pub in_flight : ℕ
  pub callers : List Phase

-- The next atomic access of a caller in a phase: the counter after it, and the caller's phase.
access : ℕ → ℕ → Phase → ℕ × Phase
access max_requests n idle = (increment n, if over_cap max_requests n then backing_out else holding)
access max_requests n backing_out = (decrement n, idle)
access max_requests n holding = (decrement n, idle)

unfoldable pub step : ℕ → Shared → ℕ → Shared
unfolding access
step max_requests s i = elim (get_elem? s.callers i) [
  | none ↦ s
  | some p ↦
      let (n, p') = access max_requests s.in_flight p in
      record { in_flight = n; callers = set s.callers i p' }
]

unfoldable pub run : ℕ → Shared → List ℕ → Shared
run max_requests s [] = s
run max_requests s (i ∷ is) = run max_requests (step max_requests s i) is

abbrev pub busy : Phase → ℕ
busy idle = 0
busy backing_out = 1
busy holding = 1

abbrev held : Phase → ℕ
held idle = 0
held backing_out = 0
held holding = 1

-- The permits held at one moment.
abbrev pub permits : Shared → ℕ
permits s = total held s.callers

busy-le-length : (ps : List Phase) → total busy ps ≤ length ps
busy-le-length [] = omega arith
busy-le-length (idle ∷ ps) = omega (arith, busy-le-length ps)
busy-le-length (backing_out ∷ ps) = omega (arith, busy-le-length ps)
busy-le-length (holding ∷ ps) = omega (arith, busy-le-length ps)

held-le-busy : (ps : List Phase) → total held ps ≤ total busy ps
held-le-busy [] = omega arith
held-le-busy (idle ∷ ps) = omega (arith, held-le-busy ps)
held-le-busy (backing_out ∷ ps) = omega (arith, held-le-busy ps)
held-le-busy (holding ∷ ps) = omega (arith, held-le-busy ps)

-- The counter is exact, and the cap holds. A usize counts fewer than 2^64 callers.
pub record IsValid (max_requests : ℕ) (s : Shared) : Type 0 where
  pub few : length s.callers < u64_mod
  pub exact : s.in_flight ≡ total busy s.callers
  pub capped : permits s ≤ max_requests

-- One access, with the caller's phase before it and after it.
access-IsValid :
    (max_requests : ℕ) (s : Shared) (i : ℕ) (p q : Phase)
    → get_elem? s.callers i ≡ some p
    → (access max_requests s.in_flight p).1 ≡ q
    → IsValid max_requests s
    → IsValid max_requests
        (record { in_flight = (access max_requests s.in_flight p).0; callers = set s.callers i q })
unfolding access
access-IsValid m s i p q e f v = record {
  few = rw (length-set s.callers i q) v.few;
  exact = counted p q e f;
  capped = ceiling p q e f;
}
  where
    counted :
        (p q : Phase)
        → get_elem? s.callers i ≡ some p
        → (access m s.in_flight p).1 ≡ q
        → (access m s.in_flight p).0 ≡ total busy (set s.callers i q)
    counted idle q e f = ground (
      arith,
      v,
      total-set busy s.callers i idle q e,
      busy-le-length s.callers,
      busy-le-length (set s.callers i q),
      length-set s.callers i q,
    )
    counted backing_out q e f =
        ground (arith, v, total-set busy s.callers i backing_out q e, busy-le-length s.callers)
    counted holding q e f =
        ground (arith, v, total-set busy s.callers i holding q e, busy-le-length s.callers)

    ceiling :
        (p q : Phase)
        → get_elem? s.callers i ≡ some p
        → (access m s.in_flight p).1 ≡ q
        → total held (set s.callers i q) ≤ m
    ceiling idle q e f =
        ground (arith, v, total-set held s.callers i idle q e, held-le-busy s.callers)
    ceiling backing_out q e f = ground (arith, v, total-set held s.callers i backing_out q e)
    ceiling holding q e f = ground (arith, v, total-set held s.callers i holding q e)

step-IsValid :
    (max_requests : ℕ) (s : Shared) (i : ℕ)
    → IsValid max_requests s
    → IsValid max_requests (step max_requests s i)
unfolding step
step-IsValid m s i v = elim (Option-cases (get_elem? s.callers i)) [
  | inl e ↦ rw (e, step) v
  | inr (p, e) ↦ rw (e, step) (access-IsValid m s i p (access m s.in_flight p).1 e refl v)
]

-- Whatever the schedule, no more than `max_requests` permits are held at once, and the counter is the
-- number of callers that are past their `fetch_add` and not yet past their `fetch_sub`.
pub run-IsValid :
    (max_requests : ℕ) (s : Shared) (schedule : List ℕ)
    → IsValid max_requests s
    → IsValid max_requests (run max_requests s schedule)
unfolding run
run-IsValid m s [] v = v
run-IsValid m s (i ∷ is) v = run-IsValid m (step m s i) is (step-IsValid m s i v)

idle_callers : ℕ → List Phase
idle_callers zero = []
idle_callers (suc n) = idle ∷ idle_callers n

idle_callers-total : (n : ℕ) (f : Phase → ℕ) → f idle ≡ 0 → total f (idle_callers n) ≡ 0
unfolding idle_callers
idle_callers-total zero f z = refl
idle_callers-total (suc n) f z = omega (arith, idle_callers-total n f z)

length-idle_callers : (n : ℕ) → length (idle_callers n) ≡ n
unfolding idle_callers
length-idle_callers zero = refl
length-idle_callers (suc n) = ap suc (length-idle_callers n)

-- A freshly built group and `n` callers, fewer than 2^64.
unfoldable pub start : ℕ → Shared
unfolding idle_callers
start n = record { in_flight = 0; callers = idle_callers n }

pub start-IsValid : (max_requests n : ℕ) → n < u64_mod → IsValid max_requests (start n)
unfolding start
start-IsValid m n h = record {
  few = rw (length-idle_callers n) h;
  exact = sym (idle_callers-total n busy refl);
  capped = omega (arith, idle_callers-total n held refl);
}

-- Whatever the schedule of any number of callers, fewer than 2^64, on a fresh group with a cap: no more than
-- `max_requests` permits are ever held at once, and the counter is the number of callers that are
-- within an acquire or hold a permit.
pub permits-capped :
    (max_requests n : ℕ) (schedule : List ℕ)
    → 0 < max_requests
    → n < u64_mod
    → let s = run max_requests (start n) schedule in
      (permits s ≤ max_requests) × (s.in_flight ≡ total busy s.callers)
permits-capped m n schedule capped h =
    let v = run-IsValid m (start n) schedule (start-IsValid m n h) in (v.capped, v.exact)
