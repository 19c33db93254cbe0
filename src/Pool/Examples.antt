-- ===== src/Pool/Examples.antt =====
-- The pool of two instances, each for two requests, at concrete histories. An instance is its number.
use plecto.Prelude.{ℕ, ◌+◌, ◌≤◌, ◌≡◌, refl, true, false, none, some, List, [], ◌∷◌, arith, All}
use plecto.Pool.{
  PoolInner, Limits, unavailable, checkout_locked, note_trap, return_idle, recycle, new_pool,
}
use plecto.Pool.System.{
  System, World, Reach, here, next, move, access, holding, requesting, finished, trapped, ok,
  failed_unavailable, failed_call,
}
use plecto.Pool.Invariant.{start, Fresh, FreshPhase, instances-capped}
use plecto.Pool.Breaker.{Section, trap, checkout, returned, sections, section, breaker_opens}
use plecto.Pool.Recovery.{drive, pool_recovers}

abbrev limits : Limits
limits = record { cap = 2; max_requests_per_instance = 2 }

abbrev seed : PoolInner ℕ
seed = new_pool 5

abbrev two_traps : List (Section ℕ)
two_traps = checkout 9 ∷ trap 10 ∷ checkout 11 ∷ trap 20 ∷ []

abbrev interrupted : List (Section ℕ)
interrupted =
    trap 1 ∷ trap 2 ∷ returned (record { instance_ = 5; served = 1 }) ∷ trap 3 ∷ trap 4 ∷ []

abbrev good : ℕ → World ℕ
good now = record { now = now; timed_out = true; built = some 7; returned = true }

abbrev bad : ℕ → World ℕ
bad now = record { now = now; timed_out = true; built = none; returned = false }

-- The first of three requests checks the first instance out, and its call traps.
abbrev after_checkout_0 : System ℕ
after_checkout_0 = record {
  inner = record { idle = []; live = 1; consecutive_traps = 0; cooldown_until_ms = 0 };
  callers = holding (record { instance_ = 5; served = 0 }) ∷ requesting ∷ requesting ∷ [];
}

abbrev after_trap_0 : System ℕ
after_trap_0 = record {
  inner = record { idle = []; live = 1; consecutive_traps = 0; cooldown_until_ms = 0 };
  callers = trapped ∷ requesting ∷ requesting ∷ [];
}

abbrev after_note_0 : System ℕ
after_note_0 = record {
  inner = record { idle = []; live = 0; consecutive_traps = 1; cooldown_until_ms = 0 };
  callers = finished failed_call ∷ requesting ∷ requesting ∷ [];
}

history : Reach limits (start 5 3) after_note_0
unfolding start access checkout_locked note_trap
history =
    next {t = after_trap_0}
      (next {t = after_checkout_0} (next {t = start 5 3} here (move 0 (bad 9) requesting refl refl))
        (move 0 (bad 9) (holding (record { instance_ = 5; served = 0 })) refl refl))
      (move 0 (bad 9) trapped refl refl)

instances-capped_example :
    (0 + 0 ≤ 2)
    × ((after_note_0.inner.live ≡ 0)
        × (All (Fresh limits) after_note_0.inner.idle
            × All (FreshPhase limits) after_note_0.callers))
instances-capped_example =
    instances-capped limits 5 3 after_note_0 (omega arith) (omega arith) history

pool_recovers_example : (drive limits (good 9) 5 (after_note_0.inner, requesting)).1 ≡ finished ok
pool_recovers_example =
    pool_recovers limits (good 9) 5 7 3 after_note_0 (omega arith) (omega arith) history refl
      (omega arith) refl refl

breaker_opens_example :
    let tripped =
      sections limits
        (note_trap 30 (sections limits seed two_traps))
        (checkout 40 ∷ trap 50 ∷ []) in
    checkout_locked limits 529 tripped ≡ (unavailable, tripped)
breaker_opens_example =
    breaker_opens limits seed two_traps 30 (checkout 40 ∷ trap 50 ∷ []) 529 tt (omega arith)
      (omega arith) tt (omega arith, tt) (omega arith)

-- A call that returns within the cooldown closes the breaker: the next checkout is served.
closed_by_return :
    (sections limits
      (note_trap 30 (sections limits seed two_traps))
      (returned (record { instance_ = 9; served = 1 }) ∷ [])).cooldown_until_ms
    ≡ 0
unfolding sections section note_trap return_idle
closed_by_return = refl

-- With both instances checked out a third request waits, and is refused when the wait times out.
saturated :
    (drive limits (good 9) 2 (record seed { idle = []; live = 2 }, requesting)).1
    ≡ finished failed_unavailable
unfolding drive access checkout_locked
saturated = refl

-- Two traps and a call that returns, then two more traps, leave the pool open.
forgiven : (sections limits seed interrupted).cooldown_until_ms ≡ 0
unfolding sections section note_trap return_idle
forgiven = refl

-- The second request of an instance is its last: the instance is recycled, so the slot is given back and the next request
-- builds a new one.
recycled_slot :
    (drive limits
      (good 9)
      5
      (record seed { idle = record { instance_ = 5; served = 1 } ∷ [] }, requesting)).0.live
    ≡ 0
unfolding drive access checkout_locked recycle
recycled_slot = refl
