-- ===== src/Pool.antt =====
-- host/src/lib.rs: the pool of trusted WebAssembly instances. Its state is what the code keeps behind
-- one lock, and each function is one section under that lock, or the part of `checkout` and
-- `run_pooled` between two of them. `I` is the runtime's instance.
pub mod System
pub mod Invariant
pub mod Breaker
pub mod Recovery
pub mod Examples
use plecto.Prelude.{
  ℕ, zero, suc, ◌+◌, ◌-◌, Bool, true, false, List, [], ◌∷◌, if◌then◌else◌, leb, ltb, saturating_add,
  u32_max, u64_max,
}

-- TRUSTED_TRAP_BREAKER_THRESHOLD and TRUSTED_TRAP_COOLDOWN_MS.
abbrev pub trap_breaker_threshold : ℕ
trap_breaker_threshold = 3

abbrev pub trap_cooldown_ms : ℕ
trap_cooldown_ms = 500

pub record PooledInstance (I : Type 0) : Type 0 where
  pub instance_ : I
  pub served : ℕ

-- `idle` is a stack: the head is its top.
pub record PoolInner (I : Type 0) : Type 0 where
  pub idle : List (PooledInstance I)
  pub live : ℕ
  pub consecutive_traps : ℕ
  pub cooldown_until_ms : ℕ

-- What a pool is built with.
pub record Limits : Type 0 where
  pub cap : ℕ
  pub max_requests_per_instance : ℕ

-- What `checkout` decides under the lock: the two failures are `unavailable` and, once the wait has
-- timed out, `wait` too.
pub data Decision (I : Type 0) : Type 0 where
  use_ : PooledInstance I → Decision I
  build : Decision I
  wait : Decision I
  unavailable : Decision I

module _ {I : Type 0} where
  abbrev pub new_pool : I → PoolInner I
  new_pool first = record {
    idle = record { instance_ = first; served = 0 } ∷ [];
    live = 1;
    consecutive_traps = 0;
    cooldown_until_ms = 0;
  }

  abbrev pub clear_breaker : PoolInner I → PoolInner I
  clear_breaker g = record g { consecutive_traps = 0; cooldown_until_ms = 0 }

  -- The section of `checkout` that has found no cooldown.
  abbrev pub pop_or_reserve : ℕ → PoolInner I → List (PooledInstance I) → Decision I × PoolInner I
  pop_or_reserve cap g (p ∷ rest) = (use_ p, record g { idle = rest })
  pop_or_reserve cap g [] =
      if ltb g.live cap then (build, record g { live = g.live + 1 }) else (wait, g)

  unfoldable pub checkout_locked : Limits → ℕ → PoolInner I → Decision I × PoolInner I
  checkout_locked l now g =
      if ltb now g.cooldown_until_ms then (unavailable, g) else pop_or_reserve l.cap g g.idle

  -- A slot is given back: after a build that failed, a recycled or a trapped instance.
  abbrev pub release_slot : PoolInner I → PoolInner I
  release_slot g = record g { live = g.live - 1 }

  abbrev pub served_once : PooledInstance I → PooledInstance I
  served_once p = record p { served = saturating_add u64_max p.served 1 }

  -- Whether an instance has served as many requests as one may.
  abbrev pub spent : Limits → PooledInstance I → Bool
  spent l p = leb l.max_requests_per_instance p.served

  unfoldable pub return_idle : PooledInstance I → PoolInner I → PoolInner I
  return_idle p g = record (clear_breaker g) { idle = p ∷ g.idle }

  unfoldable pub recycle : PoolInner I → PoolInner I
  recycle g = release_slot (clear_breaker g)

  -- The section after a trap, with the clock that it reads when it opens the cooldown.
  unfoldable pub note_trap : ℕ → PoolInner I → PoolInner I
  note_trap now g =
      let traps = saturating_add u32_max g.consecutive_traps 1 in
      record g {
        live = g.live - 1;
        consecutive_traps = traps;
        cooldown_until_ms =
            if leb trap_breaker_threshold traps
            then saturating_add u64_max now trap_cooldown_ms
            else g.cooldown_until_ms;
      }
