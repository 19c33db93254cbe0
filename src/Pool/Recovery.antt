-- ===== src/Pool/Recovery.antt =====
-- What a request gets of a pool that nobody else uses.
use plecto.Prelude.{
  sym, ltb, lt→ltb, ge→ltb, ℕ, zero, suc, ◌+◌, ◌≤◌, ◌<◌, ◌≡◌, ◌∙◌, refl, ap, true, some, List, [],
  ◌∷◌, arith, length, total, Bool-cases, inl, inr,
}
use plecto.Pool.{
  PooledInstance, PoolInner, Limits, checkout_locked, pop_or_reserve, served_once, spent,
  return_idle, recycle,
}
use plecto.Pool.System.{
  Phase, requesting, finished, waiting, building, holding, recycling, trapped, Outcome, ok, World,
  System, Reach, access, after_checkout, check_in,
}
use plecto.Pool.Invariant.{IsValidInner, start, start-IsValid, Reach-IsValid, reserved}

module _ {I : Type 0} where
  -- One request with nobody else, until it has finished.
  turn : Limits → World I → PoolInner I × Phase I → PoolInner I × Phase I
  turn l w (g, finished o) = (g, finished o)
  turn l w (g, requesting) = access l w g requesting
  turn l w (g, waiting) = access l w g waiting
  turn l w (g, building) = access l w g building
  turn l w (g, holding p) = access l w g (holding p)
  turn l w (g, recycling) = access l w g recycling
  turn l w (g, trapped) = access l w g trapped

  unfoldable pub drive : Limits → World I → ℕ → PoolInner I × Phase I → PoolInner I × Phase I
  unfolding turn
  drive l w zero s = s
  drive l w (suc n) s = drive l w n (turn l w s)

  turn-requesting :
      (l : Limits) (w : World I) (g : PoolInner I)
      → g.cooldown_until_ms ≤ w.now
      → turn l w (g, requesting) ≡ after_checkout (pop_or_reserve l.cap g g.idle)
  unfolding turn access checkout_locked
  turn-requesting l w g warm = rw (ge→ltb w.now g.cooldown_until_ms warm) refl

  turn-building :
      (l : Limits) (w : World I) (g : PoolInner I) (i : I)
      → w.built ≡ some i
      → turn l w (g, building) ≡ (g, holding (record { instance_ = i; served = 0 }))
  unfolding turn access
  turn-building l w g i b = rw b refl

  turn-holding :
      (l : Limits) (w : World I) (g : PoolInner I) (p : PooledInstance I)
      → w.returned ≡ true
      → turn l w (g, holding p) ≡ check_in l (served_once p) g
  unfolding turn access
  turn-holding l w g p r = rw r refl

  drive-finished :
      (l : Limits) (w : World I) (n : ℕ) (g : PoolInner I) (o : Outcome)
      → (drive l w n (g, finished o)).1 ≡ finished o
  unfolding drive turn
  drive-finished l w zero g o = refl
  drive-finished l w (suc n) g o = drive-finished l w n g o

  -- Once the call of a request has returned, one more step finishes it.
  drive-check_in :
      (l : Limits) (w : World I) (n : ℕ) (g : PoolInner I) (p : PooledInstance I)
      → (drive l w (suc n) (check_in l p g)).1 ≡ finished ok
  unfolding drive turn access
  drive-check_in l w n g p = elim (Bool-cases (spent l p)) [
    | inl e ↦ rw e (drive-finished l w n (recycle g) ok)
    | inr e ↦ rw e (drive-finished l w n (return_idle p g) ok)
  ]

  drive-holding :
      (l : Limits) (w : World I) (n : ℕ) (g : PoolInner I) (p : PooledInstance I)
      → w.returned ≡ true
      → (drive l w (suc (suc n)) (g, holding p)).1 ≡ finished ok
  unfolding drive
  drive-holding l w n g p r =
      ap (λ s. (drive l w (suc n) s).1) (turn-holding l w g p r)
      ∙ drive-check_in l w n g (served_once p)

  free_pool_serves :
      (l : Limits) (w : World I) (i : I) (g : PoolInner I)
      → 0 < l.cap
      → IsValidInner l 0 g
      → g.cooldown_until_ms ≤ w.now
      → w.built ≡ some i
      → w.returned ≡ true
      → (drive l w 5 (g, requesting)).1 ≡ finished ok
  unfolding drive
  free_pool_serves l w i g room v warm b r =
      ap (λ s. (drive l w 4 s).1) (turn-requesting l w g warm) ∙ served g.idle refl
    where
      served :
          (idle : List (PooledInstance I))
          → g.idle ≡ idle
          → (drive l w 4 (after_checkout (pop_or_reserve l.cap g idle))).1 ≡ finished ok
      served (p ∷ rest) e = drive-holding l w 2 _ p r
      served [] e =
          let empty : length g.idle ≡ 0 = ap length e in
          let free : ltb g.live l.cap ≡ true = lt→ltb g.live l.cap (omega (arith, v.exact)) in
          let first : PooledInstance I = record { instance_ = i; served = 0 } in
          rw free (
            ap (λ s. (drive l w 3 s).1) (turn-building l w (record g { live = g.live + 1 }) i b)
            ∙ drive-holding l w 1 (record g { live = g.live + 1 }) first r)

  -- Whatever the interleaving of requests on a new pool before it, builds that failed and calls that trapped
  -- included: once every slot has been given back and the clock is past the cooldown, a request that runs
  -- alone neither waits nor fails, and finishes within five steps, when the runtime can build an instance
  -- and the guest returns.
  pub pool_recovers :
      (l : Limits) (w : World I) (first i : I) (n : ℕ) (s : System I)
      → 0 < l.cap
      → 0 < l.max_requests_per_instance
      → Reach l (start first n) s
      → total reserved s.callers ≡ 0
      → s.inner.cooldown_until_ms ≤ w.now
      → w.built ≡ some i
      → w.returned ≡ true
      → (drive l w 5 (s.inner, requesting)).1 ≡ finished ok
  pool_recovers l w first i n s room pos r back warm b ret =
      let v = Reach-IsValid l (start first n) s pos (start-IsValid l first n room pos) r in
      free_pool_serves l w i s.inner room (rw (sym back) v.pool) warm b ret
