-- ===== src/Pool/Breaker.antt =====
-- The breaker of the pool.
use plecto.Prelude.{
  leb, ltb, lt→ltb, ℕ, suc, ◌+◌, ◌≤◌, ◌<◌, ◌≡◌, ◌∙◌, refl, true, false, List, [], ◌∷◌, arith,
  Bool-cases, inl, inr, u32_max, saturating_add, u64_max, min,
}
use plecto.Pool.{
  PooledInstance, PoolInner, Limits, unavailable, checkout_locked, pop_or_reserve, release_slot,
  return_idle, recycle, note_trap, trap_cooldown_ms, trap_breaker_threshold,
}

-- What happens to a pool under its lock, by any callers.
pub data Section (I : Type 0) : Type 0 where
  checkout : ℕ → Section I
  build_failed : Section I
  returned : PooledInstance I → Section I
  recycled : Section I
  trap : ℕ → Section I

module _ {I : Type 0} where
  unfoldable pub section : Limits → PoolInner I → Section I → PoolInner I
  section l g (checkout now) = (checkout_locked l now g).1
  section l g build_failed = release_slot g
  section l g (returned p) = return_idle p g
  section l g recycled = recycle g
  section l g (trap now) = note_trap now g

  unfoldable pub sections : Limits → PoolInner I → List (Section I) → PoolInner I
  sections l g [] = g
  sections l g (x ∷ xs) = sections l (section l g x) xs

  -- A history in which no call returned, and how many trapped.
  abbrev pub NoReturn : List (Section I) → Type 0
  NoReturn [] = Unit
  NoReturn (checkout now ∷ xs) = NoReturn xs
  NoReturn (build_failed ∷ xs) = NoReturn xs
  NoReturn (returned p ∷ xs) = ⊥
  NoReturn (recycled ∷ xs) = ⊥
  NoReturn (trap now ∷ xs) = NoReturn xs

  abbrev pub traps : List (Section I) → ℕ
  traps [] = 0
  traps (checkout now ∷ xs) = traps xs
  traps (build_failed ∷ xs) = traps xs
  traps (returned p ∷ xs) = traps xs
  traps (recycled ∷ xs) = traps xs
  traps (trap now ∷ xs) = suc (traps xs)

  -- A checkout leaves the breaker as it is.
  checkout_locked-breaker :
      (l : Limits) (now : ℕ) (g : PoolInner I)
      → ((checkout_locked l now g).1.consecutive_traps ≡ g.consecutive_traps)
        × ((checkout_locked l now g).1.cooldown_until_ms ≡ g.cooldown_until_ms)
  unfolding checkout_locked
  checkout_locked-breaker l now g = elim (Bool-cases (ltb now g.cooldown_until_ms)) [
    | inl e ↦ rw e (refl, refl)
    | inr e ↦ rw e (popped g.idle)
  ]
    where
      popped :
          (idle : List (PooledInstance I))
          → ((pop_or_reserve l.cap g idle).1.consecutive_traps ≡ g.consecutive_traps)
            × ((pop_or_reserve l.cap g idle).1.cooldown_until_ms ≡ g.cooldown_until_ms)
      popped (p ∷ rest) = (refl, refl)
      popped [] = elim (Bool-cases (ltb g.live l.cap)) [
        | inl e ↦ rw e (refl, refl)
        | inr e ↦ rw e (refl, refl)
      ]

  consecutive_traps-sections :
      (l : Limits) (g : PoolInner I) (xs : List (Section I))
      → NoReturn xs
      → g.consecutive_traps ≤ u32_max
      → (sections l g xs).consecutive_traps ≡ min (g.consecutive_traps + traps xs) u32_max
  unfolding sections section note_trap
  consecutive_traps-sections l g [] q w = omega arith
  consecutive_traps-sections l g (checkout now ∷ xs) q w =
      let same = (checkout_locked-breaker l now g).0 in
      omega (
        arith,
        same,
        consecutive_traps-sections l (checkout_locked l now g).1 xs q (omega (arith, same)),
      )
  consecutive_traps-sections l g (build_failed ∷ xs) q w =
      consecutive_traps-sections l (release_slot g) xs q w
  consecutive_traps-sections l g (returned p ∷ xs) q w = absurd q
  consecutive_traps-sections l g (recycled ∷ xs) q w = absurd q
  consecutive_traps-sections l g (trap now ∷ xs) q w =
      omega (arith, consecutive_traps-sections l (note_trap now g) xs q (omega arith))

  -- Every trap of a history is at a clock of `now` or later.
  abbrev pub Since : ℕ → List (Section I) → Type 0
  Since now [] = Unit
  Since now (checkout t ∷ xs) = Since now xs
  Since now (build_failed ∷ xs) = Since now xs
  Since now (returned p ∷ xs) = Since now xs
  Since now (recycled ∷ xs) = Since now xs
  Since now (trap t ∷ xs) = (now ≤ t) × Since now xs

  note_trap-until :
      (now t : ℕ) (g : PoolInner I)
      → now ≤ t
      → min (now + trap_cooldown_ms) u64_max ≤ g.cooldown_until_ms
      → min (now + trap_cooldown_ms) u64_max ≤ (note_trap t g).cooldown_until_ms
  unfolding note_trap
  note_trap-until now t g le h =
      elim (Bool-cases
        (leb trap_breaker_threshold (saturating_add u32_max g.consecutive_traps 1))) [
          | inl e ↦ rw e (omega (arith, le))
          | inr e ↦ rw e h
        ]

  -- As long as no call returns, nothing shortens a cooldown.
  until-sections :
      (l : Limits) (now : ℕ) (g : PoolInner I) (xs : List (Section I))
      → NoReturn xs
      → Since now xs
      → min (now + trap_cooldown_ms) u64_max ≤ g.cooldown_until_ms
      → min (now + trap_cooldown_ms) u64_max ≤ (sections l g xs).cooldown_until_ms
  unfolding sections section
  until-sections l now g [] q s h = h
  until-sections l now g (checkout t ∷ xs) q s h =
      until-sections l now (checkout_locked l t g).1 xs q s
        (omega (arith, (checkout_locked-breaker l t g).1))
  until-sections l now g (build_failed ∷ xs) q s h = until-sections l now (release_slot g) xs q s h
  until-sections l now g (returned p ∷ xs) q s h = absurd q
  until-sections l now g (recycled ∷ xs) q s h = absurd q
  until-sections l now g (trap t ∷ xs) q s h =
      until-sections l now (note_trap t g) xs q s.1 (note_trap-until now t g s.0 h)

  third_trap :
      (now : ℕ) (g : PoolInner I)
      → 2 ≤ g.consecutive_traps
      → (note_trap now g).cooldown_until_ms ≡ min (now + trap_cooldown_ms) u64_max
  unfolding note_trap
  third_trap now g many =
      let tripped : leb trap_breaker_threshold (saturating_add u32_max g.consecutive_traps 1)
          ≡ true =
        ground arith in
      rw tripped refl

  -- Once three calls have trapped and none has returned since the first of them, every checkout less than
  -- 500 ms after the third is refused and changes nothing, however the checkouts, failed builds and later
  -- traps of other requests come between, on a clock that does not step back, and as long as still no call
  -- returns: a call that does closes the breaker.
  pub breaker_opens :
      (l : Limits) (g : PoolInner I) (xs : List (Section I)) (now : ℕ) (ys : List (Section I))
      (later : ℕ)
      → NoReturn xs
      → g.consecutive_traps ≤ u32_max
      → 2 ≤ traps xs
      → NoReturn ys
      → Since now ys
      → later < min (now + trap_cooldown_ms) u64_max
      → let tripped = sections l (note_trap now (sections l g xs)) ys in
        checkout_locked l later tripped ≡ (unavailable, tripped)
  unfolding checkout_locked
  breaker_opens l g xs now ys later q w many r since soon =
      let count = consecutive_traps-sections l g xs q w in
      let opened = third_trap now (sections l g xs) (omega (arith, count)) in
      let until =
        until-sections l now (note_trap now (sections l g xs)) ys r since (omega (arith, opened)) in
      let refused : ltb later (sections l (note_trap now (sections l g xs)) ys).cooldown_until_ms
          ≡ true =
        lt→ltb later _ (omega (arith, until, soon)) in
      rw refused refl

  note_trap-cooldown :
      (now : ℕ) (g : PoolInner I)
      → g.consecutive_traps ≤ 1
      → (note_trap now g).cooldown_until_ms ≡ g.cooldown_until_ms
  unfolding note_trap
  note_trap-cooldown now g few =
      let closed : leb trap_breaker_threshold (saturating_add u32_max g.consecutive_traps 1)
          ≡ false =
        ground arith in
      rw closed refl

  cooldown-sections :
      (l : Limits) (g : PoolInner I) (xs : List (Section I))
      → NoReturn xs
      → g.consecutive_traps + traps xs ≤ 2
      → (sections l g xs).cooldown_until_ms ≡ g.cooldown_until_ms
  unfolding sections section note_trap
  cooldown-sections l g [] q few = refl
  cooldown-sections l g (checkout now ∷ xs) q few =
      let (same, until) = checkout_locked-breaker l now g in
      omega (
        arith,
        until,
        cooldown-sections l (checkout_locked l now g).1 xs q (omega (arith, few, same)),
      )
  cooldown-sections l g (build_failed ∷ xs) q few = cooldown-sections l (release_slot g) xs q few
  cooldown-sections l g (returned p ∷ xs) q few = absurd q
  cooldown-sections l g (recycled ∷ xs) q few = absurd q
  cooldown-sections l g (trap now ∷ xs) q few =
      cooldown-sections l (note_trap now g) xs q (omega (arith, few))
      ∙ note_trap-cooldown now g (omega (arith, few))
