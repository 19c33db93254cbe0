-- ===== src/Pool/Invariant.antt =====
-- What every interleaving of requests on one pool keeps.
use plecto.Prelude.{
  sym, subst, ltb, ltb→lt, ℕ, zero, suc, ◌+◌, ◌-◌, ◌≤◌, ◌<◌, ◌≡◌, refl, ap, some, List, [], ◌∷◌,
  arith, length, get_elem?, set, replicate, total, total-set, le-total, All, All-set, Bool-cases,
  Option-cases, inl, inr,
}
use plecto.Pool.{
  PooledInstance, PoolInner, Limits, checkout_locked, pop_or_reserve, release_slot, served_once,
  spent, return_idle, recycle, note_trap, new_pool,
}
use plecto.Pool.System.{
  Phase, requesting, finished, waiting, building, holding, recycling, trapped, World, System,
  access, after_checkout, check_in, Step, move, Reach, here, next,
}

module _ {I : Type 0} where
  -- The slots a caller has reserved, and the instances that exist in its hands.
  abbrev pub reserved : Phase I → ℕ
  reserved requesting = 0
  reserved (finished o) = 0
  reserved waiting = 0
  reserved building = 1
  reserved (holding p) = 1
  reserved recycling = 1
  reserved trapped = 1

  abbrev pub instances : Phase I → ℕ
  instances requesting = 0
  instances (finished o) = 0
  instances waiting = 0
  instances building = 1
  instances (holding p) = 1
  instances recycling = 0
  instances trapped = 0

  -- An instance may serve one more request.
  abbrev pub Fresh : Limits → PooledInstance I → Type 0
  Fresh l p = p.served < l.max_requests_per_instance

  abbrev pub FreshPhase : Limits → Phase I → Type 0
  FreshPhase l requesting = Unit
  FreshPhase l (finished o) = Unit
  FreshPhase l waiting = Unit
  FreshPhase l building = Unit
  FreshPhase l (holding p) = Fresh l p
  FreshPhase l recycling = Unit
  FreshPhase l trapped = Unit

  -- The pool's own part, given the slots that its callers have reserved.
  pub record IsValidInner (l : Limits) (out : ℕ) (g : PoolInner I) : Type 0 where
    pub exact : g.live ≡ length g.idle + out
    pub capped : g.live ≤ l.cap
    pub fresh : All (Fresh l) g.idle

  pub record IsValid (l : Limits) (s : System I) : Type 0 where
    pub pool : IsValidInner l (total reserved s.callers) s.inner
    pub held : All (FreshPhase l) s.callers

  -- What one section owes: the slots reserved besides this caller's are `others`.
  abbrev Kept : Limits → ℕ → PoolInner I × Phase I → Type 0
  Kept l others (g, p) = IsValidInner l (others + reserved p) g × FreshPhase l p

  pop_or_reserve-Kept :
      (l : Limits) (others : ℕ) (g : PoolInner I) (idle : List (PooledInstance I))
      → g.idle ≡ idle
      → IsValidInner l (others + 0) g
      → Kept l others (after_checkout (pop_or_reserve l.cap g idle))
  pop_or_reserve-Kept l others g [] e v =
      let empty : length g.idle ≡ 0 = ap length e in
      elim (Bool-cases (ltb g.live l.cap)) [
        | inl room ↦ rw room (
          record {
            exact = omega (arith, v.exact);
            capped = omega (arith, ltb→lt g.live l.cap room);
            fresh = v.fresh;
          },
          tt,
        )
        | inr full ↦ rw full (v, tt)
      ]
  pop_or_reserve-Kept l others g (p ∷ rest) e v =
      let one : length g.idle ≡ suc (length rest) = ap length e in
      let fresh : All (Fresh l) (p ∷ rest) = subst (λ xs. All (Fresh l) xs) e v.fresh in
      (record { exact = omega (arith, v.exact, one); capped = v.capped; fresh = fresh.1 }, fresh.0)

  checkout_locked-Kept :
      (l : Limits) (others now : ℕ) (g : PoolInner I)
      → IsValidInner l (others + 0) g
      → Kept l others (after_checkout (checkout_locked l now g))
  unfolding checkout_locked
  checkout_locked-Kept l others now g v = elim (Bool-cases (ltb now g.cooldown_until_ms)) [
    | inl cooling ↦ rw cooling (v, tt)
    | inr e ↦ rw e (pop_or_reserve-Kept l others g g.idle refl v)
  ]

  check_in-Kept :
      (l : Limits) (others : ℕ) (p : PooledInstance I) (g : PoolInner I)
      → IsValidInner l (others + 1) g
      → Kept l others (check_in l p g)
  unfolding return_idle
  check_in-Kept l others p g v = elim (Bool-cases (spent l p)) [
    | inl e ↦ rw e (v, tt)
    | inr e ↦ rw e (
      record {
        exact = omega (arith, v.exact);
        capped = v.capped;
        fresh = (ground (arith, e), v.fresh);
      },
      tt,
    )
  ]

  -- A slot given back by a caller that had one.
  released :
      (l : Limits) (others : ℕ) (g : PoolInner I)
      → IsValidInner l (others + 1) g
      → IsValidInner l (others + 0) (release_slot g)
  released l others g v = record {
    exact = omega (arith, v.exact);
    capped = omega (arith, v.capped);
    fresh = v.fresh;
  }

  access-Kept :
      (l : Limits) (w : World I) (others : ℕ) (g : PoolInner I) (p : Phase I)
      → 0 < l.max_requests_per_instance
      → IsValidInner l (others + reserved p) g
      → Kept l others (access l w g p)
  unfolding access recycle note_trap
  access-Kept l w others g requesting pos v = checkout_locked-Kept l others w.now g v
  access-Kept l w others g (finished o) pos v = (v, tt)
  access-Kept l w others g waiting pos v = elim (Bool-cases w.timed_out) [
    | inl e ↦ rw e (v, tt)
    | inr e ↦ rw e (v, tt)
  ]
  access-Kept l w others g building pos v = elim (Option-cases w.built) [
    | inl e ↦ rw e (released l others g v, tt)
    | inr (i, e) ↦ rw e (v, pos)
  ]
  access-Kept l w others g (holding p) pos v = elim (Bool-cases w.returned) [
    | inl e ↦ rw e (check_in-Kept l others (served_once p) g v)
    | inr e ↦ rw e (v, tt)
  ]
  access-Kept l w others g recycling pos v =
      let r = released l others g v in
      (record { exact = r.exact; capped = r.capped; fresh = r.fresh }, tt)
  access-Kept l w others g trapped pos v =
      let r = released l others g v in
      (record { exact = r.exact; capped = r.capped; fresh = r.fresh }, tt)

  total-split :
      (ps : List (Phase I)) (i : ℕ) (p q : Phase I)
      → get_elem? ps i ≡ some p
      → (others : ℕ) × ((total reserved ps ≡ others + reserved p)
          × (total reserved (set ps i q) ≡ others + reserved q))
  total-split ps i p q e =
      let others = total reserved ps - reserved p in
      let held = le-total reserved ps i p e in
      (others, (omega (arith, held), omega (arith, held, total-set reserved ps i p q e)))

  Step-IsValid :
      (l : Limits) (s u : System I)
      → 0 < l.max_requests_per_instance
      → IsValid l s
      → Step l s u
      → IsValid l u
  Step-IsValid l s u pos v (move i w p e same) =
      let (g, q) = access l w s.inner p in
      let (others, (before, after)) = total-split s.callers i p (access l w s.inner p).1 e in
      let kept = access-Kept l w others s.inner p pos (rw (sym before) v.pool) in
      rw same (record {
        pool = rw after kept.0;
        held = All-set (FreshPhase l) s.callers i (access l w s.inner p).1 v.held kept.1;
      })

  pub Reach-IsValid :
      (l : Limits) (s u : System I)
      → 0 < l.max_requests_per_instance
      → IsValid l s
      → Reach l s u
      → IsValid l u
  Reach-IsValid l s u pos v here = v
  Reach-IsValid l s u pos v (next {t} r st) =
      Step-IsValid l t u pos (Reach-IsValid l s t pos v r) st

  requesting_callers : ℕ → List (Phase I)
  requesting_callers n = replicate n requesting

  requesting_callers-free :
      (l : Limits) (first : I) (n : ℕ)
      → (total reserved (requesting_callers n) ≡ 0) × All (FreshPhase l) (requesting_callers n)
  unfolding requesting_callers
  requesting_callers-free l first zero = (refl, tt)
  requesting_callers-free l first (suc n) =
      let rest = requesting_callers-free l first n in (omega (arith, rest.0), (tt, rest.1))

  -- A pool built around one instance, and `n` requests.
  unfoldable pub start : I → ℕ → System I
  unfolding requesting_callers
  start first n = record { inner = new_pool first; callers = requesting_callers n }

  pub start-IsValid :
      (l : Limits) (first : I) (n : ℕ)
      → 0 < l.cap
      → 0 < l.max_requests_per_instance
      → IsValid l (start first n)
  unfolding start
  start-IsValid l first n room pos =
      let (none_out, fresh) = requesting_callers-free l first n in
      record {
        pool = record { exact = rw none_out refl; capped = room; fresh = (pos, tt) };
        held = fresh;
      }

  instances-le : (ps : List (Phase I)) → total instances ps ≤ total reserved ps
  instances-le [] = omega arith
  instances-le (requesting ∷ ps) = omega (arith, instances-le ps)
  instances-le (finished o ∷ ps) = omega (arith, instances-le ps)
  instances-le (waiting ∷ ps) = omega (arith, instances-le ps)
  instances-le (building ∷ ps) = omega (arith, instances-le ps)
  instances-le (holding p ∷ ps) = omega (arith, instances-le ps)
  instances-le (recycling ∷ ps) = omega (arith, instances-le ps)
  instances-le (trapped ∷ ps) = omega (arith, instances-le ps)

  -- Whatever the interleaving of `n` requests on a new pool with a positive cap and a positive number of
  -- requests per instance, and whatever builds fail and calls trap: the instances that are idle, being
  -- built or checked out are never more than the cap, `live` counts them with the slots that are about to
  -- be given back, and every instance that is idle or checked out has served fewer requests than one may.
  pub instances-capped :
      (l : Limits) (first : I) (n : ℕ) (s : System I)
      → 0 < l.cap
      → 0 < l.max_requests_per_instance
      → Reach l (start first n) s
      → (length s.inner.idle + total instances s.callers ≤ l.cap)
        × ((s.inner.live ≡ length s.inner.idle + total reserved s.callers)
            × (All (Fresh l) s.inner.idle × All (FreshPhase l) s.callers))
  instances-capped l first n s room pos r =
      let v = Reach-IsValid l (start first n) s pos (start-IsValid l first n room pos) r in
      let p = v.pool in
      (omega (arith, p.exact, p.capped, instances-le s.callers), (p.exact, (p.fresh, v.held)))
