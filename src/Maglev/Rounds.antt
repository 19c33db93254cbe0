-- ===== src/Maglev/Rounds.antt =====
-- The rounds that fill the table.
use plecto.Prelude.{
  ℕ, zero, suc, ◌+◌, ◌^◌, ◌≤◌, ◌<◌, ◌≡◌, sym, ◌∙◌, ap, subst, ◌⊎◌, inl, inr, List, [], ◌∷◌, Option,
  map, arith, length, length-map, All, Bool-cases, ltb, lt→ltb,
}
use plecto.Maglev.{Backend, Filling, fill, turns}
use plecto.Maglev.Inverse.{Indivisible}
use plecto.Maglev.Probe.{Extends, IsFilling, IsSound}
use plecto.Maglev.Turns.{Due, Any, Served, Round, turns-Round, weight_of}

-- The weight is one of those.
abbrev pub Has : ℕ → List ℕ → Type 0
Has w [] = ⊥
Has w (v ∷ vs) = (v ≡ w) ⊎ Has w vs

some-Due :
    (m max_w round : ℕ) (entry : List (Option ℕ)) (bs : List Backend)
    → Has max_w (map weight_of bs)
    → All (IsSound m max_w round entry) bs
    → Any (Due round) bs
some-Due m max_w round entry [] h s = h
some-Due m max_w round entry (b ∷ bs) (inl e) s = inl (rw e s.0.due)
some-Due m max_w round entry (b ∷ bs) (inr h) s = inr (some-Due m max_w round entry bs h s.1)

-- What the rounds leave.
pub record IsFull (m n : ℕ) (f f' : Filling) : Type 0 where
  pub filling : IsFilling m n f'
  pub full : f'.filled ≡ m
  pub grows : Extends f.entry f'.entry

-- Before round `suc round`, with as many rounds left as it can take.
pub record Ready (m n max_w fuel round : ℕ) (bs : List Backend) (f : Filling) : Type 0 where
  pub fits : length bs ≤ n
  pub has : Has max_w (map weight_of bs)
  pub filling : IsFilling m n f
  pub sound : All (IsSound m max_w (suc round) f.entry) bs
  pub enough : m ≤ f.filled + fuel

module _ (m n max_w : ℕ) (prime : Indivisible m) (small : m ≤ 2 ^ 32) where
  outcome :
      (fuel round : ℕ) (bs : List Backend) (f : Filling)
      → Ready m n max_w fuel round bs f
      → f.filled < m
      → let r = turns m max_w (suc round) 0 bs f in Round m n max_w (suc round) 0 bs f r.0 r.1
  outcome fuel round bs f ready more =
      turns-Round m n max_w (suc round) prime small 0 bs f (omega (arith, ready.fits)) ready.filling
        more ready.sound

  -- Each round fills a slot.
  turns-Ready :
      (fuel round : ℕ) (bs : List Backend) (f : Filling)
      → Ready m n max_w (suc fuel) round bs f
      → f.filled < m
      → let r = turns m max_w (suc round) 0 bs f in Ready m n max_w fuel (suc round) r.0 r.1
  turns-Ready fuel round bs f ready more =
      let r = outcome (suc fuel) round bs f ready more in
      let bs' = (turns m max_w (suc round) 0 bs f).0 in
      let same_length : length bs' ≡ length bs =
        sym (length-map weight_of bs') ∙ ap length r.same_weights ∙ length-map weight_of bs in
      let due = some-Due m max_w (suc round) f.entry bs ready.has ready.sound in
      record {
        fits = omega (arith, same_length, ready.fits);
        has = subst (Has max_w) (sym r.same_weights) ready.has;
        filling = r.filling;
        sound = r.sound;
        enough = omega (arith, r.progress due, ready.enough);
      }

  -- So `m` rounds fill the table.
  pub fill-IsFull :
      (fuel round : ℕ) (bs : List Backend) (f : Filling)
      → Ready m n max_w fuel round bs f
      → IsFull m n f (fill fuel m max_w round bs f)
  unfolding fill
  fill-IsFull zero round bs f ready = record {
    filling = ready.filling;
    full = omega (arith, ready.filling.counted, ready.enough);
    grows = λ c k e. e;
  }
  fill-IsFull (suc fuel) round bs f ready = elim (Bool-cases (ltb f.filled m)) [
    | inr done ↦ rw done (record {
      filling = ready.filling;
      full = ground (arith, done, ready.filling.counted);
      grows = λ c k e. e;
    })
    | inl more ↦
        let lt : f.filled < m = ground (arith, more) in
        let r = turns m max_w (suc round) 0 bs f in
        let rest = fill-IsFull fuel (suc round) r.0 r.1 (turns-Ready fuel round bs f ready lt) in
        let first = outcome (suc fuel) round bs f ready lt in
        rw more (record {
          filling = rest.filling;
          full = rest.full;
          grows = λ c k e. rest.grows c k (first.grows c k e);
        })
  ]

  -- A round in which every backend is due serves every backend, and later rounds only add.
  pub fill-Served :
      (fuel round : ℕ) (bs : List Backend) (f : Filling)
      → Ready m n max_w (suc fuel) round bs f
      → f.filled < m
      → All (Due (suc round)) bs
      → f.filled + length bs ≤ m
      → (k : ℕ) → k < length bs
      → Served (fill (suc fuel) m max_w round bs f).entry k
  unfolding fill
  fill-Served fuel round bs f ready lt due room k h =
      let r = turns m max_w (suc round) 0 bs f in
      let first = outcome (suc fuel) round bs f ready lt in
      let rest = fill-IsFull fuel (suc round) r.0 r.1 (turns-Ready fuel round bs f ready lt) in
      let (c, owner) = first.serves due room k (omega arith) (omega arith) in
      rw (lt→ltb f.filled m lt) (c, rest.grows c k owner)
