-- ===== src/Bucket/Rate.antt =====
-- How much a bucket can grant over time.
use native.Mathlib.Nat.{div-mul-le_self}
use plecto.Prelude.{
  ℕ, ◌+◌, ◌-◌, ◌*◌, ◌/◌, ◌≤◌, ◌≡◌, Bool, List, [], ◌∷◌, some, arith, u64_max, if◌then◌else◌,
  Bool-cases, inl, inr, leb, subst,
}
use plecto.Bucket.{Bucket, no_refill, refill, consume, apply_bucket}

-- One consult: the cost asked for and the clock.
pub record Consult : Type 0 where
  pub cost : ℕ
  pub now_ms : ℕ

-- The state after a row of consults, and the tokens that they were granted.
unfoldable pub consult_all : Bucket → ℕ × ℕ → List Consult → (ℕ × ℕ) × ℕ
consult_all spec s [] = (s, 0)
consult_all spec s (c ∷ cs) =
    let (s', a) = apply_bucket (some s) c.cost spec c.now_ms in
    let (t, granted) = consult_all spec s' cs in
    (t, if a.allowed then c.cost + granted else granted)

-- No clock of the row is past the end.
abbrev pub Until : ℕ → List Consult → Type 0
Until t [] = Unit {0}
Until t (c ∷ cs) = (c.now_ms ≤ t) × Until t cs

-- Some number of whole intervals lies between two states, and pays for what was granted.
pub record Paid (spec : Bucket) (t : ℕ) (s s' : ℕ × ℕ) (granted : ℕ) : Type 0 where
  pub intervals : ℕ
  pub mark : s'.1 ≡ s.1 + intervals * spec.refill_interval_ms
  pub past : s'.1 ≤ t
  pub pays : granted + s'.0 ≤ s.0 + intervals * spec.refill_tokens

refill-Paid :
    (spec : Bucket) (t now_ms : ℕ) (s : ℕ × ℕ)
    → now_ms ≤ t
    → t ≤ u64_max
    → s.1 ≤ t
    → Paid spec t s (refill (some s) spec now_ms) 0
unfolding refill
refill-Paid spec t now_ms (tokens, last) n u l = elim (Bool-cases (no_refill spec)) [
  | inl e ↦ rw e (record { intervals = 0; mark = omega arith; past = l; pays = omega arith })
  | inr e ↦ rw e (record {
    intervals = (now_ms - last) / spec.refill_interval_ms;
    mark = omega (arith, whole);
    past = omega (arith, whole);
    pays = omega arith;
  })
]
  where
    whole : (now_ms - last) / spec.refill_interval_ms * spec.refill_interval_ms ≤ now_ms - last
    whole = div-mul-le_self (now_ms - last) spec.refill_interval_ms

consume-Paid :
    (spec : Bucket) (t cost : ℕ) (s r : ℕ × ℕ)
    → Paid spec t s r 0
    → let (s', a) = consume cost spec r in Paid spec t s s' (if a.allowed then cost else 0)
unfolding consume
consume-Paid spec t cost s (tokens, last) v = elim (Bool-cases (leb cost tokens)) [
  | inl e ↦ rw e (record {
    intervals = v.intervals;
    mark = v.mark;
    past = v.past;
    pays = ground (arith, v.pays);
  })
  | inr e ↦ rw e (record { intervals = v.intervals; mark = v.mark; past = v.past; pays = v.pays })
]

apply_bucket-Paid :
    (spec : Bucket) (t cost now_ms : ℕ) (s : ℕ × ℕ)
    → now_ms ≤ t
    → t ≤ u64_max
    → s.1 ≤ t
    → let (s', a) = apply_bucket (some s) cost spec now_ms in
      Paid spec t s s' (if a.allowed then cost else 0)
unfolding apply_bucket
apply_bucket-Paid spec t cost now_ms s n u l =
    consume-Paid spec t cost s (refill (some s) spec now_ms) (refill-Paid spec t now_ms s n u l)

Paid-trans :
    (spec : Bucket) (t : ℕ) (r s s' : ℕ × ℕ) (m n : ℕ)
    → Paid spec t r s m
    → Paid spec t s s' n
    → Paid spec t r s' (m + n)
Paid-trans spec t r s s' m n v w = record {
  intervals = v.intervals + w.intervals;
  mark = omega (arith, v.mark, w.mark);
  past = w.past;
  pays = omega (arith, v.pays, w.pays);
}

charge : (b : Bool) (cost n : ℕ) → (if b then cost else 0) + n ≡ (if b then cost + n else n)
charge b cost n = ground arith

consult_all-Paid :
    (spec : Bucket) (t : ℕ) (s : ℕ × ℕ) (cs : List Consult)
    → t ≤ u64_max
    → Until t cs
    → s.1 ≤ t
    → Paid spec t s (consult_all spec s cs).0 (consult_all spec s cs).1
unfolding consult_all
consult_all-Paid spec t s [] u h l = record {
  intervals = 0;
  mark = omega arith;
  past = l;
  pays = omega arith;
}
consult_all-Paid spec t s (c ∷ cs) u h l =
    let (s', a) = apply_bucket (some s) c.cost spec c.now_ms in
    let first = apply_bucket-Paid spec t c.cost c.now_ms s h.0 u l in
    let rest = consult_all-Paid spec t s' cs u h.1 first.past in
    subst (λ n. Paid spec t s (consult_all spec s' cs).0 n)
      (charge a.allowed c.cost (consult_all spec s' cs).1)
      (Paid-trans spec t s s' (consult_all spec s' cs).0 _ _ first rest)

-- A bucket never grants more than it promises: over any row of consults at clocks up to `t`, in any
-- order, the tokens granted are at most those in the bucket plus one refill for each whole interval
-- from its refill mark to `t`.
pub consult_all-rate :
    (spec : Bucket) (t : ℕ) (s : ℕ × ℕ) (cs : List Consult)
    → t ≤ u64_max
    → Until t cs
    → s.1 ≤ t
    → (k : ℕ) × (k * spec.refill_interval_ms ≤ t - s.1)
      × ((consult_all spec s cs).1 ≤ s.0 + k * spec.refill_tokens)
consult_all-rate spec t s cs u h l =
    let v = consult_all-Paid spec t s cs u h l in
    (v.intervals, omega (arith, v.mark, v.past), omega (arith, v.pays))
