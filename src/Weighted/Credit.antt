-- ===== src/Weighted/Credit.antt =====
-- One step of the apportionment: what the inner loop adds, and which backend it serves.
use mathlib.Core.List.{append-nil}
use plecto.Prelude.{
  ℕ, zero, suc, ◌<◌, ◌≡◌, refl, ap, List, [], ◌∷◌, ◌++◌, arith, length, length-append, set,
  if◌then◌else◌, Bool-cases, inl, inr,
}
use plecto.Prelude.Int.{ℤ, pos, ◌+ℤ◌, ◌≤ℤ◌, ltb_ℤ}
use plecto.Weighted.{ℤ_at, credit}

-- Every deficit with its backend's weight added.
unfoldable pub zip_add : List ℤ → List ℕ → List ℤ
zip_add [] ws = []
zip_add (x ∷ xs) [] = x ∷ xs
zip_add (x ∷ xs) (w ∷ ws) = (x +ℤ pos w) ∷ zip_add xs ws

-- No deficit is above the bound.
abbrev pub AllLe : List ℤ → ℤ → Type 0
AllLe [] m = Unit {0}
AllLe (x ∷ xs) m = (x ≤ℤ m) × AllLe xs m

AllLe-trans : (xs : List ℤ) (m n : ℤ) → AllLe xs m → m ≤ℤ n → AllLe xs n
AllLe-trans [] m n a h = tt
AllLe-trans (x ∷ xs) m n a h = (omega arith, AllLe-trans xs m n a.1 h)

AllLe-snoc : (xs : List ℤ) (x m : ℤ) → AllLe xs m → x ≤ℤ m → AllLe (xs ++ x ∷ []) m
AllLe-snoc [] x m a h = (h, tt)
AllLe-snoc (y ∷ xs) x m a h = (a.0, AllLe-snoc xs x m a.1 h)

ℤ_at-append : (xs ys : List ℤ) (i : ℕ) → i < length xs → ℤ_at (xs ++ ys) i ≡ ℤ_at xs i
ℤ_at-append [] ys i h = absurd (omega arith)
ℤ_at-append (x ∷ xs) ys zero h = refl
ℤ_at-append (x ∷ xs) ys (suc i) h = ℤ_at-append xs ys i (omega arith)

ℤ_at-middle : (xs : List ℤ) (y : ℤ) (ys : List ℤ) → ℤ_at (xs ++ y ∷ ys) (length xs) ≡ y
ℤ_at-middle [] y ys = refl
ℤ_at-middle (x ∷ xs) y ys = ℤ_at-middle xs y ys

set-middle : (xs : List ℤ) (y z : ℤ) (ys : List ℤ) → set (xs ++ y ∷ ys) (length xs) z ≡ xs ++ z ∷ ys
set-middle [] y z ys = refl
set-middle (x ∷ xs) y z ys = ap (λ r. x ∷ r) (set-middle xs y z ys)

snoc_length : (xs : List ℤ) (x : ℤ) → length (xs ++ x ∷ []) ≡ suc (length xs)
snoc_length xs x = omega (arith, length-append {0} xs (x ∷ []))

-- What the loop has reached: a credited front `done` with its largest deficit at `best`.
pub record Credited (d : List ℤ) (r : List ℤ × ℕ) : Type 0 where
  pub total_is : r.0 ≡ d
  pub best_in : r.1 < length d
  pub best_most : AllLe d (ℤ_at d r.1)

snoc_append {ℓ} :
    {A : Type ℓ} (xs : List A) (x : A) (ys : List A) → xs ++ x ∷ ys ≡ (xs ++ x ∷ []) ++ ys
snoc_append [] x ys = refl
snoc_append (z ∷ xs) x ys = ap (λ r. z ∷ r) (snoc_append xs x ys)

-- The index that the loop goes on with after the backend at the end of the front is credited to `y`.
next_best : List ℤ → ℤ → ℕ → ℕ
next_best front y best = if ltb_ℤ (ℤ_at front best) y then length front else best

credit-next :
    (w : ℕ) (ws : List ℕ) (front : List ℤ) (x : ℤ) (back : List ℤ) (best : ℕ)
    → best < length front
    → credit (w ∷ ws) (length front) (front ++ x ∷ back) best
      ≡ credit ws
          (length (front ++ (x +ℤ pos w) ∷ []))
          ((front ++ (x +ℤ pos w) ∷ []) ++ back)
          (next_best front (x +ℤ pos w) best)
unfolding credit next_best
credit-next w ws front x back best b = rw (ℤ_at-middle front x back) (
    rw (set-middle front x (x +ℤ pos w) back) (
      rw (ℤ_at-middle front (x +ℤ pos w) back) (
        rw (ℤ_at-append front ((x +ℤ pos w) ∷ back) best b)
          (rw (snoc_length front (x +ℤ pos w), snoc_append front (x +ℤ pos w) back)))))

next_best-lt :
    (front : List ℤ) (y : ℤ) (best : ℕ)
    → best < length front
    → next_best front y best < length (front ++ y ∷ [])
unfolding next_best
next_best-lt front y best b = ground (arith, snoc_length front y)

next_best-AllLe :
    (front : List ℤ) (y : ℤ) (best : ℕ)
    → best < length front
    → AllLe front (ℤ_at front best)
    → AllLe (front ++ y ∷ []) (ℤ_at (front ++ y ∷ []) (next_best front y best))
unfolding next_best
next_best-AllLe front y best b m = elim (Bool-cases (ltb_ℤ (ℤ_at front best) y)) [
  | inl e ↦ rw e (
      rw (ℤ_at-middle front y [])
        (AllLe-snoc front y y (AllLe-trans front _ y m (ground arith)) (omega arith)))
  | inr e ↦ rw e (
      rw (ℤ_at-append front (y ∷ []) best b)
        (AllLe-snoc front y (ℤ_at front best) m (ground arith)))
]

credit-front :
    (ws : List ℕ) (front back : List ℤ) (best : ℕ)
    → length back ≡ length ws
    → best < length front
    → AllLe front (ℤ_at front best)
    → Credited (front ++ zip_add back ws) (credit ws (length front) (front ++ back) best)
unfolding zip_add
credit-front [] front [] best l b m =
    unfold credit in
    record {
      total_is = refl;
      best_in = rw (append-nil front) b;
      best_most = rw (append-nil front) m;
    }
credit-front [] front (x ∷ back) best l b m = absurd (omega arith)
credit-front (w ∷ ws) front [] best l b m = absurd (omega arith)
credit-front (w ∷ ws) front (x ∷ back) best l b m = rw (credit-next w ws front x back best b) (
    rw (snoc_append front (x +ℤ pos w) (zip_add back ws)) (
      credit-front ws (front ++ (x +ℤ pos w) ∷ []) back (next_best front (x +ℤ pos w) best)
        (omega arith) (next_best-lt front (x +ℤ pos w) best b)
        (next_best-AllLe front (x +ℤ pos w) best b m)))

-- The whole loop: every backend is credited, and the one served has the largest deficit.
pub credit_lem :
    (ws : List ℕ) (d : List ℤ)
    → length d ≡ length ws
    → 0 < length ws
    → Credited (zip_add d ws) (credit ws 0 d 0)
unfolding credit zip_add
credit_lem [] d l h = absurd (omega arith)
credit_lem (w ∷ ws) [] l h = absurd (omega arith)
credit_lem (w ∷ ws) (x ∷ d) l h = elim (Bool-cases (ltb_ℤ (x +ℤ pos w) (x +ℤ pos w))) [
  | inl e ↦ absurd (ground arith)
  | inr e ↦
      rw e (credit-front ws ((x +ℤ pos w) ∷ []) d 0 (omega arith) (omega arith) (omega arith, tt))
]
