-- ===== src/Weighted/Deficits.antt =====
-- Lists of deficits: their sums above and below zero, and one of them replaced.
use plecto.Prelude.{
  ℕ, zero, suc, ◌+◌, ◌<◌, ◌≡◌, refl, ap, List, [], ◌∷◌, arith, length, get_or, set, replicate,
  if◌then◌else◌, inl, inr, ◌⊎◌, ◌==◌,
}
use plecto.Prelude.Int.{ℤ, pos, negsuc, pos_part, neg_part, ◌+ℤ◌, +ℤ_parts}
use plecto.Weighted.{ℤ_at, sum}
use plecto.Weighted.Credit.{zip_add, AllLe}

abbrev pub pos_sum : List ℤ → ℕ
pos_sum [] = 0
pos_sum (x ∷ xs) = pos_part x + pos_sum xs

abbrev pub neg_sum : List ℤ → ℕ
neg_sum [] = 0
neg_sum (x ∷ xs) = neg_part x + neg_sum xs

pub length-zip_add : (d : List ℤ) (ws : List ℕ) → length (zip_add d ws) ≡ length d
unfolding zip_add
length-zip_add [] ws = refl
length-zip_add (x ∷ d) [] = refl
length-zip_add (x ∷ d) (w ∷ ws) = ap suc (length-zip_add d ws)

pub zip_add-at :
    (d : List ℤ) (ws : List ℕ) (j : ℕ)
    → length d ≡ length ws
    → j < length ws
    → ℤ_at (zip_add d ws) j ≡ ℤ_at d j +ℤ pos (get_or ws j 0)
unfolding zip_add
zip_add-at [] ws j l h = absurd (omega arith)
zip_add-at (x ∷ d) [] j l h = absurd (omega arith)
zip_add-at (x ∷ d) (w ∷ ws) zero l h = refl
zip_add-at (x ∷ d) (w ∷ ws) (suc j) l h = zip_add-at d ws j (omega arith) (omega arith)

pub zip_add-sum :
    (d : List ℤ) (ws : List ℕ)
    → length d ≡ length ws
    → pos_sum (zip_add d ws) + neg_sum d ≡ neg_sum (zip_add d ws) + pos_sum d + sum ws
unfolding zip_add
zip_add-sum [] [] l = refl
zip_add-sum [] (w ∷ ws) l = absurd (omega arith)
zip_add-sum (x ∷ d) [] l = absurd (omega arith)
zip_add-sum (x ∷ d) (w ∷ ws) l = omega (arith, +ℤ_parts x (pos w), zip_add-sum d ws (omega arith))

pub set-at :
    (d : List ℤ) (b j : ℕ) (y : ℤ)
    → b < length d
    → ℤ_at (set d b y) j ≡ (if b == j then y else ℤ_at d j)
set-at [] b j y h = absurd (omega arith)
set-at (x ∷ d) zero zero y h = refl
set-at (x ∷ d) zero (suc j) y h = ground arith
set-at (x ∷ d) (suc b) zero y h = ground arith
set-at (x ∷ d) (suc b) (suc j) y h = ground (arith, set-at d b j y)

pub set-sum :
    (d : List ℤ) (b : ℕ) (y : ℤ)
    → b < length d
    → (pos_sum (set d b y) + pos_part (ℤ_at d b) ≡ pos_sum d + pos_part y)
      × (neg_sum (set d b y) + neg_part (ℤ_at d b) ≡ neg_sum d + neg_part y)
set-sum [] b y h = absurd (omega arith)
set-sum (x ∷ d) zero y h = omega arith
set-sum (x ∷ d) (suc b) y h = omega (arith, set-sum d b y (omega arith))

-- If some deficit is positive in sum, so is the largest.
pub most_positive : (d : List ℤ) (m : ℤ) → AllLe d m → pos_part m ≡ 0 → pos_sum d ≡ 0
most_positive [] m a z = refl
most_positive (x ∷ d) (pos n) a z = ground (arith, most_positive d (pos n) a.1 z)
most_positive (x ∷ d) (negsuc n) a z = ground (arith, most_positive d (negsuc n) a.1 z)

pub one_sided : (x : ℤ) → (pos_part x ≡ 0) ⊎ (neg_part x ≡ 0)
one_sided (pos n) = inr refl
one_sided (negsuc n) = inl refl

pub zeros-at : (n j : ℕ) → ℤ_at (replicate n (pos 0)) j ≡ pos 0
zeros-at zero j = refl
zeros-at (suc n) zero = refl
zeros-at (suc n) (suc j) = zeros-at n j

pub zeros-sum : (n : ℕ) → (pos_sum (replicate n (pos 0)) ≡ 0) × (neg_sum (replicate n (pos 0)) ≡ 0)
zeros-sum zero = (refl, refl)
zeros-sum (suc n) = omega (arith, zeros-sum n)

pub length-zeros : (n : ℕ) → length (replicate n (pos 0)) ≡ n
length-zeros zero = refl
length-zeros (suc n) = ap suc (length-zeros n)

pub neg_sum-zero : (d : List ℤ) → ((j : ℕ) → j < length d → neg_part (ℤ_at d j) ≡ 0) → neg_sum d ≡ 0
neg_sum-zero [] h = refl
neg_sum-zero (x ∷ d) h =
    omega (arith, h 0 (omega arith), neg_sum-zero d (λ j l. h (suc j) (omega arith)))

pub pos_sum-zero : (d : List ℤ) (j : ℕ) → pos_sum d ≡ 0 → pos_part (ℤ_at d j) ≡ 0
pos_sum-zero [] j h = refl
pos_sum-zero (x ∷ d) zero h = omega arith
pos_sum-zero (x ∷ d) (suc j) h = pos_sum-zero d j (omega arith)
