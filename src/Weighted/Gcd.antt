-- ===== src/Weighted/Gcd.antt =====
-- The greatest common divisor that the weights are reduced by.
use native.Mathlib.Nat.{mod-add-div'}
use plecto.Prelude.{
  ℕ, zero, suc, ◌+◌, ◌*◌, ◌/◌, ◌%◌, ◌<◌, ◌≡◌, refl, sym, ap, ap₂, subst, List, [], ◌∷◌, map, some,
  arith, filter, All, Bool-cases, inl, inr, ◌==◌, ==_iff, max,
}
use plecto.Weighted.{gcd, gcd_loop, gcd_from, reduce_gcd, reduced, is_positive, divisor_or_one}

-- `d` times something is `n`.
abbrev pub Divides : ℕ → ℕ → Type 0
Divides d n = (q : ℕ) × (q * d ≡ n)

Divides-div : (d n : ℕ) → Divides d n → 0 < d → n / d * d ≡ n
Divides-div d n (q, e) p = grind (arith, e)

combine : (k q r g b m a : ℕ) → q * g ≡ b → r * g ≡ m → m + k * b ≡ a → (k * q + r) * g ≡ a
combine k q r g b m a e f h = omega (arith, ap (λ (t : ℕ). k * t) e)

gcd_loop-Divides :
    (fuel a b : ℕ) → b < fuel → Divides (gcd_loop fuel a b) a × Divides (gcd_loop fuel a b) b
unfolding gcd_loop
gcd_loop-Divides zero a b h = absurd (omega arith)
gcd_loop-Divides (suc fuel) a b h = elim (Bool-cases (b == 0)) [
  | inl e ↦ rw e ((1, omega arith), (0, ground arith))
  | inr e ↦
      let ((q, f), (r, g)) = gcd_loop-Divides fuel b (a % b) (ground arith) in
      rw e (
        (
          a / b * q + r,
          combine (a / b) q r (gcd_loop fuel b (a % b)) b (a % b) a f g (mod-add-div' a b),
        ),
        (q, f),
      )
]

gcd-Divides : (a b : ℕ) → Divides (gcd a b) a × Divides (gcd a b) b
unfolding gcd
gcd-Divides a b = gcd_loop-Divides (suc b) a b (omega arith)

Divides-trans : (d e n : ℕ) → Divides d e → Divides e n → Divides d n
Divides-trans d e n (q, f) (r, g) = (r * q, omega (arith, ap (λ (t : ℕ). r * t) f))

Divides-pos : (d n : ℕ) → Divides d n → 0 < n → 0 < d
Divides-pos d n (q, f) p = elim (Bool-cases (d == 0)) [
  | inl z ↦ absurd (omega (arith, f, ap (λ (t : ℕ). q * t) ((==_iff d 0).0 z)))
  | inr z ↦ ground arith
]

gcd_from-Divides :
    (a : ℕ) (ws : List ℕ) → Divides (gcd_from a ws) a × All (Divides (gcd_from a ws)) ws
unfolding gcd_from
gcd_from-Divides a [] = ((1, omega arith), tt)
gcd_from-Divides a (w ∷ ws) =
    let (first, rest) = gcd_from-Divides (gcd a w) ws in
    let (left, right) = gcd-Divides a w in
    (
      Divides-trans (gcd_from (gcd a w) ws) (gcd a w) a first left,
      (Divides-trans (gcd_from (gcd a w) ws) (gcd a w) w first right, rest),
    )

pub positive_weights : (ws : List ℕ) → All (λ w. 0 < w) (filter is_positive ws)
positive_weights [] = tt
positive_weights (w ∷ ws) = ground (arith, positive_weights ws)

max_one : (d : ℕ) → 0 < d → max d 1 ≡ d
max_one d h = omega arith

divisor_of_positive :
    (ns : List ℕ)
    → All (λ w. 0 < w) ns
    → (0 < divisor_or_one (reduce_gcd ns)) × All (Divides (divisor_or_one (reduce_gcd ns))) ns
unfolding reduce_gcd
divisor_of_positive [] p = (omega arith, tt)
divisor_of_positive (n ∷ ns) p =
    let (first, rest) = gcd_from-Divides n ns in
    let d_pos = Divides-pos (gcd_from n ns) n first p.0 in
    subst (λ d. (0 < d) × All (Divides d) (n ∷ ns)) (sym (max_one (gcd_from n ns) d_pos))
      (d_pos, (first, rest))

pub reduce_gcd-pos : (ns : List ℕ) (d : ℕ) → All (λ w. 0 < w) ns → reduce_gcd ns ≡ some d → 0 < d
unfolding reduce_gcd
reduce_gcd-pos [] d p e = absurd (cc)
reduce_gcd-pos (n ∷ ns) d p e =
    ground (arith, Divides-pos (gcd_from n ns) n (gcd_from-Divides n ns).0 p.0)

-- The divisor divides every nonzero weight, and is not 0.
pub divisor-Divides :
    (ws : List ℕ)
    → (0 < divisor_or_one (reduce_gcd (filter is_positive ws)))
      × All (Divides (divisor_or_one (reduce_gcd (filter is_positive ws)))) (filter is_positive ws)
divisor-Divides ws = divisor_of_positive (filter is_positive ws) (positive_weights ws)

scaled_back :
    (d : ℕ) (ns : List ℕ) → 0 < d → All (Divides d) ns → map (λ w. w * d) (map (λ w. w / d) ns) ≡ ns
scaled_back d [] p a = refl
scaled_back d (n ∷ ns) p a = ap₂ ◌∷◌ (Divides-div d n a.0 p) (scaled_back d ns p a.1)

-- Reducing the weights keeps their ratio: the nonzero weights are the reduced ones times one positive
-- divisor.
pub reduced-ratio :
    (ws : List ℕ) → (d : ℕ) × (0 < d) × (map (λ w. w * d) (reduced ws) ≡ filter is_positive ws)
unfolding reduced
reduced-ratio ws =
    let (p, a) = divisor-Divides ws in (_, p, scaled_back _ (filter is_positive ws) p a)

quotient_pos : (d n : ℕ) → Divides d n → 0 < d → 0 < n → 0 < n / d
quotient_pos d n e p q = elim (Bool-cases (n / d == 0)) [
  | inl z ↦
      absurd (omega (arith, Divides-div d n e p, ap (λ (t : ℕ). t * d) ((==_iff (n / d) 0).0 z)))
  | inr z ↦ ground arith
]

quotients_pos :
    (d : ℕ) (ns : List ℕ)
    → 0 < d
    → All (Divides d) ns
    → All (λ w. 0 < w) ns
    → All (λ w. 0 < w) (map (λ w. w / d) ns)
quotients_pos d [] p a q = tt
quotients_pos d (n ∷ ns) p a q = (quotient_pos d n a.0 p q.0, quotients_pos d ns p a.1 q.1)

pub reduced_pos : (ws : List ℕ) → All (λ w. 0 < w) (reduced ws)
unfolding reduced
reduced_pos ws =
    let (p, a) = divisor-Divides ws in
    quotients_pos _ (filter is_positive ws) p a (positive_weights ws)
