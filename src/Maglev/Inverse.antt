-- ===== src/Maglev/Inverse.antt =====
-- Multiples modulo a prime: the permutation of the slots that an offset and a skip give.
use native.Mathlib.Nat.{add-mul-mod_self_right, mod-eq_of_lt, mod-add-div', mod-lt}
use plecto.Prelude.{ℕ, zero, suc, ◌+◌, ◌-◌, ◌*◌, ◌/◌, ◌%◌, ◌≤◌, ◌<◌, ◌≡◌, ◌≢◌, sym, ◌∙◌, ap, arith}

-- No number from 2 on divides a prime but itself.
abbrev pub Indivisible : ℕ → Type 0
Indivisible m = (d : ℕ) → 2 ≤ d → d < m → m % d ≢ 0

mod_of : (x e b c m : ℕ) → e < m → x + b * m ≡ e + c * m → x % m ≡ e
mod_of x e b c m h eq =
    sym (add-mul-mod_self_right x b m)
    ∙ ap (λ y. y % m) eq
    ∙ add-mul-mod_self_right e c m
    ∙ mod-eq_of_lt h

-- One step of Euclid's algorithm, on multiples of `s`.
smaller_multiple :
    (s t m k q r a u : ℕ)
    → r + q * suc k ≡ m
    → u + q ≡ m
    → suc k + a * m ≡ s * t
    → s * (t * u) + 0 * m ≡ r + (a * u + k) * m
smaller_multiple s t m k q r a u e f g =
    omega (arith, ap (λ (x : ℕ). x * u) g, ap (λ (x : ℕ). suc k * x) f, e)

-- From a multiple of `s` that is `k` to one that is 1, for `k` up to the fuel.
descend :
    (m s : ℕ) (prime : Indivisible m) (fuel k t : ℕ)
    → k ≤ fuel
    → 0 < k
    → k < m
    → s * t % m ≡ k
    → (t' : ℕ) × (s * t' % m ≡ 1)
descend m s prime zero k t h p l e = absurd (omega arith)
descend m s prime (suc fuel) zero t h p l e = absurd (omega arith)
descend m s prime (suc fuel) (suc zero) t h p l e = (t, e)
descend m s prime (suc fuel) (suc (suc k)) t h p l e =
    let r = m % suc (suc k) in
    let q = m / suc (suc k) in
    let whole : r + q * suc (suc k) ≡ m = mod-add-div' m (suc (suc k)) in
    let r_pos : 0 < r = ground (arith, prime (suc (suc k)) (omega arith) l) in
    let r_lt : r < suc (suc k) = mod-lt m (omega arith) in
    let q_le : q ≤ m = grind (arith, whole) in
    let parts : s * t % m + s * t / m * m ≡ s * t = mod-add-div' (s * t) m in
    descend m s prime fuel r (t * (m - q)) (omega (arith, r_lt, h)) r_pos (omega (arith, r_lt, l)) (
      mod_of (s * (t * (m - q))) r 0 (s * t / m * (m - q) + suc k) m (omega (arith, r_lt, l)) (
        smaller_multiple s t m (suc k) q r (s * t / m) (m - q) whole (omega (arith, q_le))
          (omega (arith, parts, e))))

-- A number below a prime has an inverse modulo it.
inverse : (m s : ℕ) → Indivisible m → 0 < s → s < m → (t : ℕ) × (s * t % m ≡ 1)
inverse m s prime p l =
    descend m s prime s s 1 (omega arith) p l (mod_of (s * 1) s 0 0 m l (omega arith))

place_of :
    (m s t o d a b j e : ℕ)
    → 1 + a * m ≡ s * t
    → j + b * m ≡ t * d
    → o + d ≡ e + m
    → (o + j * s) + (b * s) * m ≡ e + (d * a + 1) * m
place_of m s t o d a b j e f g h =
    omega (arith, ap (λ (x : ℕ). x * s) g, ap (λ (x : ℕ). x * d) f, h)

-- Every slot is among the first `m` places of the permutation.
pub permutation_onto :
    (m o s e : ℕ)
    → Indivisible m
    → 0 < s
    → s < m
    → o < m
    → e < m
    → (j : ℕ) × (j < m) × ((o + j * s) % m ≡ e)
permutation_onto m o s e prime p l o_lt e_lt =
    let (t, one) = inverse m s prime p l in
    let d = e + (m - o) in
    let parts : s * t % m + s * t / m * m ≡ s * t = mod-add-div' (s * t) m in
    (
      t * d % m,
      mod-lt (t * d) (omega arith),
      mod_of (o + t * d % m * s) e (t * d / m * s) (d * (s * t / m) + 1) m e_lt (
          place_of m s t o d (s * t / m) (t * d / m) (t * d % m) e (omega (arith, parts, one))
            (mod-add-div' (t * d) m) (omega arith)),
    )
