-- ===== src/Route/Best.antt =====
-- The scan for the route with the greatest key.
use plecto.Prelude.{
  ℕ, zero, suc, ◌+◌, ◌≤◌, ◌≡◌, refl, sym, ◌∙◌, ap, subst, ◌⊎◌, inl, inr, Bool, true, false, List,
  [], ◌∷◌, ◌++◌, Option, none, some, arith, length, get_elem?, ◌==◌, Bool-cases,
}
use plecto.Route.{CompiledRoute, key, lex_le, keep_max, select_from}

lex_le_refl : (xs : List ℕ) → lex_le xs xs ≡ true
unfolding lex_le
lex_le_refl [] = refl
lex_le_refl (x ∷ xs) = ground (arith, lex_le_refl xs)

lex_le_trans : (xs ys zs : List ℕ) → lex_le xs ys ≡ true → lex_le ys zs ≡ true → lex_le xs zs ≡ true
unfolding lex_le
lex_le_trans [] ys zs h k = refl
lex_le_trans (x ∷ xs) [] zs h k = cc
lex_le_trans (x ∷ xs) (y ∷ ys) [] h k = cc
lex_le_trans (x ∷ xs) (y ∷ ys) (z ∷ zs) h k = ground (arith, lex_le_trans xs ys zs)

lex_le_total : (xs ys : List ℕ) → lex_le xs ys ≡ false → lex_le ys xs ≡ true
unfolding lex_le
lex_le_total [] ys h = cc
lex_le_total (x ∷ xs) [] h = refl
lex_le_total (x ∷ xs) (y ∷ ys) h = ground (arith, lex_le_total xs ys)

heads : {x y : ℕ} {xs ys : List ℕ} → x ∷ xs ≡ y ∷ ys → x ≡ y
heads e = cc

tails : {x y : ℕ} {xs ys : List ℕ} → x ∷ xs ≡ y ∷ ys → xs ≡ ys
tails e = cc

some_route : {r s : CompiledRoute} → ◌≡◌ {A = Option CompiledRoute} (some r) (some s) → r ≡ s
some_route e = cc

some_pair :
    {x y : ℕ × CompiledRoute} → ◌≡◌ {A = Option (ℕ × CompiledRoute)} (some x) (some y) → x ≡ y
some_pair e = cc

-- The last place decides between equal beginnings.
pub lex_le-last :
    (xs ys : List ℕ) (a b : ℕ)
    → length xs ≡ length ys
    → lex_le (xs ++ a ∷ []) (ys ++ b ∷ []) ≡ true
    → (lex_le xs ys ≡ true) × (xs ≡ ys → a ≤ b)
unfolding lex_le
lex_le-last [] [] a b l h = (refl, λ e. ground (arith, h))
lex_le-last [] (y ∷ ys) a b l h = absurd (omega arith)
lex_le-last (x ∷ xs) [] a b l h = absurd (omega arith)
lex_le-last (x ∷ xs) (y ∷ ys) a b l h = elim (Bool-cases (x == y)) [
  | inr other ↦ (ground (arith, h), λ e. let same : x ≡ y = heads e in ground (arith, other))
  | inl same ↦
      let rest = lex_le-last xs ys a b (omega arith) (ground (arith, h)) in
      (ground (arith, rest.0), λ e. rest.1 (tails e))
]

-- The best so far is at least as good as this one.
abbrev pub Above : ℕ × CompiledRoute → Option (ℕ × CompiledRoute) → Type 0
Above x none = ⊥
Above (i, r) (some (j, s)) = lex_le (key i r) (key j s) ≡ true

Above-trans :
    (x y : ℕ × CompiledRoute) (o : Option (ℕ × CompiledRoute))
    → Above x (some y)
    → Above y o
    → Above x o
Above-trans x y none h k = k
Above-trans (i, r) (j, s) (some (k, t)) h l = lex_le_trans (key i r) (key j s) (key k t) h l

keep_max-Above :
    (best : Option (ℕ × CompiledRoute)) (i : ℕ) (r : CompiledRoute)
    → Above (i, r) (keep_max best i r)
      × ((x : ℕ × CompiledRoute) → Above x best → Above x (keep_max best i r))
unfolding keep_max
keep_max-Above none i r = (lex_le_refl (key i r), λ x h. absurd h)
keep_max-Above (some (j, b)) i r = elim (Bool-cases (lex_le (key j b) (key i r))) [
  | inl h ↦ rw h (lex_le_refl (key i r), λ x k. Above-trans x (j, b) (some (i, r)) k h)
  | inr h ↦ rw h (lex_le_total (key j b) (key i r) h, λ x k. k)
]

-- Where the best comes from: it was there, or it is the route at `i`.
keep_max-from :
    (best : Option (ℕ × CompiledRoute)) (i : ℕ) (r : CompiledRoute)
    → (keep_max best i r ≡ best) ⊎ (keep_max best i r ≡ some (i, r))
unfolding keep_max
keep_max-from none i r = inr refl
keep_max-from (some (j, b)) i r = elim (Bool-cases (lex_le (key j b) (key i r))) [
  | inl h ↦ rw h (inr refl)
  | inr h ↦ rw h (inl refl)
]

-- A route at an index from `i` on that matches.
abbrev pub Found : (CompiledRoute → Bool) → ℕ → List CompiledRoute → ℕ × CompiledRoute → Type 0
Found matching i routes (j, r) =
    (k : ℕ) × (j ≡ i + k) × (get_elem? routes k ≡ some r) × (matching r ≡ true)

Found-later :
    (matching : CompiledRoute → Bool) (i : ℕ) (r : CompiledRoute) (routes : List CompiledRoute)
    (x : ℕ × CompiledRoute)
    → Found matching (suc i) routes x
    → Found matching i (r ∷ routes) x
Found-later matching i r routes (j, s) (k, e, f, m) = (suc k, omega (arith, e), f, m)

-- What the scan returns is at least as good as the best before and as every matching route, and it is one of
-- these.
pub record IsBest (matching : CompiledRoute → Bool) (i : ℕ) (routes : List CompiledRoute)
    (best result : Option (ℕ × CompiledRoute)) : Type 0 where
  pub keeps : (x : ℕ × CompiledRoute) → Above x best → Above x result
  pub covers : (x : ℕ × CompiledRoute) → Found matching i routes x → Above x result
  pub source :
      (x : ℕ × CompiledRoute) → result ≡ some x → (best ≡ some x) ⊎ Found matching i routes x

Found-cases :
    (matching : CompiledRoute → Bool) (i : ℕ) (r : CompiledRoute) (routes : List CompiledRoute)
    (j : ℕ) (s : CompiledRoute)
    → Found matching i (r ∷ routes) (j, s)
    → ((i ≡ j) × (r ≡ s)) ⊎ Found matching (suc i) routes (j, s)
Found-cases matching i r routes j s (zero, e, f, m) = inl (omega (arith, e), some_route f)
Found-cases matching i r routes j s (suc k, e, f, m) = inr (k, omega (arith, e), f, m)

module _ (matching : CompiledRoute → Bool) (i : ℕ) (r : CompiledRoute) (routes : List CompiledRoute)
    (best result : Option (ℕ × CompiledRoute)) where
  skip-IsBest :
      matching r ≡ false
      → IsBest matching (suc i) routes best result
      → IsBest matching i (r ∷ routes) best result
  skip-IsBest no_match rest = record {
    keeps = rest.keeps;
    covers = λ (j, s) found. elim (Found-cases matching i r routes j s found) [
      | inl (_, same) ↦
          let out : matching r ≡ true = subst (λ t. matching t ≡ true) (sym same) found.3 in cc
      | inr later ↦ rest.covers (j, s) later
    ];
    source = λ x h. elim (rest.source x h) [
      | inl old ↦ inl old
      | inr later ↦ inr (Found-later matching i r routes x later)
    ];
  }

  take-IsBest :
      matching r ≡ true
      → IsBest matching (suc i) routes (keep_max best i r) result
      → IsBest matching i (r ∷ routes) best result
  take-IsBest match rest = record {
    keeps = λ x h. rest.keeps x ((keep_max-Above best i r).1 x h);
    covers = λ (j, s) found. elim (Found-cases matching i r routes j s found) [
      | inl (e, same) ↦ rw (← e, ← same) (rest.keeps (i, r) (keep_max-Above best i r).0)
      | inr later ↦ rest.covers (j, s) later
    ];
    source = λ (j, s) h. elim (rest.source (j, s) h) [
      | inr later ↦ inr (Found-later matching i r routes (j, s) later)
      | inl now ↦ elim (keep_max-from best i r) [
        | inl same ↦ inl (sym same ∙ now)
        | inr new ↦
            let here : ◌≡◌ {A = ℕ × CompiledRoute} (i, r) (j, s) = some_pair (sym new ∙ now) in
            inr (
              0,
              omega (arith, ap (λ x. x.0) here),
              ap (λ x. some x.1) here,
              subst (λ x. matching x.1 ≡ true) here match,
            )
      ]
    ];
  }

pub select_from-IsBest :
    (matching : CompiledRoute → Bool) (i : ℕ) (routes : List CompiledRoute)
    (best : Option (ℕ × CompiledRoute))
    → IsBest matching i routes best (select_from matching i routes best)
unfolding select_from
select_from-IsBest matching i [] best = record {
  keeps = λ x h. h;
  covers = λ (j, r) (k, e, f, m). cc;
  source = λ x h. inl h;
}
select_from-IsBest matching i (r ∷ routes) best = elim (Bool-cases (matching r)) [
  | inr no_match ↦ rw no_match (
      skip-IsBest matching i r routes best (select_from matching (suc i) routes best) no_match
        (select_from-IsBest matching (suc i) routes best))
  | inl match ↦ rw match (
      take-IsBest matching i r routes best (select_from matching (suc i) routes (keep_max best i r))
        match (select_from-IsBest matching (suc i) routes (keep_max best i r)))
]
