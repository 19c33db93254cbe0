-- ===== src/Route/Precedence.antt =====
-- Which of the matching routes is selected.
use plecto.Prelude.{
  ℕ, zero, suc, ◌-◌, ◌≤◌, ◌<◌, ◌≡◌, refl, subst, inl, inr, Bool, true, false, List, [], ◌∷◌, ◌++◌,
  Option, none, some, arith, length, get_elem?, u64_max, Bool-cases,
}
use plecto.Strings.{split_once}
use plecto.Route.{
  CompiledRoute, RequestParts, normalize_host, route_matches, flag, key, lex_le, select_from,
  query_of, index_of, select,
}
use plecto.Route.Best.{IsBest, lex_le-last, select_from-IsBest}

-- Whether a route matches a request.
abbrev pub matches : RequestParts → CompiledRoute → Bool
matches req r =
    route_matches r (normalize_host req.authority) req.path req.method req.headers
      (query_of (split_once b'?' req.path))

-- How specific a route is, most significant first: a host, the length of the prefix, a method, and the
-- numbers of headers and of query parameters that it asks for.
abbrev pub specificity : CompiledRoute → List ℕ
specificity r =
    flag r.host ∷ length r.path_prefix ∷ flag r.method ∷ length r.headers ∷ length r.query ∷ []

-- A route that loses to the selected one: it is no more specific, and if it is as specific it stands later.
abbrev pub Loses : ℕ × CompiledRoute → ℕ × CompiledRoute → Type 0
Loses (j, s) (i, r) =
    (lex_le (specificity s) (specificity r) ≡ true) × (specificity s ≡ specificity r → i ≤ j)

-- What `select` promises of its answer.
abbrev pub Selects : List CompiledRoute → RequestParts → Option ℕ → Type 0
Selects routes req none =
    (j : ℕ) (s : CompiledRoute) → get_elem? routes j ≡ some s → matches req s ≡ false
Selects routes req (some i) =
    (r : CompiledRoute) × (get_elem? routes i ≡ some r)
    × (matches req r ≡ true)
    × ((j : ℕ) (s : CompiledRoute)
        → get_elem? routes j ≡ some s
        → matches req s ≡ true
        → Loses (j, s) (i, r))

index-lt :
    (routes : List CompiledRoute) (j : ℕ) (s : CompiledRoute)
    → get_elem? routes j ≡ some s
    → j < length routes
index-lt [] j s e = cc
index-lt (r ∷ routes) zero s e = omega arith
index-lt (r ∷ routes) (suc j) s e = omega (arith, index-lt routes j s e)

key-eq : (i : ℕ) (r : CompiledRoute) → key i r ≡ specificity r ++ (u64_max - i) ∷ []
unfolding key
key-eq i r = refl

Above-Loses :
    (j i : ℕ) (s r : CompiledRoute)
    → j ≤ u64_max
    → i ≤ u64_max
    → lex_le (key j s) (key i r) ≡ true
    → Loses (j, s) (i, r)
Above-Loses j i s r u v h =
    let decided =
      lex_le-last (specificity s) (specificity r) (u64_max - j) (u64_max - i) refl
        (rw (key-eq j s, key-eq i r) at h) in
    (decided.0, λ same. omega (arith, decided.1 same))

-- Among the routes that match a request, `select` returns the first of the most specific: one with a host
-- before one without, then the longer prefix, a method, more headers, more query parameters. It returns
-- none only if no route matches.
pub select-Selects :
    (routes : List CompiledRoute) (req : RequestParts)
    → length routes ≤ u64_max
    → Selects routes req (select routes req)
unfolding select
select-Selects routes req fits =
    by_result (select_from (matches req) 0 routes none)
      (select_from-IsBest (matches req) 0 routes none)
  where
    by_result :
        (result : Option (ℕ × CompiledRoute))
        → IsBest (matches req) 0 routes none result
        → Selects routes req (index_of result)
    by_result none v = λ j s e. elim (Bool-cases (matches req s)) [
      | inl m ↦ absurd (v.covers (j, s) (j, omega arith, e, m))
      | inr m ↦ m
    ]
    by_result (some (i, r)) v = elim (v.source (i, r) refl) [
      | inl old ↦ cc
      | inr (k, at_k, e, m) ↦
          let here : k ≡ i = omega (arith, at_k) in
          let at_i : get_elem? routes i ≡ some r =
            subst (λ x. get_elem? routes x ≡ some r) here e in
          (
            r,
            at_i,
            m,
            λ j s f n.
                Above-Loses j i s r (omega (arith, index-lt routes j s f))
                  (omega (arith, index-lt routes i r at_i))
                  (v.covers (j, s) (j, omega arith, f, n)),
          )
    ]
