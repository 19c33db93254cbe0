-- ===== src/Route/Normalize.antt =====
-- The paths that `normalize_path` accepts.
use plecto.Prelude.{
  ℕ, suc, ◌≡◌, refl, sym, subst, ap, inl, inr, true, false, ◌||◌, List, [], ◌∷◌, ◌++◌, Option, none,
  some, Text, text_eq, All, arith, Bool-cases, any, length, leb, if◌then◌else◌,
}
use plecto.Strings.{split_on, split_once, starts_with, join, pop, contains}
use plecto.Strings.Split.{
  Lacks, split-Lacks, split-own, split-join, join-Lacks, split_once-Lacks, split_once-append,
  split_once-left, split_once-none, split_on-leading, contains-tail,
}
use plecto.Route.{
  dot, dot_dot, resolve, or_root, with_query, query_parts, split_query, rejoin, normalize_origin,
  normalize_path, is_forbidden, contains_encoded_separator,
}

-- A segment that no reader of the path resolves: neither `.` nor `..`.
abbrev pub Plain : Text → Type 0
Plain s = (text_eq s dot ≡ false) × (text_eq s dot_dot ≡ false)

-- A segment as the split gives it, and as `resolve` keeps it.
abbrev Piece : Text → Type 0
Piece s = Lacks b'/' s × Lacks b'?' s

abbrev Kept : Text → Type 0
Kept s = Plain s × Lacks b'/' s × Lacks b'?' s

module _ {ℓ κ} {A : Type ℓ} (P : A → Type κ) where
  All-snoc : (xs : List A) (x : A) → All P xs → P x → All P (xs ++ (x ∷ []))
  All-snoc [] x h p = (p, tt)
  All-snoc (y ∷ ys) x (h, hs) p = (h, All-snoc ys x hs p)

  All-pop : (xs : List A) → All P xs → All P (pop xs)
  unfolding pop
  All-pop [] h = tt
  All-pop (x ∷ []) h = tt
  All-pop (x ∷ y ∷ xs) (h, hs) = (h, All-pop (y ∷ xs) hs)

module _ {ℓ κ} {A : Type ℓ} {P Q : A → Type κ} (f : (a : A) → P a → Q a) where
  All-map : (xs : List A) → All P xs → All Q xs
  All-map [] h = tt
  All-map (x ∷ xs) (h, hs) = (f x h, All-map xs hs)

All-both : (xs : List Text) → All (Lacks b'/') xs → All (Lacks b'?') xs → All Piece xs
All-both [] h k = tt
All-both (x ∷ xs) (h, hs) (k, ks) = ((h, k), All-both xs hs ks)

-- `resolve` keeps the root below the segments it keeps.
resolve-Kept :
    (out segs res : List Text)
    → All Kept out
    → All Piece segs
    → resolve ([] ∷ out) segs ≡ some res
    → (kept : List Text) × (res ≡ [] ∷ kept) × All Kept kept
unfolding resolve pop
resolve-Kept out [] res h k e = (out, ground (arith, e), h)
resolve-Kept out (seg ∷ segs) res h (k, ks) e = elim (Bool-cases (text_eq seg dot)) [
  | inl is_dot ↦ resolve-Kept out segs res h ks (rw is_dot at e)
  | inr not_dot ↦ elim (Bool-cases (text_eq seg dot_dot)) [
    | inr plain ↦
        resolve-Kept (out ++ (seg ∷ [])) segs res
          (All-snoc Kept out seg h ((not_dot, plain), k.0, k.1)) ks (rw (not_dot, plain) at e)
    | inl is_up ↦ up out h (λ o g. resolve-Kept o segs res g ks) (rw (not_dot, is_up) at e)
  ]
]
  where
    up :
        (o : List Text)
        → All Kept o
        → ((o' : List Text)
            → All Kept o'
            → resolve ([] ∷ o') segs ≡ some res
            → (kept : List Text) × (res ≡ [] ∷ kept) × All Kept kept)
        → (if◌then◌else◌ (leb (length ([] ∷ o)) 1) none (resolve (pop ([] ∷ o)) segs)) ≡ some res
        → (kept : List Text) × (res ≡ [] ∷ kept) × All Kept kept
    up [] g ih d = ground (arith, d)
    up (x ∷ xs) g ih d = ih (pop (x ∷ xs)) (All-pop Kept (x ∷ xs) g) (rw (deep (length xs)) at d)
      where
        deep : (n : ℕ) → leb (suc (suc n)) 1 ≡ false
        deep n = ground arith

-- What the theorem says of the normalized target: its path is absolute and holds plain segments only, and
-- its query is the one that came.
Safe : Option Text → Text → Type 0
Safe query p =
    (starts_with (b'/' ∷ []) (split_query p).0 ≡ true)
    × All Plain (split_on b'/' (split_query p).0)
    × ((split_query p).1 ≡ query)

split_with_query :
    (path : Text) (query : Option Text)
    → Lacks b'?' path
    → split_query (with_query query path) ≡ (path, query)
unfolding split_query query_parts
split_with_query path none h = rw (split_once-Lacks b'?' path h) refl
split_with_query path (some q) h = rw (split_once-append b'?' path q h) refl

slash_leads : (s : Text) → starts_with (b'/' ∷ []) (b'/' ∷ s) ≡ true
unfolding starts_with
slash_leads s = refl

Safe-path :
    (query : Option Text) (s : Text)
    → Lacks b'?' (b'/' ∷ s)
    → All Plain (split_on b'/' (b'/' ∷ s))
    → Safe query (with_query query (b'/' ∷ s))
unfolding Safe
Safe-path query s none_in plain =
    subst
      (λ t. (starts_with (b'/' ∷ []) t.0 ≡ true) × All Plain (split_on b'/' t.0) × (t.1 ≡ query))
      (sym (split_with_query (b'/' ∷ s) query none_in)) (slash_leads s, plain, refl)

root-Plain : All Plain (split_on b'/' (b'/' ∷ []))
unfolding split_on
root-Plain = ((refl, refl), ((refl, refl), tt))

-- The path of the kept segments below the root.
rooted-Safe :
    (query : Option Text) (kept : List Text)
    → All Kept kept
    → Safe query (with_query query (or_root (join b'/' ([] ∷ kept))))
unfolding join contains
rooted-Safe query [] h = Safe-path query [] refl root-Plain
rooted-Safe query (k ∷ ks) h = Safe-path query (join b'/' (k ∷ ks)) none_in (
    subst (All Plain) (sym (split-join b'/' [] (k ∷ ks) (refl, All-map (λ s p. p.1) (k ∷ ks) h)))
      ((refl, refl), All-map (λ s p. p.0) (k ∷ ks) h))
  where
    none_in : Lacks b'?' (b'/' ∷ join b'/' (k ∷ ks))
    none_in = join-Lacks b'/' b'?' ([] ∷ k ∷ ks) refl (refl, All-map (λ s p. p.2) (k ∷ ks) h)

query_parts-Lacks :
    (target : Text) (o : Option (Text × Text))
    → split_once b'?' target ≡ o
    → Lacks b'?' (query_parts target o).0
unfolding query_parts
query_parts-Lacks target none e = split_once-none b'?' target e
query_parts-Lacks target (some (l, r)) e = split_once-left b'?' target l r e

split_query-Lacks : (target : Text) → Lacks b'?' (split_query target).0
unfolding split_query
split_query-Lacks target = query_parts-Lacks target (split_once b'?' target) refl

some_inj : (a b : Text) → some a ≡ some b → a ≡ b
some_inj a b e = ap or_else e
  where
    or_else : Option Text → Text
    or_else none = a
    or_else (some x) = x

rejoined-Safe :
    (query : Option Text) (segs : List Text) (p : Text)
    → All Piece segs
    → rejoin query (resolve ([] ∷ []) segs) ≡ some p
    → Safe query p
unfolding rejoin
rejoined-Safe query segs p k e = go (resolve ([] ∷ []) segs) refl e
  where
    go :
        (o : Option (List Text))
        → resolve ([] ∷ []) segs ≡ o
        → rejoin query o ≡ some p
        → Safe query p
    go none h d = ground (arith, d)
    go (some res) h d =
        let (kept, root, clean) = resolve-Kept [] segs res tt k h in
        subst (Safe query) (some_inj _ p (rw root at d)) (rooted-Safe query kept clean)

resolve_root :
    (x : ℕ) (s : Text)
    → x ≡ b'/'
    → resolve [] (split_on b'/' (x ∷ s)) ≡ resolve ([] ∷ []) (split_on b'/' s)
unfolding resolve
resolve_root x s e = rw (e, split_on-leading b'/' s) refl

origin-Safe :
    (raw : Text) (query : Option Text) (p : Text)
    → Lacks b'?' raw
    → starts_with (b'/' ∷ []) raw ≡ true
    → normalize_origin raw query ≡ some p
    → Safe query p
unfolding normalize_origin starts_with
origin-Safe [] query p none_in absolute e = ground (arith, absolute)
origin-Safe (x ∷ s) query p none_in absolute e =
    elim (Bool-cases (any is_forbidden (x ∷ s) || contains_encoded_separator (x ∷ s))) [
      | inl bad ↦ ground (arith, rw bad at e)
      | inr good ↦
          rejoined-Safe query (split_on b'/' s) p pieces (rw (good, resolve_root x s slash) at e)
    ]
  where
    slash : x ≡ b'/'
    slash = ground (arith, absolute)

    pieces : All Piece (split_on b'/' s)
    pieces =
        All-both _ (split-own b'/' s) (split-Lacks b'/' b'?' s (contains-tail b'?' x s none_in))

-- A target with an absolute path that is normalized has an absolute path again, without a `.` or a `..`
-- segment, and the same query.
pub normalize_path-Safe :
    (target p : Text)
    → starts_with (b'/' ∷ []) (split_query target).0 ≡ true
    → normalize_path target ≡ some p
    → (starts_with (b'/' ∷ []) (split_query p).0 ≡ true)
      × All Plain (split_on b'/' (split_query p).0)
      × ((split_query p).1 ≡ (split_query target).1)
unfolding normalize_path Safe
normalize_path-Safe target p absolute e =
    origin-Safe (split_query target).0 (split_query target).1 p (split_query-Lacks target) absolute
      (rw absolute at e)
