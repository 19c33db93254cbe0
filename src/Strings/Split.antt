-- ===== src/Strings/Split.antt =====
-- Splitting and joining at a separator.
use plecto.Prelude.{
  ℕ, ◌≡◌, refl, ap, subst, ◌∙◌, inl, inr, false, List, [], ◌∷◌, ◌++◌, Option, none, some, Text,
  ◌==◌, ==_iff, All, arith, Bool-cases,
}
use plecto.Strings.{cons_piece, split_on, join, cons_left, split_once, contains}

abbrev pub Lacks : ℕ → Text → Type 0
Lacks c s = contains c s ≡ false

contains-append : (c : ℕ) (s t : Text) → Lacks c s → Lacks c t → Lacks c (s ++ t)
unfolding contains
contains-append c [] t h k = k
contains-append c (x ∷ s) t h k = elim (Bool-cases (x == c)) [
  | inl e ↦ ground (arith, e, h)
  | inr e ↦ rw e (contains-append c s t (ground (arith, e, h)) k)
]

contains-head : (c x : ℕ) (s : Text) → Lacks c (x ∷ s) → (x == c) ≡ false
unfolding contains
contains-head c x s h = ground (arith, h)

pub contains-tail : (c x : ℕ) (s : Text) → Lacks c (x ∷ s) → Lacks c s
unfolding contains
contains-tail c x s h = ground (arith, h)

cons_piece-Lacks :
    (d x : ℕ) (ps : List Text)
    → (x == d) ≡ false
    → All (Lacks d) ps
    → All (Lacks d) (cons_piece x ps)
unfolding cons_piece contains
cons_piece-Lacks d x [] e hs = (rw e refl, hs)
cons_piece-Lacks d x (p ∷ ps) e (h, hs) = (rw e h, hs)

-- The pieces of a split hold no separator, and no other byte that the text lacks.
pub split-Lacks : (c d : ℕ) (s : Text) → Lacks d s → All (Lacks d) (split_on c s)
unfolding split_on contains cons_piece
split-Lacks c d [] h = (refl, tt)
split-Lacks c d (x ∷ s) h = elim (Bool-cases (x == c)) [
  | inl e ↦ rw e (refl, split-Lacks c d s (contains-tail d x s h))
  | inr e ↦
      rw e
        (cons_piece-Lacks d x _ (contains-head d x s h) (split-Lacks c d s (contains-tail d x s h)))
]

pub split-own : (c : ℕ) (s : Text) → All (Lacks c) (split_on c s)
unfolding split_on contains cons_piece
split-own c [] = (refl, tt)
split-own c (x ∷ s) = elim (Bool-cases (x == c)) [
  | inl e ↦ rw e (refl, split-own c s)
  | inr e ↦ rw e (cons_piece-Lacks c x _ e (split-own c s))
]

pub join-Lacks :
    (c d : ℕ) (ps : List Text) → (c == d) ≡ false → All (Lacks d) ps → Lacks d (join c ps)
unfolding join contains
join-Lacks c d [] ne h = refl
join-Lacks c d (p ∷ []) ne h = h.0
join-Lacks c d (p ∷ q ∷ ps) ne (h, hs) =
    contains-append d p (c ∷ join c (q ∷ ps)) h (rw ne (join-Lacks c d (q ∷ ps) ne hs))

-- A piece without the separator, then a separator: the split takes the piece off.
split-piece : (c : ℕ) (p s : Text) → Lacks c p → split_on c (p ++ (c ∷ s)) ≡ p ∷ split_on c s
unfolding split_on contains cons_piece
split-piece c [] s h = rw ((==_iff c c).1 refl) refl
split-piece c (x ∷ p) s h = elim (Bool-cases (x == c)) [
  | inl e ↦ ground (arith, e, h)
  | inr e ↦ rw (e, split-piece c p s (ground (arith, e, h))) refl
]

split-last : (c : ℕ) (p : Text) → Lacks c p → split_on c p ≡ p ∷ []
unfolding split_on contains cons_piece
split-last c [] h = refl
split-last c (x ∷ p) h = elim (Bool-cases (x == c)) [
  | inl e ↦ ground (arith, e, h)
  | inr e ↦ rw (e, split-last c p (ground (arith, e, h))) refl
]

-- Splitting what was joined from pieces without the separator gives the pieces back.
pub split-join :
    (c : ℕ) (p : Text) (ps : List Text)
    → All (Lacks c) (p ∷ ps)
    → split_on c (join c (p ∷ ps)) ≡ p ∷ ps
unfolding join
split-join c p [] (h, hs) = split-last c p h
split-join c p (q ∷ ps) (h, hs) =
    split-piece c p (join c (q ∷ ps)) h ∙ ap (λ r. p ∷ r) (split-join c q ps hs)

pub split_once-Lacks : (c : ℕ) (s : Text) → Lacks c s → split_once c s ≡ none
unfolding split_once contains cons_left
split_once-Lacks c [] h = refl
split_once-Lacks c (x ∷ s) h = elim (Bool-cases (x == c)) [
  | inl e ↦ ground (arith, e, h)
  | inr e ↦ rw (e, split_once-Lacks c s (ground (arith, e, h))) refl
]

pub split_once-append : (c : ℕ) (l r : Text) → Lacks c l → split_once c (l ++ (c ∷ r)) ≡ some (l, r)
unfolding split_once contains cons_left
split_once-append c [] r h = rw ((==_iff c c).1 refl) refl
split_once-append c (x ∷ l) r h = elim (Bool-cases (x == c)) [
  | inl e ↦ ground (arith, e, h)
  | inr e ↦ rw (e, split_once-append c l r (ground (arith, e, h))) refl
]

abbrev left_of : Option (Text × Text) → Text
left_of none = []
left_of (some (l, r)) = l

-- What stands before the first separator has none.
pub split_once-left : (c : ℕ) (s l r : Text) → split_once c s ≡ some (l, r) → Lacks c l
unfolding split_once contains cons_left
split_once-left c [] l r h = ground (arith, h)
split_once-left c (x ∷ s) l r h = elim (Bool-cases (x == c)) [
  | inl e ↦ here (rw e at h)
  | inr e ↦ there e (split_once-left c s) (split_once c s) refl (rw e at h)
]
  where
    here : ◌≡◌ {A = Option (Text × Text)} (some ([], s)) (some (l, r)) → Lacks c l
    here k = subst (Lacks c) (ap left_of k) refl

    there :
        (x == c) ≡ false
        → ((l' r' : Text) → split_once c s ≡ some (l', r') → Lacks c l')
        → (o : Option (Text × Text)) → split_once c s ≡ o
        → cons_left x o ≡ some (l, r)
        → Lacks c l
    there e ih none k j = ground (arith, j)
    there e ih (some (l', r')) k j = subst (Lacks c) (ap left_of j) (rw e (ih l' r' k))

pub split_once-none : (c : ℕ) (s : Text) → split_once c s ≡ none → Lacks c s
unfolding split_once contains cons_left
split_once-none c [] h = refl
split_once-none c (x ∷ s) h = elim (Bool-cases (x == c)) [
  | inl e ↦ there (rw e at h)
  | inr e ↦ rw e (split_once-none c s (tail_none (split_once c s) (rw e at h)))
]
  where
    there : ◌≡◌ {A = Option (Text × Text)} (some ([], s)) none → Lacks c (x ∷ s)
    there k = ground (arith, k)

    tail_none : (o : Option (Text × Text)) → cons_left x o ≡ none → o ≡ none
    tail_none none k = refl
    tail_none (some (l, r)) k = ground (arith, k)

-- A text that starts with the separator splits off an empty piece first.
pub split_on-leading : (c : ℕ) (s : Text) → split_on c (c ∷ s) ≡ [] ∷ split_on c s
unfolding split_on
split_on-leading c s = rw ((==_iff c c).1 refl) refl
