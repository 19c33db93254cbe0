-- ===== src/Strings.antt =====
-- The functions of Rust's `str` on separators and affixes that the routing code calls, with their laws.
pub mod Split
use plecto.Prelude.{
  ℕ, zero, suc, Bool, true, false, ◌&&◌, ◌||◌, List, [], ◌∷◌, ◌++◌, Option, none, some, Text,
  if◌then◌else◌, ◌==◌,
}

-- `s.split(c)`: the pieces between separators, at least one.
unfoldable pub cons_piece : ℕ → List Text → List Text
cons_piece x [] = (x ∷ []) ∷ []
cons_piece x (p ∷ ps) = (x ∷ p) ∷ ps

unfoldable pub split_on : ℕ → Text → List Text
split_on c [] = [] ∷ []
split_on c (x ∷ s) = let rest = split_on c s in if x == c then [] ∷ rest else cons_piece x rest

-- `pieces.join(c)`.
unfoldable pub join : ℕ → List Text → Text
join c [] = []
join c (p ∷ []) = p
join c (p ∷ q ∷ ps) = p ++ (c ∷ join c (q ∷ ps))

-- `s.split_once(c)`.
unfoldable pub cons_left : ℕ → Option (Text × Text) → Option (Text × Text)
cons_left x none = none
cons_left x (some (l, r)) = some (x ∷ l, r)

unfoldable pub split_once : ℕ → Text → Option (Text × Text)
split_once c [] = none
split_once c (x ∷ s) =
    let rest = split_once c s in if x == c then some ([], s) else cons_left x rest

-- `s.strip_prefix(p)`, `s.starts_with(p)`.
unfoldable pub strip_prefix : Text → Text → Option Text
strip_prefix [] s = some s
strip_prefix (c ∷ p) [] = none
strip_prefix (c ∷ p) (x ∷ s) = let rest = strip_prefix p s in if x == c then rest else none

unfoldable pub starts_with : Text → Text → Bool
starts_with [] s = true
starts_with (c ∷ p) [] = false
starts_with (c ∷ p) (x ∷ s) = (x == c) && starts_with p s

-- `s.ends_with(c)`, and `s.strip_suffix(c)` when it does.
unfoldable pub ends_with : ℕ → Text → Bool
ends_with c [] = false
ends_with c (x ∷ []) = x == c
ends_with c (x ∷ y ∷ s) = ends_with c (y ∷ s)

-- A list without its last element (`pop`).
unfoldable pub pop {ℓ} : {A : Type ℓ} → List A → List A
pop [] = []
pop (x ∷ []) = []
pop (x ∷ y ∷ xs) = x ∷ pop (y ∷ xs)

-- `s.contains(c)`.
unfoldable pub contains : ℕ → Text → Bool
contains c [] = false
contains c (x ∷ s) = (x == c) || contains c s
