-- ===== src/Maglev/Start.antt =====
-- The state in which the rounds start: an empty table, and backends of which every one is due.
use native.Mathlib.Nat.{mod-lt}
use plecto.Prelude.{
  ℕ, zero, suc, ◌-◌, ◌≤◌, ◌<◌, ◌≡◌, refl, sym, ap, subst, ◌⊎◌, inl, inr, true, List, [], ◌∷◌,
  Option, none, Text, map, max, arith, length, replicate, All, Bool-cases, leb,
}
use plecto.Hash.{murmur3_x64_128}
use plecto.Manifest.{is_prime}
use plecto.Maglev.{Backend, backend_of, max_weight, empty_filling}
use plecto.Maglev.Probe.{Owned, IsFilling, IsSound, free}
use plecto.Maglev.Turns.{Due, weight_of}
use plecto.Maglev.Rounds.{Has}

pub two_le : (m : ℕ) → is_prime m ≡ true → 2 ≤ m
unfolding is_prime
two_le m h = ground (arith, h)

free-replicate : (m : ℕ) → free (replicate m none) ≡ m
free-replicate zero = refl
free-replicate (suc m) = ap suc (free-replicate m)

length-replicate : (m : ℕ) → length (replicate {A = Option ℕ} m none) ≡ m
length-replicate zero = refl
length-replicate (suc m) = ap suc (length-replicate m)

All-replicate : (n m : ℕ) → All (Owned n) (replicate m none)
All-replicate n zero = tt
All-replicate n (suc m) = (tt, All-replicate n m)

pub empty-IsFilling : (m n : ℕ) → IsFilling m n (empty_filling m)
empty-IsFilling m n = record {
  sized = length-replicate m;
  counted = omega (arith, free-replicate m);
  owned = All-replicate n m;
}

-- Every weight is positive, as in a manifest that is accepted.
abbrev pub Weighted : Text × ℕ → Type 0
Weighted (name, weight) = 0 < weight

backend_of-IsSound :
    (m w : ℕ) (entry : List (Option ℕ)) (e : Text × ℕ)
    → 2 ≤ m
    → Weighted e
    → e.1 ≤ w
    → IsSound m w 1 entry (backend_of m e)
unfolding backend_of
backend_of-IsSound m w entry (name, weight) two p l = record {
  offset_lt = mod-lt (murmur3_x64_128 name 0).0 (omega arith);
  skip_pos = omega arith;
  skip_lt = omega (arith, mod-lt (murmur3_x64_128 name 0).1 {m = m - 1} (omega arith));
  weight_pos = p;
  weight_le = l;
  probed = λ j h. absurd (omega arith);
  due = omega arith;
}

pub all-IsSound :
    (m w : ℕ) (entry : List (Option ℕ)) (entries : List (Text × ℕ))
    → 2 ≤ m
    → All Weighted entries
    → max_weight (map (backend_of m) entries) ≤ w
    → All (IsSound m w 1 entry) (map (backend_of m) entries)
unfolding backend_of
all-IsSound m w entry [] two p l = tt
all-IsSound m w entry (e ∷ es) two p l = (
  backend_of-IsSound m w entry e two p.0 (omega arith),
  all-IsSound m w entry es two p.1 (omega arith),
)

pub all-Due : (m : ℕ) (entries : List (Text × ℕ)) → All (Due 1) (map (backend_of m) entries)
unfolding backend_of
all-Due m [] = tt
all-Due m (e ∷ es) = (omega arith, all-Due m es)

max-cases : (a b : ℕ) → (max a b ≡ a) ⊎ (max a b ≡ b)
max-cases a b = elim (Bool-cases (leb a b)) [
  | inl le ↦ inr (ground (arith, le))
  | inr gt ↦ inl (ground (arith, gt))
]

pub Has-max : (b : Backend) (bs : List Backend) → Has (max_weight (b ∷ bs)) (map weight_of (b ∷ bs))
Has-max b [] = inl (omega arith)
Has-max b (c ∷ cs) = elim (max-cases b.weight (max_weight (c ∷ cs))) [
  | inl e ↦ inl (sym e)
  | inr e ↦ inr (subst (λ w. Has w (map weight_of (c ∷ cs))) (sym e) (Has-max c cs))
]
