-- ===== src/Maglev/Probe.antt =====
-- A backend finds a free slot, and takes it.
use native.Mathlib.Nat.{mod-eq_of_lt, mod-lt}
use plecto.Prelude.{
  ℕ, zero, suc, ◌+◌, ◌*◌, ◌%◌, ◌^◌, ◌≤◌, ◌<◌, ◌≡◌, refl, sym, ◌∙◌, ap, subst, true, List, [], ◌∷◌,
  Option, none, some, arith, length, get_or, set, All, get_or-set, Bool-cases, Option-cases, inl,
  inr, ◌==◌, ==_iff, u64_mod,
}
use plecto.Maglev.{Backend, Filling, slot, is_taken, probe}
use plecto.Maglev.Inverse.{Indivisible, permutation_onto}

abbrev pub free : List (Option ℕ) → ℕ
free [] = 0
free (none ∷ es) = suc (free es)
free (some i ∷ es) = free es

abbrev pub Owned : ℕ → Option ℕ → Type 0
Owned n none = Unit
Owned n (some i) = i < n

abbrev pub Taken : List (Option ℕ) → ℕ → Type 0
Taken entry c = is_taken (get_or entry c none) ≡ true

-- Every slot that one filling gives to a backend, the other gives to it too.
abbrev pub Extends : List (Option ℕ) → List (Option ℕ) → Type 0
Extends entry entry' = (c i : ℕ) → get_or entry c none ≡ some i → get_or entry' c none ≡ some i

pub Taken-Extends :
    (entry entry' : List (Option ℕ)) (c : ℕ) → Extends entry entry' → Taken entry c → Taken entry' c
Taken-Extends entry entry' c grows h = by_owner (get_or entry c none) refl
  where
    by_owner : (o : Option ℕ) → get_or entry c none ≡ o → Taken entry' c
    by_owner none e = ground (arith, h, e)
    by_owner (some i) e = rw (grows c i e) refl

-- A filling of `m` slots for `n` backends.
pub record IsFilling (m n : ℕ) (f : Filling) : Type 0 where
  pub sized : length f.entry ≡ m
  pub counted : f.filled + free f.entry ≡ m
  pub owned : All (Owned n) f.entry

-- A backend whose places before the next are all taken, as it stands before round `round`.
pub record IsSound (m max_w round : ℕ) (entry : List (Option ℕ)) (b : Backend) : Type 0 where
  pub offset_lt : b.offset < m
  pub skip_pos : 0 < b.skip
  pub skip_lt : b.skip < m
  pub weight_pos : 0 < b.weight
  pub weight_le : b.weight ≤ max_w
  pub probed : (j : ℕ) → j < b.next → Taken entry (slot m b j)
  pub due : b.target ≤ round * max_w

pub free_slot :
    (entry : List (Option ℕ))
    → 0 < free entry
    → (c : ℕ) × (c < length entry) × (get_or entry c none ≡ none)
free_slot [] h = absurd (omega arith)
free_slot (none ∷ es) h = (0, omega arith, refl)
free_slot (some i ∷ es) h = let (c, l, e) = free_slot es h in (suc c, omega arith, e)

pub free-set :
    (entry : List (Option ℕ)) (c i : ℕ)
    → c < length entry
    → get_or entry c none ≡ none
    → suc (free (set entry c (some i))) ≡ free entry
free-set [] c i l e = absurd (omega arith)
free-set (none ∷ es) zero i l e = refl
free-set (some k ∷ es) zero i l e = cc
free-set (none ∷ es) (suc c) i l e = ap suc (free-set es c i (omega arith) e)
free-set (some k ∷ es) (suc c) i l e = free-set es c i (omega arith) e

pub one_more :
    (m : ℕ) (entry : List (Option ℕ)) (b : Backend) (n i : ℕ)
    → ((j : ℕ) → j < n → Taken entry (slot m b j))
    → get_or entry (slot m b n) none ≡ some i
    → (j : ℕ) → j < n + 1
    → Taken entry (slot m b j)
one_more m entry b n i before e j l = elim (Bool-cases (j == n)) [
  | inl same ↦ rw ((==_iff j n).0 same, e) refl
  | inr other ↦ before j (ground arith)
]

-- The loop stops at a free slot if there is one within its reach, past slots that are all taken.
pub probe-free :
    (m : ℕ) (entry : List (Option ℕ)) (b : Backend) (target fuel n : ℕ)
    → ((j : ℕ) → j < n → Taken entry (slot m b j))
    → get_or entry (slot m b target) none ≡ none
    → target < n + fuel
    → (get_or entry (slot m b (probe fuel m entry b n)) none ≡ none)
      × ((j : ℕ) → j < probe fuel m entry b n → Taken entry (slot m b j))
unfolding probe
probe-free m entry b target zero n before open_ h = ground (arith, before target, open_)
probe-free m entry b target (suc fuel) n before open_ h =
    elim (Option-cases (get_or entry (slot m b n) none)) [
      | inl e ↦ rw e (e, before)
      | inr (i, e) ↦ rw e (
          probe-free m entry b target fuel (n + 1) (one_more m entry b n i before e) open_
            (omega arith))
    ]

product_small : (n s m : ℕ) → n < m → s < m → m ≤ 2 ^ 32 → n * s < u64_mod
product_small n s m h l k = grind (arith, square)
  where
    square : m * m ≤ 2 ^ 32 * 2 ^ 32
    square = grind arith

-- Below the prime, the product of the place and the skip does not wrap.
pub slot-onto :
    (m : ℕ) (b : Backend) (c : ℕ)
    → Indivisible m
    → m ≤ 2 ^ 32
    → b.offset < m
    → 0 < b.skip
    → b.skip < m
    → c < m
    → (j : ℕ) × (j < m) × (slot m b j ≡ c)
slot-onto m b c prime small o p l h =
    let (j, j_lt, e) = permutation_onto m b.offset b.skip c prime p l o h in
    (
      j,
      j_lt,
      ap (λ x. (b.offset + x) % m) (mod-eq_of_lt (product_small j b.skip m j_lt l small)) ∙ e,
    )

pub slot-lt : (m : ℕ) (b : Backend) (k : ℕ) → 0 < m → slot m b k < m
slot-lt m b k p = mod-lt (b.offset + k * b.skip % u64_mod) p

pub Extends-set :
    (entry : List (Option ℕ)) (c i : ℕ)
    → c < length entry
    → get_or entry c none ≡ none
    → Extends entry (set entry c (some i))
Extends-set entry c i l open_ d k e =
    get_or-set entry c d (some i) none l ∙ (elim (Bool-cases (c == d)) [
      | inl same ↦
          let shut : get_or entry c none ≡ some k =
            subst (λ x. get_or entry x none ≡ some k) (sym ((==_iff c d).0 same)) e in
          cc
      | inr other ↦ rw other e
    ])

pub IsSound-later :
    {m max_w round : ℕ} {entry entry' : List (Option ℕ)} {b : Backend} (round' : ℕ)
    → round ≤ round'
    → Extends entry entry'
    → IsSound m max_w round entry b
    → IsSound m max_w round' entry' b
IsSound-later {entry} {entry'} {b} round' h grows s = record {
  offset_lt = s.offset_lt;
  skip_pos = s.skip_pos;
  skip_lt = s.skip_lt;
  weight_pos = s.weight_pos;
  weight_le = s.weight_le;
  probed = λ j l. Taken-Extends entry entry' _ grows (s.probed j l);
  due = grind (arith, s.due);
}
