-- ===== src/Weighted/Skip.antt =====
-- The walk forward from a backend that cannot serve.
use mathlib.Core.Bool.{false≢true}
use native.Mathlib.Decide.{dec_le}
use plecto.Prelude.{
  ℕ, zero, suc, ◌+◌, ◌-◌, ◌%◌, ◌≤◌, ◌<◌, ◌≡◌, sym, ◌∙◌, ap, subst, true, false, List, [], ◌∷◌, some,
  arith, length, get_or, get_elem?, any, Bool-cases, Option-cases, inl, inr, ◌==◌, ==_iff,
}
use plecto.Upstream.{Heap}
use plecto.Upstream.Lb.{has_eligible}
use plecto.Upstream.Lb.Scan.{Among, get_elem?-Among}
use plecto.Weighted.{WeightedBackends, skip_forward, backend_eligible}
use plecto.Weighted.Apportioned.{count}

backend_eligible-some :
    (h : Heap) (clock : ℕ) (groups : List ℕ) (j : ℕ)
    → backend_eligible h clock groups j ≡ true
    → (g : ℕ) × (get_elem? groups j ≡ some g) × (has_eligible h (h.group_at g) clock ≡ true)
unfolding backend_eligible
backend_eligible-some h clock groups j e = elim (Option-cases (get_elem? groups j)) [
  | inl z ↦ absurd (ground arith)
  | inr (g, z) ↦ (g, z, ground arith)
]

pub skip_forward_sound :
    (h : Heap) (clock : ℕ) (w : WeightedBackends) (start off n g : ℕ)
    → skip_forward h clock w start off n ≡ some g
    → (has_eligible h (h.group_at g) clock ≡ true) × Among g w.groups
unfolding skip_forward
skip_forward_sound h clock w start off zero g e = cc
skip_forward_sound h clock w start off (suc n) g e =
    elim (Bool-cases (backend_eligible h clock w.groups backend)) [
      | inl t ↦
          let (k, f, s) = backend_eligible-some h clock w.groups backend t in
          ground (arith, f, s, get_elem?-Among w.groups backend g)
      | inr t ↦ skip_forward_sound h clock w start (suc off) n g (rw t at e)
    ]
  where
    backend : ℕ
    backend = get_or w.table ((start + off) % length w.table) 0

-- The group that serves: that of an entry `m` places on, whose backend is eligible, while those of the
-- places before it are not.
abbrev pub FirstFrom : Heap → ℕ → WeightedBackends → ℕ → ℕ → ℕ → ℕ → Type 0
FirstFrom h clock w start off g m =
    (get_elem? w.groups (get_or w.table ((start + m) % length w.table) 0) ≡ some g)
    × (has_eligible h (h.group_at g) clock ≡ true)
    × ((k : ℕ)
        → off ≤ k
        → k < m
        → backend_eligible h clock w.groups (get_or w.table ((start + k) % length w.table) 0)
          ≡ false)

pub skip_forward_first :
    (h : Heap) (clock : ℕ) (w : WeightedBackends) (start off n g : ℕ)
    → skip_forward h clock w start off n ≡ some g
    → (m : ℕ) × (off ≤ m) × (m < off + n) × FirstFrom h clock w start off g m
unfolding skip_forward
skip_forward_first h clock w start off zero g e = cc
skip_forward_first h clock w start off (suc n) g e =
    elim (Bool-cases (backend_eligible h clock w.groups (backend off))) [
      | inl t ↦
          let (k, f, s) = backend_eligible-some h clock w.groups (backend off) t in
          let same : k ≡ g = some_injective (sym f ∙ (rw t at e)) in
          (
            off,
            omega arith,
            omega arith,
            (rw (← same) f, rw (← same) s, λ j l u. absurd (omega (arith, l, u))),
          )
      | inr t ↦
          let (m, l, u, (here, able, before)) =
            skip_forward_first h clock w start (suc off) n g (rw t at e) in
          (
            m,
            omega (arith, l),
            omega (arith, u),
            (
              here,
              able,
              λ j low high. elim (Bool-cases (off == j)) [
                | inl s ↦
                    subst (λ x. backend_eligible h clock w.groups (backend x) ≡ false)
                      ((==_iff off j).0 s) t
                | inr s ↦ before j (ground (arith, s, low)) high
              ],
            ),
          )
    ]
  where
    backend : ℕ → ℕ
    backend k = get_or w.table ((start + k) % length w.table) 0

    some_injective : {a b : ℕ} → some a ≡ some b → a ≡ b
    some_injective f = cc

pub skip_forward_complete :
    (h : Heap) (clock : ℕ) (w : WeightedBackends) (start off n m : ℕ)
    → off ≤ m
    → m < off + n
    → backend_eligible h clock w.groups (get_or w.table ((start + m) % length w.table) 0) ≡ true
    → (g : ℕ) × (skip_forward h clock w start off n ≡ some g)
unfolding skip_forward
skip_forward_complete h clock w start off zero m l u e = absurd (omega arith)
skip_forward_complete h clock w start off (suc n) m l u e =
    elim (Bool-cases (backend_eligible h clock w.groups backend)) [
      | inl t ↦ let (g, f, _) = backend_eligible-some h clock w.groups backend t in rw t (g, f)
      | inr t ↦ rw t (
          skip_forward_complete h clock w start (suc off) n m
            (elim (Bool-cases (off == m)) [
              | inl s ↦ absurd (false≢true (sym t ∙ (rw (← (==_iff off m).0 s) at e)))
              | inr s ↦ ground arith
            ])
            (omega arith) e)
    ]
  where
    backend : ℕ
    backend = get_or w.table ((start + off) % length w.table) 0

-- A backend that a table counts stands somewhere in it.
pub count-position :
    (j : ℕ) (table : List ℕ)
    → 0 < count j table
    → (p : ℕ) × (p < length table) × (get_or table p 0 ≡ j)
count-position j [] h = absurd (omega arith)
count-position j (b ∷ bs) h = elim (Bool-cases (b == j)) [
  | inl e ↦ (0, omega arith, (==_iff b j).0 e)
  | inr e ↦ let (p, l, f) = count-position j bs (ground arith) in (suc p, omega arith, f)
]

mod_wrap : (p len : ℕ) → p < len → (p + len) % len ≡ p
mod_wrap p len h = grind arith

-- Every place of the table is some steps forward from the start.
pub reach_place :
    (start p len : ℕ) → start < len → p < len → (m : ℕ) × (m < len) × ((start + m) % len ≡ p)
reach_place start p len s l = elim (dec_le start p) [
  | yes h ↦ (p - start, omega arith, grind arith)
  | no h ↦ (
    p + len - start,
    omega arith,
    ap (λ n. n % len) (let e : start + (p + len - start) ≡ p + len = omega arith in e)
        ∙ mod_wrap p len l,
  )
]

pub eligible_index :
    (h : Heap) (clock : ℕ) (groups : List ℕ)
    → any (λ g. has_eligible h (h.group_at g) clock) groups ≡ true
    → (j : ℕ) × (j < length groups) × (backend_eligible h clock groups j ≡ true)
unfolding backend_eligible
eligible_index h clock [] e = absurd (false≢true e)
eligible_index h clock (g ∷ gs) e = elim (Bool-cases (has_eligible h (h.group_at g) clock)) [
  | inl t ↦ (0, omega arith, t)
  | inr t ↦ let (j, l, f) = eligible_index h clock gs (ground arith) in (suc j, omega arith, f)
]
