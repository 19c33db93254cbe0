-- ===== src/Chain/Edit.antt =====
-- What a filter's edit of the headers promises.
use plecto.Prelude.{
  ◌≡◌, refl, ap, ◌∙◌, inl, inr, Bool, true, false, not, List, [], ◌∷◌, ◌++◌, text_eq_refl, filter,
  Bool-cases, arith,
}
use plecto.Route.{Header}
use plecto.Chain.{named, set_header, set_headers, is_repeatable}

pub filter-append {ℓ} :
    {A : Type ℓ} (p : A → Bool) (xs ys : List A) → filter p (xs ++ ys) ≡ filter p xs ++ filter p ys
filter-append p [] ys = refl
filter-append p (x ∷ xs) ys = elim (Bool-cases (p x)) [
  | inl e ↦ rw e (ap (λ r. x ∷ r) (filter-append p xs ys))
  | inr e ↦ rw e (filter-append p xs ys)
]

pub filter-none {ℓ} :
    {A : Type ℓ} (p q : A → Bool) (xs : List A)
    → ((x : A) → p x ≡ true → q x ≡ false)
    → filter p (filter q xs) ≡ []
filter-none p q [] h = refl
filter-none p q (x ∷ xs) h = elim (Bool-cases (q x)) [
  | inl keep ↦ elim (Bool-cases (p x)) [
    | inl e ↦ ground (arith, keep, h x e)
    | inr e ↦ rw (keep, e) (filter-none p q xs h)
  ]
  | inr gone ↦ rw gone (filter-none p q xs h)
]

-- A header that is set, unless it is repeatable, is the only one of its name in any case: no value that the
-- client or an earlier filter gave under that name is left.
pub set_headers-authoritative :
    (headers before : List Header) (h : Header)
    → is_repeatable (h.name) ≡ false
    → filter (named (h.name)) (set_headers headers (before ++ (h ∷ []))) ≡ h ∷ []
unfolding set_headers set_header
set_headers-authoritative headers [] h single = rw single (
    filter-append (named (h.name)) (filter (λ e. not (named (h.name) e)) headers) (h ∷ [])
    ∙ rw
        (
          filter-none (named (h.name)) (λ e. not (named (h.name) e)) headers (λ x e. ap not e),
          text_eq_refl _,
        )
        refl)
set_headers-authoritative headers (b ∷ before) h single =
    set_headers-authoritative (set_header headers b) before h single
