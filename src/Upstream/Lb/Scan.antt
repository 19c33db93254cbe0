-- ===== src/Upstream/Lb/Scan.antt =====
-- The two passes over a group's instances against indexing its eligible instances.
use plecto.Prelude.{
  ℕ, zero, suc, ◌+◌, ◌<◌, ◌≡◌, refl, ◌∙◌, Bool, true, false, List, [], ◌∷◌, Option, none, some,
  arith, length, get_elem?, filter, any, find, Bool-cases, inl, inr, ◌⊎◌, if◌then◌else◌, ◌==◌, ltb,
  ap₂,
}
use plecto.Upstream.Lb.{rr_scan, capture}

-- The pointer stands in the list.
abbrev pub Among : ℕ → List ℕ → Type 0
Among p [] = ⊥
Among p (q ∷ qs) = (p ≡ q) ⊎ Among p qs

pub get_elem?-Among : (qs : List ℕ) (k p : ℕ) → get_elem? qs k ≡ some p → Among p qs
get_elem?-Among [] k p e = cc
get_elem?-Among (q ∷ qs) zero p e = inl (ground arith)
get_elem?-Among (q ∷ qs) (suc k) p e = inr (get_elem?-Among qs k p e)

pub rr_scan-eq :
    (eligible : ℕ → Bool) (target k seen : ℕ) (last : Option ℕ) (ps : List ℕ)
    → target ≡ seen + k
    → k < length (filter eligible ps)
    → rr_scan eligible target seen last ps ≡ get_elem? (filter eligible ps) k
unfolding rr_scan
rr_scan-eq eligible target k seen last [] t h = absurd (omega arith)
rr_scan-eq eligible target zero seen last (p ∷ ps) t h =
    ground (arith, rr_scan-eq eligible target 0 seen last ps t)
rr_scan-eq eligible target (suc k) seen last (p ∷ ps) t h = ground (
  arith,
  rr_scan-eq eligible target k (seen + 1) (some p) ps,
  rr_scan-eq eligible target (suc k) seen last ps t,
)

rr_scan-last :
    (eligible : ℕ → Bool) (target seen q : ℕ) (ps : List ℕ)
    → (p : ℕ) × (rr_scan eligible target seen (some q) ps ≡ some p)
unfolding rr_scan
rr_scan-last eligible target seen q [] = (q, refl)
rr_scan-last eligible target seen q (p ∷ ps) = elim (Bool-cases (eligible p)) [
  | inr e ↦ rw (e, rr_scan) (rr_scan-last eligible target seen q ps)
  | inl e ↦ elim (Bool-cases (seen == target)) [
    | inl t ↦ rw (e, rr_scan) (rw (t, rr_scan) (p, refl))
    | inr t ↦ rw (e, rr_scan) (rw (t, rr_scan) (rr_scan-last eligible target (seen + 1) p ps))
  ]
]

-- If fewer are eligible than the first pass counted, the scan still finds one if there is one.
pub rr_scan-some :
    (eligible : ℕ → Bool) (target seen : ℕ) (last : Option ℕ) (ps : List ℕ)
    → any eligible ps ≡ true
    → (p : ℕ) × (rr_scan eligible target seen last ps ≡ some p)
unfolding rr_scan
rr_scan-some eligible target seen last [] h = cc
rr_scan-some eligible target seen last (p ∷ ps) h = elim (Bool-cases (eligible p)) [
  | inr e ↦ rw (e, rr_scan) (rr_scan-some eligible target seen last ps (ground arith))
  | inl e ↦ elim (Bool-cases (seen == target)) [
    | inl t ↦ rw (e, rr_scan) (rw (t, rr_scan) (p, refl))
    | inr t ↦ rw (e, rr_scan) (rw (t, rr_scan) (rr_scan-last eligible target (seen + 1) p ps))
  ]
]

-- What the scan finds is eligible in the scan's own sight and in the list, or is the last one seen.
pub rr_scan_sound :
    (eligible : ℕ → Bool) (target seen : ℕ) (last : Option ℕ) (ps : List ℕ) (p : ℕ)
    → rr_scan eligible target seen last ps ≡ some p
    → (last ≡ some p) ⊎ ((eligible p ≡ true) × Among p ps)
unfolding rr_scan
rr_scan_sound eligible target seen last [] p h = inl h
rr_scan_sound eligible target seen last (q ∷ qs) p h = ground (
  arith,
  rr_scan_sound eligible target seen last qs p,
  rr_scan_sound eligible target (seen + 1) (some q) qs p,
)

pub get_elem?-filter :
    (eligible : ℕ → Bool) (ps : List ℕ) (k p : ℕ)
    → get_elem? (filter eligible ps) k ≡ some p
    → (eligible p ≡ true) × Among p ps
get_elem?-filter eligible [] k p h = cc
get_elem?-filter eligible (q ∷ qs) zero p h = ground (arith, get_elem?-filter eligible qs 0 p)
get_elem?-filter eligible (q ∷ qs) (suc k) p h =
    ground (arith, get_elem?-filter eligible qs k p, get_elem?-filter eligible qs (suc k) p)

pub find_first :
    (eligible : ℕ → Bool) (ps : List ℕ) → find eligible ps ≡ get_elem? (filter eligible ps) 0
find_first eligible [] = refl
find_first eligible (p ∷ ps) = ground (arith, find_first eligible ps)

pub get_elem?-some {ℓ} :
    {A : Type ℓ} (xs : List A) (k : ℕ) → k < length xs → (a : A) × (get_elem? xs k ≡ some a)
get_elem?-some [] k h = absurd (omega arith)
get_elem?-some (x ∷ xs) zero h = (x, refl)
get_elem?-some (x ∷ xs) (suc k) h = get_elem?-some xs k (omega arith)

pub any-filter :
    (eligible : ℕ → Bool) (ps : List ℕ) → any eligible ps ≡ ltb 0 (length (filter eligible ps))
any-filter eligible [] = refl
any-filter eligible (p ∷ ps) = ground (arith, any-filter eligible ps)

-- `capture` follows its two ordinals independently.
capture_one : (ℕ → Bool) → ℕ → ℕ → Option ℕ → List ℕ → Option ℕ
capture_one eligible k seen cand [] = cand
capture_one eligible k seen cand (p ∷ ps) = elim (eligible p) [
  | true ↦ capture_one eligible k (seen + 1) (if seen == k then some p else cand) ps
  | false ↦ capture_one eligible k seen cand ps
]

capture-pair :
    (eligible : ℕ → Bool) (lo hi seen : ℕ) (cl ch : Option ℕ) (ps : List ℕ)
    → capture eligible lo hi seen cl ch ps
      ≡ (capture_one eligible lo seen cl ps, capture_one eligible hi seen ch ps)
unfolding capture capture_one
capture-pair eligible lo hi seen cl ch [] = refl
capture-pair eligible lo hi seen cl ch (p ∷ ps) = elim (Bool-cases (eligible p)) [
  | inl e ↦ rw (e, capture, capture_one) (capture-pair eligible lo hi (seen + 1) _ _ ps)
  | inr e ↦ rw (e, capture, capture_one) (capture-pair eligible lo hi seen cl ch ps)
]

capture_one-past :
    (eligible : ℕ → Bool) (k seen : ℕ) (cand : Option ℕ) (ps : List ℕ)
    → k < seen
    → capture_one eligible k seen cand ps ≡ cand
unfolding capture_one
capture_one-past eligible k seen cand [] h = refl
capture_one-past eligible k seen cand (p ∷ ps) h = ground (
  arith,
  capture_one-past eligible k (seen + 1) cand ps,
  capture_one-past eligible k seen cand ps h,
)

capture_one-eq :
    (eligible : ℕ → Bool) (target k seen : ℕ) (cand : Option ℕ) (ps : List ℕ)
    → target ≡ seen + k
    → k < length (filter eligible ps)
    → capture_one eligible target seen cand ps ≡ get_elem? (filter eligible ps) k
unfolding capture_one
capture_one-eq eligible target k seen cand [] t h = absurd (omega arith)
capture_one-eq eligible target zero seen cand (p ∷ ps) t h = ground (
  arith,
  capture_one-past eligible target (seen + 1) (some p) ps,
  capture_one-eq eligible target 0 seen cand ps t,
)
capture_one-eq eligible target (suc k) seen cand (p ∷ ps) t h = ground (
  arith,
  capture_one-eq eligible target k (seen + 1) cand ps,
  capture_one-eq eligible target (suc k) seen cand ps t,
)

pub capture-eq :
    (eligible : ℕ → Bool) (lo hi : ℕ) (ps : List ℕ)
    → lo < length (filter eligible ps)
    → hi < length (filter eligible ps)
    → capture eligible lo hi 0 none none ps
      ≡ (get_elem? (filter eligible ps) lo, get_elem? (filter eligible ps) hi)
capture-eq eligible lo hi ps l h =
    capture-pair eligible lo hi 0 none none ps
    ∙ ap₂ (λ (a b : Option ℕ). (a, b)) (capture_one-eq eligible lo lo 0 none ps (omega arith) l)
        (capture_one-eq eligible hi hi 0 none ps (omega arith) h)
