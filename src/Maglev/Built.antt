-- ===== src/Maglev/Built.antt =====
-- The table that `build` makes.
use native.Mathlib.Nat.{mod-lt}
use plecto.Prelude.{
  ℕ, zero, suc, ◌-◌, ◌%◌, ◌^◌, ◌≤◌, ◌<◌, ◌≡◌, refl, sym, ◌∙◌, ap, subst, true, List, [], ◌∷◌,
  Option, none, some, Text, map, max, arith, length, length-map, get_or, get_elem?, All,
}
use plecto.Manifest.{is_prime}
use plecto.Manifest.Prime.{prime-Indivisible}
use plecto.Maglev.{
  Backend, Filling, backend_of, fill, max_weight, as_u16, empty_filling, build, lookup,
}
use plecto.Maglev.Inverse.{Indivisible}
use plecto.Maglev.Probe.{Owned, IsSound, free}
use plecto.Maglev.Turns.{Due, Served, weight_of}
use plecto.Maglev.Rounds.{Has, IsFull, Ready, fill-IsFull, fill-Served}
use plecto.Maglev.Start.{two_le, empty-IsFilling, Weighted, all-IsSound, all-Due, Has-max}

-- The owners of a table without a free slot.
owners :
    (n : ℕ) (entry : List (Option ℕ))
    → n ≤ 65536
    → All (Owned n) entry
    → free entry ≡ 0
    → All (λ i. i < n) (map as_u16 entry)
owners n [] u o e = tt
owners n (none ∷ es) u o e = absurd (omega arith)
owners n (some i ∷ es) u o e = (omega arith, owners n es u o.1 e)

get_elem?-owner :
    (n k : ℕ) (entry : List (Option ℕ)) (c : ℕ)
    → n ≤ 65536
    → k < n
    → get_or entry c none ≡ some k
    → get_elem? (map as_u16 entry) c ≡ some k
get_elem?-owner n k [] c u h e = cc
get_elem?-owner n k (none ∷ es) zero u h e = cc
get_elem?-owner n k (some i ∷ es) zero u h e =
    let same : i ≡ k = cc in ap some (omega (arith, same))
get_elem?-owner n k (o ∷ es) (suc c) u h e = get_elem?-owner n k es c u h e

module _ (m : ℕ) (e : Text × ℕ) (es : List (Text × ℕ)) (found : is_prime m ≡ true)
    (small : m ≤ 2 ^ 32) (weighted : All Weighted (e ∷ es)) (room : length (e ∷ es) ≤ m)
    (in_u16 : length (e ∷ es) ≤ 65535) where
  bs : List Backend
  bs = map (backend_of m) (e ∷ es)

  abbrev n : ℕ
  n = length (e ∷ es)

  max_w : ℕ
  max_w = max (max_weight bs) 1

  max_w-eq : max_w ≡ max_weight bs
  unfolding max_w bs backend_of
  max_w-eq = omega (arith, weighted.0)

  prime : Indivisible m
  prime d two lt = prime-Indivisible m d found two lt

  sound : All (IsSound m max_w 1 (empty_filling m).entry) bs
  unfolding bs
  sound =
      all-IsSound m max_w (empty_filling m).entry (e ∷ es) (two_le m found) weighted
        (omega (arith, max_w-eq))

  has : Has max_w (map weight_of bs)
  unfolding bs
  has =
      subst (λ w. Has w (map weight_of bs)) (sym max_w-eq)
        (Has-max (backend_of m e) (map (backend_of m) es))

  length-bs : length bs ≡ n
  unfolding bs
  length-bs = length-map (backend_of m) (e ∷ es)

  filling : Filling
  filling = fill m m max_w 0 bs (empty_filling m)

  ready : Ready m n max_w m 0 bs (empty_filling m)
  ready = record {
    fits = omega (arith, length-bs);
    has = has;
    filling = empty-IsFilling m n;
    sound = sound;
    enough = omega arith;
  }

  full : IsFull m n (empty_filling m) filling
  unfolding filling
  full = fill-IsFull m n max_w prime small m 0 bs (empty_filling m) ready

  due : All (Due 1) bs
  unfolding bs
  due = all-Due m (e ∷ es)

  served : (k : ℕ) → k < n → Served filling.entry k
  unfolding filling
  served k h =
      let positive : m ≡ suc (m - 1) = omega (arith, two_le m found) in
      subst (λ fuel. Served (fill fuel m max_w 0 bs (empty_filling m)).entry k) (sym positive)
        (fill-Served m n max_w prime small (m - 1) 0 bs (empty_filling m)
          (subst (λ fuel. Ready m n max_w fuel 0 bs (empty_filling m)) positive ready)
          (omega (arith, two_le m found)) due (omega (arith, length-bs, room)) k
          (omega (arith, length-bs)))

  build-eq : (build (e ∷ es) m).table ≡ map as_u16 filling.entry
  unfolding build filling bs max_w
  build-eq = refl

-- For a table size that passes the test of primality and fits 32 bits, and between one and that many
-- instances, at most 65535 and with positive weights: the rounds end with a table of exactly that size,
-- every entry of it is the index of an instance, and every instance has an entry.
pub build_complete :
    (m : ℕ) (e : Text × ℕ) (es : List (Text × ℕ))
    → is_prime m ≡ true
    → m ≤ 2 ^ 32
    → All Weighted (e ∷ es)
    → length (e ∷ es) ≤ m
    → length (e ∷ es) ≤ 65535
    → let t = (build (e ∷ es) m).table in
      (length t ≡ m)
      × All (λ i. i < length (e ∷ es)) t
      × ((k : ℕ) → k < length (e ∷ es) → (c : ℕ) × (get_elem? t c ≡ some k))
build_complete m e es found small weighted room in_u16 =
    let f = full m e es found small weighted room in_u16 in
    let entry = (filling m e es found small weighted room in_u16).entry in
    let same = build-eq m e es found small weighted room in_u16 in
    rw same (
      length-map as_u16 entry ∙ f.filling.sized,
      owners (length (e ∷ es)) entry (omega (arith, in_u16)) f.filling.owned
          (omega (arith, f.filling.counted, f.full)),
      λ k h.
          let (c, owner) = served m e es found small weighted room in_u16 k h in
          (c, get_elem?-owner (length (e ∷ es)) k entry c (omega (arith, in_u16)) h owner),
    )

get_elem?-All :
    (P : ℕ → Type 0) (xs : List ℕ) (k : ℕ)
    → All P xs
    → k < length xs
    → (x : ℕ) × (get_elem? xs k ≡ some x) × P x
get_elem?-All P [] k h l = absurd (omega arith)
get_elem?-All P (x ∷ xs) zero h l = (x, refl, h.0)
get_elem?-All P (x ∷ xs) (suc k) h l = get_elem?-All P xs k h.1 (omega arith)

-- Under the same conditions every key maps to an instance.
pub lookup-build :
    (m : ℕ) (e : Text × ℕ) (es : List (Text × ℕ)) (key_hash : ℕ)
    → is_prime m ≡ true
    → m ≤ 2 ^ 32
    → All Weighted (e ∷ es)
    → length (e ∷ es) ≤ m
    → length (e ∷ es) ≤ 65535
    → (i : ℕ) × (lookup (build (e ∷ es) m) key_hash ≡ some i) × (i < length (e ∷ es))
unfolding lookup
lookup-build m e es key_hash found small weighted room in_u16 =
    let (sized, indices, _) = build_complete m e es found small weighted room in_u16 in
    let t = (build (e ∷ es) m).table in
    let (i, at_slot, lt) =
      get_elem?-All (λ i. i < length (e ∷ es)) t (key_hash % length t) indices
        (mod-lt key_hash (omega (arith, sized))) in
    (i, ground (arith, sized, at_slot), lt)
