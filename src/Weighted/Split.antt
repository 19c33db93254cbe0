-- ===== src/Weighted/Split.antt =====
-- Which backend a request goes to.
use plecto.Prelude.{
  ℕ, zero, suc, ◌/◌, ◌%◌, ◌≤◌, ◌<◌, ◌≡◌, ◌≢◌, ◌↔◌, refl, sym, ◌∙◌, ap, true, false, List, [], ◌∷◌,
  map, Option, none, some, arith, ◌==◌, length, length-map, get_or, filter, any, All, Bool-cases,
  Option-cases, inl, inr, max,
}
use plecto.Upstream.{Heap}
use plecto.Upstream.Breaker.{increment}
use plecto.Upstream.Lb.{has_eligible}
use plecto.Upstream.Lb.Scan.{Among}
use plecto.Weighted.{
  WeightedBackends, new, pick, skip_forward, weighted_schedule, reduced, sum, keep_groups,
  weights_of, is_positive, compile, SplitResult, ok, err, validate_split, reduce_gcd, bounded_table,
  max_table_len, divisor_or_one,
}
use plecto.Weighted.Schedule.{length-weighted_schedule, schedule_proportional}
use plecto.Weighted.Apportioned.{count}
use plecto.Weighted.Gcd.{reduced_pos, reduce_gcd-pos, positive_weights}
use plecto.Weighted.Skip.{
  skip_forward_sound, FirstFrom, skip_forward_first, skip_forward_complete, count-position,
  reach_place, eligible_index,
}

-- A compiled split: a table that is not empty, and every backend has an entry in it.
pub record IsValid (w : WeightedBackends) : Type 0 where
  pub not_empty : 0 < length w.table
  pub all_served : (j : ℕ) → j < length w.groups → 0 < count j w.table

-- What a split serves is an eligible backend of it.
pub split_sound :
    (h : Heap) (clock : ℕ) (w : WeightedBackends) (g : ℕ)
    → (pick h clock w).0 ≡ some g
    → (has_eligible h (h.group_at g) clock ≡ true) × Among g w.groups
unfolding pick
split_sound h clock w g e =
    ground (arith, skip_forward_sound h clock w (w.cursor % length w.table) 0 (length w.table) g)

pick_served :
    (h : Heap) (clock : ℕ) (w : WeightedBackends)
    → IsValid w
    → any (λ g. has_eligible h (h.group_at g) clock) w.groups ≡ true
    → (g : ℕ) × (skip_forward h clock w (w.cursor % length w.table) 0 (length w.table) ≡ some g)
pick_served h clock w v e =
    let (j, l, f) = eligible_index h clock w.groups e in
    let (p, b, k) = count-position j w.table (v.all_served j l) in
    let start_in : w.cursor % length w.table < length w.table = omega (arith, v.not_empty) in
    let (m, n, r) = reach_place (w.cursor % length w.table) p (length w.table) start_in b in
    skip_forward_complete h clock w (w.cursor % length w.table) 0 (length w.table) m (omega arith)
      (omega arith) (rw r (rw k f))

pick_not_none :
    (h : Heap) (clock : ℕ) (w : WeightedBackends)
    → IsValid w
    → any (λ g. has_eligible h (h.group_at g) clock) w.groups ≡ true
    → (pick h clock w).0 ≢ none
unfolding pick
pick_not_none h clock w v e f =
    let (g, s) = pick_served h clock w v e in ground (arith, s, v.not_empty)

-- What a pick of a split promises: a group exactly when some group of the split can serve, and then the
-- eligible one that comes first in the table from the cursor's place on, going round.
abbrev pub ServesFirst : Heap → ℕ → WeightedBackends → Option ℕ × WeightedBackends → Type 0
ServesFirst h clock w (none, w') =
    (w' ≡ w) × (any (λ g. has_eligible h (h.group_at g) clock) w.groups ≡ false)
ServesFirst h clock w (some g, w') =
    (w' ≡ record w { cursor = increment w.cursor })
    × ((m : ℕ) × (m < length w.table) × FirstFrom h clock w (w.cursor % length w.table) 0 g m)

split_none_iff :
    (h : Heap) (clock : ℕ) (w : WeightedBackends)
    → IsValid w
    → ((pick h clock w).0 ≡ none)
      ↔ (any (λ g. has_eligible h (h.group_at g) clock) w.groups ≡ false)
split_none_iff h clock w v = (down, up)
  where
    down :
        (pick h clock w).0 ≡ none → any (λ g. has_eligible h (h.group_at g) clock) w.groups ≡ false
    down e = elim (Bool-cases (any (λ g. has_eligible h (h.group_at g) clock) w.groups)) [
      | inr out ↦ out
      | inl up_ ↦ absurd (pick_not_none h clock w v up_ e)
    ]

    up : any (λ g. has_eligible h (h.group_at g) clock) w.groups ≡ false → (pick h clock w).0 ≡ none
    up e = unfold pick in rw e

-- A compiled split serves the first eligible group in its table from the cursor's place on, going round, so
-- that a backend that is out gives its entries to the next eligible ones, and the cursor moves on by one.
-- It serves none, and the cursor stays, exactly when no group of the split can serve.
pub pick-ServesFirst :
    (h : Heap) (clock : ℕ) (w : WeightedBackends)
    → IsValid w
    → ServesFirst h clock w (pick h clock w)
unfolding pick
pick-ServesFirst h clock w v =
    elim (Bool-cases (any (λ g. has_eligible h (h.group_at g) clock) w.groups)) [
      | inr out ↦ rw out (refl, out)
      | inl up ↦
          let (g, s) = pick_served h clock w v up in
          let (m, _, u, first) =
            skip_forward_first h clock w (w.cursor % length w.table) 0 (length w.table) g s in
          let some_table : (length w.table == 0) ≡ false = ground (arith, v.not_empty) in
          rw (up, some_table) (rw s (refl, (m, omega (arith, u), first)))
    ]

get_or-positive : (ns : List ℕ) (j : ℕ) → All (λ w. 0 < w) ns → j < length ns → 0 < get_or ns j 0
get_or-positive [] j a h = absurd (omega arith)
get_or-positive (n ∷ ns) zero a h = a.0
get_or-positive (n ∷ ns) (suc j) a h = get_or-positive ns j a.1 (omega arith)

length-keep_groups :
    (ts : List (ℕ × ℕ)) → length (keep_groups ts) ≡ length (filter is_positive (weights_of ts))
length-keep_groups [] = refl
length-keep_groups ((g, w) ∷ ts) = ground (arith, length-keep_groups ts)

length-reduced : (ws : List ℕ) → length (reduced ws) ≡ length (filter is_positive ws)
unfolding reduced
length-reduced ws = length-map _ (filter is_positive ws)

zero_div : (d : ℕ) → 0 < d → 0 / d ≡ 0
zero_div d p = omega arith

max_one : (d : ℕ) → 0 < d → max d 1 ≡ d
max_one d p = omega arith

sum_nonzero :
    (d : ℕ) (ws : List ℕ)
    → 0 < d
    → sum (map (λ w. w / d) ws) ≡ sum (map (λ w. w / d) (filter is_positive ws))
sum_nonzero d [] p = refl
sum_nonzero d (w ∷ ws) p = ground (arith, sum_nonzero d ws p, zero_div d p)

validate_split-parts :
    (ws : List ℕ) (total : ℕ)
    → validate_split ws ≡ ok total
    → (d : ℕ) × (reduce_gcd (filter is_positive ws) ≡ some d)
      × (bounded_table (sum (map (λ w. w / d) ws)) ≡ ok total)
unfolding validate_split
validate_split-parts [] total e = absurd (cc)
validate_split-parts (w ∷ ws) total e =
    elim (Option-cases (reduce_gcd (filter is_positive (w ∷ ws)))) [
      | inl z ↦ absurd (ground arith)
      | inr (d, z) ↦ (d, z, ground arith)
    ]

bounded_table-ok : (n total : ℕ) → bounded_table n ≡ ok total → (total ≡ n) × (n ≤ max_table_len)
unfolding bounded_table
bounded_table-ok n total e = ground arith

reduce_gcd-some : (ns : List ℕ) (d : ℕ) → reduce_gcd ns ≡ some d → 0 < length ns
unfolding reduce_gcd
reduce_gcd-some [] d e = absurd (cc)
reduce_gcd-some (n ∷ ns) d e = omega arith

sum-reduced :
    (ws : List ℕ) (d : ℕ)
    → divisor_or_one (reduce_gcd (filter is_positive ws)) ≡ d
    → sum (reduced ws) ≡ sum (map (λ w. w / d) (filter is_positive ws))
unfolding reduced
sum-reduced ws d e = ap (λ k. sum (map (λ w. w / k) (filter is_positive ws))) e

-- Where a split is accepted, what `validate_split` returns is the length of the schedule that `new`
-- builds of it; that length is at most `MAX_TABLE_LEN`, and some weight is not zero.
pub validate_split-ok :
    (ws : List ℕ) (total : ℕ)
    → validate_split ws ≡ ok total
    → (length (weighted_schedule (reduced ws)) ≡ total)
      × (total ≤ max_table_len)
      × (0 < length (filter is_positive ws))
validate_split-ok ws total e =
    let (d, f, g) = validate_split-parts ws total e in
    let (same, small) = bounded_table-ok (sum (map (λ w. w / d) ws)) total g in
    let d_pos = reduce_gcd-pos (filter is_positive ws) d (positive_weights ws) f in
    let one : divisor_or_one (reduce_gcd (filter is_positive ws)) ≡ d =
      ap divisor_or_one f ∙ max_one d d_pos in
    (
      length-weighted_schedule (reduced ws)
          ∙ sum-reduced ws d one
          ∙ sym (sum_nonzero d ws d_pos)
          ∙ sym same,
      omega arith,
      reduce_gcd-some (filter is_positive ws) d f,
    )

length-le-sum : (ns : List ℕ) → All (λ w. 0 < w) ns → length ns ≤ sum ns
length-le-sum [] a = omega arith
length-le-sum (n ∷ ns) a = omega (arith, a.0, length-le-sum ns a.1)

compile-IsValid :
    (targets : List (ℕ × ℕ)) (total : ℕ)
    → validate_split (weights_of targets) ≡ ok total
    → IsValid (compile targets)
unfolding compile
compile-IsValid targets total e =
    let (long, small, some_weight) = validate_split-ok (weights_of targets) total e in
    let few = length-le-sum (reduced (weights_of targets)) (reduced_pos (weights_of targets)) in
    let sized = length-weighted_schedule (reduced (weights_of targets)) in
    let kept = length-keep_groups targets in
    let same = length-reduced (weights_of targets) in
    record {
      not_empty = omega (arith, sized, few, same, some_weight);
      all_served = λ j l.
          rw
            (schedule_proportional (reduced (weights_of targets)) j
              (omega (arith, few, same, some_weight)) (omega (arith, few, sized, long, small))
              (omega (arith, same, kept, l)))
            (get_or-positive (reduced (weights_of targets)) j (reduced_pos (weights_of targets))
              (omega (arith, same, kept, l)));
    }

new-compile :
    (targets : List (ℕ × ℕ)) (w : WeightedBackends) (r : SplitResult ℕ)
    → validate_split (weights_of targets) ≡ r
    → new targets ≡ ok w
    → IsValid w
unfolding new
new-compile targets w (ok total) f e =
    let compiled : compile targets ≡ w = ground (arith, f) in
    rw (← compiled) (compile-IsValid targets total f)
new-compile targets w (err x) f e = absurd (ground (arith, f))

pub new-validated :
    (targets : List (ℕ × ℕ)) (n : ℕ)
    → validate_split (weights_of targets) ≡ ok n
    → new targets ≡ ok (compile targets)
unfolding new
new-validated targets n e = rw (e, new) refl

pub groups-compile : (targets : List (ℕ × ℕ)) → (compile targets).groups ≡ keep_groups targets
unfolding compile
groups-compile targets = refl

-- Whatever targets `new` accepts, it compiles them to a table that is not empty and in which every
-- backend of the split has an entry.
pub new-IsValid : (targets : List (ℕ × ℕ)) (w : WeightedBackends) → new targets ≡ ok w → IsValid w
new-IsValid targets w e = new-compile targets w (validate_split (weights_of targets)) refl e
