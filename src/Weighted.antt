-- ===== src/Weighted.antt =====
-- control/src/weighted.rs: the weighted traffic split of a route.
--
-- A backend is a pointer to its `UpstreamGroup`. The deficits are i64 values of at most a few times
-- 65536 in size, so they are integers here; a schedule entry is a `u16`.
pub mod Examples
pub mod Credit
pub mod Deficits
pub mod Apportioned
pub mod Schedule
pub mod Skip
pub mod Split
pub mod Gcd
use plecto.Prelude.{
  ℕ, zero, suc, ◌+◌, ◌-◌, ◌*◌, ◌/◌, ◌%◌, Bool, true, false, not, List, [], ◌∷◌, map, Option, none,
  some, length, get_elem?, get_or, set, filter, any, find, replicate, if◌then◌else◌, ltb, leb, ◌==◌,
  max, u64_mod,
}
use plecto.Prelude.Int.{ℤ, pos, ◌+ℤ◌, ◌-ℤ◌, ltb_ℤ}
use plecto.Upstream.{UpstreamGroup, Heap}
use plecto.Upstream.Breaker.{increment}
use plecto.Upstream.Lb.{has_eligible}

abbrev pub max_backend_weight : ℕ
max_backend_weight = 1000000

abbrev pub max_table_len : ℕ
max_table_len = 65536

pub record WeightedBackends : Type 0 where
  pub groups : List ℕ
  pub table : List ℕ
  pub cursor : ℕ

-- The reasons for which a split is refused, with the number that the message quotes.
pub data SplitError : Type 0 where
  no_backends : SplitError
  weight_over : ℕ → SplitError
  all_zero : SplitError
  table_over : ℕ → SplitError

-- Euclid's loop. The second number falls, so it bounds the rounds.
gcd_loop : ℕ → ℕ → ℕ → ℕ
gcd_loop zero a b = a
gcd_loop (suc fuel) a b = let rest = gcd_loop fuel b (a % b) in if b == 0 then a else rest

unfoldable pub gcd : ℕ → ℕ → ℕ
unfolding gcd_loop
gcd a b = gcd_loop (suc b) a b

abbrev pub sum : List ℕ → ℕ
sum [] = 0
sum (w ∷ ws) = w + sum ws

-- `iter().copied().reduce(gcd)`.
gcd_from : ℕ → List ℕ → ℕ
gcd_from a [] = a
gcd_from a (w ∷ ws) = gcd_from (gcd a w) ws

unfoldable pub reduce_gcd : List ℕ → Option ℕ
unfolding gcd_from
reduce_gcd [] = none
reduce_gcd (w ∷ ws) = some (gcd_from w ws)

abbrev pub is_positive : ℕ → Bool
is_positive w = ltb 0 w

abbrev over_weight : ℕ → Bool
over_weight w = ltb max_backend_weight w

pub data SplitResult {ℓ} (A : Type ℓ) : Type ℓ where
  ok : A → SplitResult A
  err : SplitError → SplitResult A

unfoldable pub bounded_table : ℕ → SplitResult ℕ
bounded_table total = if ltb max_table_len total then err (table_over total) else ok total

unfoldable pub validate_split : List ℕ → SplitResult ℕ
unfolding bounded_table
validate_split [] = err no_backends
validate_split (w ∷ ws) = elim (find over_weight (w ∷ ws)) [
  | some over ↦ err (weight_over over)
  | none ↦ elim (reduce_gcd (filter is_positive (w ∷ ws))) [
    | none ↦ err all_zero
    | some divisor ↦ bounded_table (sum (map (λ w. w / divisor) (w ∷ ws)))
  ]
]

abbrev pub ℤ_at : List ℤ → ℕ → ℤ
ℤ_at d i = get_or d i (pos 0)

-- The inner loop: backend `i` is credited its weight, and `best` follows the largest deficit.
unfoldable pub credit : List ℕ → ℕ → List ℤ → ℕ → List ℤ × ℕ
credit [] i d best = (d, best)
credit (w ∷ ws) i d best =
    let d' = set d i (ℤ_at d i +ℤ pos w) in
    credit ws (suc i) d' (if ltb_ℤ (ℤ_at d' best) (ℤ_at d' i) then i else best)

unfoldable pub debit : ℕ → List ℤ × ℕ → List ℤ
debit total (d, best) = set d best (ℤ_at d best -ℤ pos total)

-- `n` steps of the outer loop from the deficits `d`.
unfoldable pub steps : List ℕ → ℕ → List ℤ → ℕ → List ℕ
steps ws total d zero = []
steps ws total d (suc n) =
    let credited = credit ws 0 d 0 in credited.1 % 65536 ∷ steps ws total (debit total credited) n

unfoldable pub weighted_schedule : List ℕ → List ℕ
unfolding credit debit steps
weighted_schedule ws = steps ws (sum ws) (replicate (length ws) (pos 0)) (sum ws)

-- The targets are `(group, weight)` pairs.
abbrev pub keep_groups : List (ℕ × ℕ) → List ℕ
keep_groups [] = []
keep_groups ((g, w) ∷ ts) = let rest = keep_groups ts in if is_positive w then g ∷ rest else rest

abbrev pub weights_of : List (ℕ × ℕ) → List ℕ
weights_of [] = []
weights_of ((g, w) ∷ ts) = w ∷ weights_of ts

abbrev pub divisor_or_one : Option ℕ → ℕ
divisor_or_one none = 1
divisor_or_one (some d) = max d 1

unfoldable pub reduced : List ℕ → List ℕ
reduced ws =
    let nonzero = filter is_positive ws in
    let divisor = divisor_or_one (reduce_gcd nonzero) in map (λ w. w / divisor) nonzero

unfoldable pub compile : List (ℕ × ℕ) → WeightedBackends
compile targets = record {
  groups = keep_groups targets;
  table = weighted_schedule (reduced (weights_of targets));
  cursor = 0;
}

unfoldable pub new : List (ℕ × ℕ) → SplitResult WeightedBackends
unfolding compile
new targets = elim (validate_split (weights_of targets)) [
  | err e ↦ err e
  | ok total ↦ ok (compile targets)
]

-- `self.groups[backend].has_eligible()`; the index is in bounds.
unfoldable pub backend_eligible : Heap → ℕ → List ℕ → ℕ → Bool
backend_eligible h clock groups backend = elim (get_elem? groups backend) [
  | none ↦ false
  | some g ↦ has_eligible h (h.group_at g) clock
]

-- `for off in off..off + n`.
unfoldable pub skip_forward : Heap → ℕ → WeightedBackends → ℕ → ℕ → ℕ → Option ℕ
skip_forward h clock w start off zero = none
skip_forward h clock w start off (suc n) =
    let backend = get_or w.table ((start + off) % length w.table) 0 in
    let rest = skip_forward h clock w start (suc off) n in
    if backend_eligible h clock w.groups backend then get_elem? w.groups backend else rest

unfoldable pub pick : Heap → ℕ → WeightedBackends → Option ℕ × WeightedBackends
pick h clock w =
    let len = length w.table in
    if not (any (λ g. has_eligible h (h.group_at g) clock) w.groups)
    then (none, w)
    else if len == 0
    then (none, w)
    else (skip_forward h clock w (w.cursor % len) 0 len, record w { cursor = increment w.cursor })
