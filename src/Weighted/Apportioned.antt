-- ===== src/Weighted/Apportioned.antt =====
-- What the steps of the schedule keep: each deficit against what its backend has been served.
use plecto.Prelude.{
  ℕ, zero, suc, ◌+◌, ◌*◌, ◌%◌, ◌≤◌, ◌<◌, ◌≡◌, sym, ◌∙◌, ap, subst, fun_ext, false, List, [], ◌∷◌,
  arith, length, get_or, set, replicate, if◌then◌else◌, Bool-cases, inl, inr, ◌==◌, ==_iff,
  length-set,
}
use plecto.Prelude.Int.{ℤ, pos, pos_part, neg_part, ◌+ℤ◌, ◌-ℤ◌, +ℤ_parts, -ℤ_parts}
use plecto.Weighted.{ℤ_at, credit, debit, steps, sum}
use plecto.Weighted.Credit.{zip_add, AllLe, Credited, credit_lem}
use plecto.Weighted.Deficits.{
  pos_sum, neg_sum, length-zip_add, zip_add-at, zip_add-sum, set-at, set-sum, most_positive,
  one_sided, zeros-at, zeros-sum, length-zeros,
}

-- How often a backend stands in a schedule.
abbrev pub count : ℕ → List ℕ → ℕ
count j [] = 0
count j (b ∷ bs) = let rest = count j bs in if b == j then suc rest else rest

-- After `k` steps that served backend `j` `c j` times: a deficit is `k` weights less `c j` totals, is
-- above minus the total, and the deficits add up to nothing.
pub record Apportioned (ws : List ℕ) (k : ℕ) (c : ℕ → ℕ) (d : List ℤ) : Type 0 where
  pub same_length : length d ≡ length ws
  pub balance :
      (j : ℕ)
      → j < length ws
      → pos_part (ℤ_at d j) + c j * sum ws ≡ k * get_or ws j 0 + neg_part (ℤ_at d j)
  pub above : (j : ℕ) → j < length ws → neg_part (ℤ_at d j) < sum ws
  pub settled : pos_sum d ≡ neg_sum d

-- The count of each backend after one more is served.
abbrev served : (ℕ → ℕ) → ℕ → ℕ → ℕ
served c b j = if b == j then suc (c j) else c j

module _ (ws : List ℕ) (k : ℕ) (c : ℕ → ℕ) (d : List ℤ) (b : ℕ) (some_weight : 0 < sum ws)
    (b_in : b < length ws) (b_most : AllLe (zip_add d ws) (ℤ_at (zip_add d ws) b))
    (v : Apportioned ws k c d) where
  credited : List ℤ
  credited = zip_add d ws

  debited : ℤ
  debited = ℤ_at credited b -ℤ pos (sum ws)

  length-credited : length credited ≡ length ws
  unfolding credited
  length-credited = length-zip_add d ws ∙ v.same_length

  best_positive : 0 < pos_part (ℤ_at credited b)
  unfolding credited
  best_positive = elim (Bool-cases (pos_part (ℤ_at (zip_add d ws) b) == 0)) [
    | inl e ↦ absurd (
        omega (
          arith,
          most_positive (zip_add d ws) (ℤ_at (zip_add d ws) b) b_most ((==_iff _ 0).0 e),
          zip_add-sum d ws v.same_length,
          v.settled,
        ))
    | inr e ↦ ground arith
  ]

  debited_parts : pos_part debited + sum ws ≡ neg_part debited + pos_part (ℤ_at credited b)
  unfolding debited
  debited_parts =
      ground (
        arith,
        -ℤ_parts (ℤ_at credited b) (pos (sum ws)),
        best_positive,
        one_sided (ℤ_at credited b),
      )

  credited-at : (j : ℕ) → j < length ws → ℤ_at credited j ≡ ℤ_at d j +ℤ pos (get_or ws j 0)
  unfolding credited
  credited-at j h = zip_add-at d ws j v.same_length h

  at_b : (j : ℕ) → b ≡ j → (ℤ_at (set credited b debited) j ≡ debited)
  at_b j e = set-at credited b j debited (rw length-credited b_in) ∙ rw ((==_iff b j).1 e)

  at_other : (j : ℕ) → (b == j) ≡ false → (ℤ_at (set credited b debited) j ≡ ℤ_at credited j)
  at_other j e = set-at credited b j debited (rw length-credited b_in) ∙ rw e

  settled_credit : pos_sum credited ≡ neg_sum credited + sum ws
  unfolding credited
  settled_credit = omega (arith, zip_add-sum d ws v.same_length, v.settled)

  debit-Apportioned : Apportioned ws (suc k) (served c b) (set credited b debited)
  debit-Apportioned = record {
    same_length = length-set credited b debited ∙ length-credited;
    balance = λ j h. elim (Bool-cases (b == j)) [
      | inl e ↦
          rw (at_b j ((==_iff b j).0 e), e)
            (omega (
              arith,
              debited_parts,
              best_positive,
              one_sided (ℤ_at credited b),
              +ℤ_parts (ℤ_at d j) (pos (get_or ws j 0)),
              ap pos_part (credited-at j h),
              ap neg_part (credited-at j h),
              ap (λ i. pos_part (ℤ_at credited i)) ((==_iff b j).0 e),
              ap (λ i. neg_part (ℤ_at credited i)) ((==_iff b j).0 e),
              v.balance j h,
            ))
      | inr e ↦
          rw (at_other j e, e)
            (omega (
              arith,
              +ℤ_parts (ℤ_at d j) (pos (get_or ws j 0)),
              ap pos_part (credited-at j h),
              ap neg_part (credited-at j h),
              v.balance j h,
            ))
    ];
    above = λ j h. elim (Bool-cases (b == j)) [
      | inl e ↦
          rw (at_b j ((==_iff b j).0 e))
            (ground (arith, debited_parts, best_positive, one_sided debited))
      | inr e ↦ rw (at_other j e) (
          omega (
            arith,
            +ℤ_parts (ℤ_at d j) (pos (get_or ws j 0)),
            ap pos_part (credited-at j h),
            ap neg_part (credited-at j h),
            one_sided (ℤ_at credited j),
            v.above j h,
          ))
    ];
    settled = omega (
      arith,
      set-sum credited b debited (rw length-credited b_in),
      debited_parts,
      best_positive,
      one_sided (ℤ_at credited b),
      settled_credit,
    );
  }

debited-Apportioned :
    (ws : List ℕ) (k : ℕ) (c : ℕ → ℕ) (d : List ℤ) (r : List ℤ × ℕ)
    → 0 < sum ws
    → Credited (zip_add d ws) r
    → Apportioned ws k c d
    → Apportioned ws (suc k) (served c r.1) (debit (sum ws) r) × (r.1 < length ws)
unfolding debit credited debited
debited-Apportioned ws k c d (e, b) p r v =
    let b_in = subst (λ n. b < n) (length-zip_add d ws ∙ v.same_length) r.best_in in
    (rw r.total_is (debit-Apportioned ws k c d b p b_in r.best_most v), b_in)

Apportioned-eq :
    (ws : List ℕ) (k k' : ℕ) (c c' : ℕ → ℕ) (d : List ℤ)
    → k ≡ k'
    → ((j : ℕ) → c j ≡ c' j)
    → Apportioned ws k c d
    → Apportioned ws k' c' d
Apportioned-eq ws k k' c c' d e f v = rw (← e) (rw (← fun_ext f) v)

served-count :
    (c : ℕ → ℕ) (b j : ℕ) (rest : List ℕ)
    → b < 65536
    → served c b j + count j rest ≡ c j + count j (b % 65536 ∷ rest)
served-count c b j rest h = ground arith

-- `n` more steps, and what they served.
pub steps-Apportioned :
    (n : ℕ) (ws : List ℕ) (k : ℕ) (c : ℕ → ℕ) (d : List ℤ)
    → 0 < sum ws
    → 0 < length ws
    → length ws ≤ 65536
    → Apportioned ws k c d
    → (d' : List ℤ) × Apportioned ws (k + n) (λ j. c j + count j (steps ws (sum ws) d n)) d'
unfolding steps
steps-Apportioned zero ws k c d p q u v =
    (d, Apportioned-eq ws k (k + 0) c _ d (omega arith) (λ j. omega arith) v)
steps-Apportioned (suc n) ws k c d p q u v =
    let credited : List ℤ × ℕ = credit ws 0 d 0 in
    let (v', b_in) = debited-Apportioned ws k c d credited p (credit_lem ws d v.same_length q) v in
    let (d', w) =
      steps-Apportioned n ws (suc k) (served c credited.1) (debit (sum ws) credited) p q u v' in
    (
      d',
      Apportioned-eq ws (suc k + n) (k + suc n) _ _ d' (omega arith)
          (λ j.
            served-count c credited.1 j (steps ws (sum ws) (debit (sum ws) credited) n)
              (omega arith))
          w,
    )

pub start-Apportioned :
    (ws : List ℕ) → 0 < sum ws → Apportioned ws 0 (λ j. 0) (replicate (length ws) (pos 0))
start-Apportioned ws p = record {
  same_length = length-zeros (length ws);
  balance = λ j h. rw (zeros-at (length ws) j) (omega arith);
  above = λ j h. rw (zeros-at (length ws) j) p;
  settled = (zeros-sum (length ws)).0 ∙ sym (zeros-sum (length ws)).1;
}
