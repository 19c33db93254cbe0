-- ===== src/Maglev/Turns.antt =====
-- What a round of turns does to the table.
use plecto.Prelude.{
  ℕ, suc, ◌+◌, ◌*◌, ◌^◌, ◌≤◌, ◌<◌, ◌≡◌, refl, ap, ◌⊎◌, inl, inr, ◌||◌, List, [], ◌∷◌, Option, none,
  some, map, arith, length, get_or, All, All-mono, Bool-cases, ◌==◌, ==_iff, ltb,
}
use plecto.Maglev.{Backend, Filling, take_turn, turns}
use plecto.Maglev.Inverse.{Indivisible}
use plecto.Maglev.Probe.{Extends, IsFilling, IsSound, IsSound-later}
use plecto.Maglev.Turn.{TookTurn, take_turn-TookTurn, weight-take_turn}

-- Whether a backend takes its turn in the round.
abbrev pub Due : ℕ → Backend → Type 0
Due round b = b.target ≤ round * b.weight

abbrev pub Any : (Backend → Type 0) → List Backend → Type 0
Any P [] = ⊥
Any P (x ∷ xs) = P x ⊎ Any P xs

-- A slot is the backend's.
abbrev pub Served : List (Option ℕ) → ℕ → Type 0
Served entry i = (c : ℕ) × (get_or entry c none ≡ some i)

abbrev pub weight_of : Backend → ℕ
weight_of b = b.weight

pub record Round (m n max_w round i : ℕ) (bs : List Backend) (f : Filling) (bs' : List Backend)
    (f' : Filling) : Type 0 where
  pub filling : IsFilling m n f'
  pub sound : All (IsSound m max_w (suc round) f'.entry) bs'
  pub grows : Extends f.entry f'.entry
  pub no_less : f.filled ≤ f'.filled
  pub same_weights : map weight_of bs' ≡ map weight_of bs
  pub progress : Any (Due round) bs → f.filled < f'.filled
  pub serves :
      All (Due round) bs
      → f.filled + length bs ≤ m
      → (k : ℕ) → i ≤ k
      → k < i + length bs
      → Served f'.entry k

module _ (m n max_w round : ℕ) (prime : Indivisible m) (small : m ≤ 2 ^ 32) where
  skipped-Round :
      (i : ℕ) (b : Backend) (bs : List Backend) (f : Filling) (bs' : List Backend) (f' : Filling)
      → IsSound m max_w round f.entry b
      → round * b.weight < b.target
      → Round m n max_w round (suc i) bs f bs' f'
      → Round m n max_w round i (b ∷ bs) f (b ∷ bs') f'
  skipped-Round i b bs f bs' f' s later r = record {
    filling = r.filling;
    sound = (IsSound-later (suc round) (omega arith) r.grows s, r.sound);
    grows = r.grows;
    no_less = r.no_less;
    same_weights = ap (λ ws. b.weight ∷ ws) r.same_weights;
    progress = λ d. elim d [ inl h ↦ absurd (omega (arith, h, later)) | inr h ↦ r.progress h ];
    serves = λ d room k low high. absurd (omega (arith, d.0, later));
  }

  taken-Round :
      (i : ℕ) (b : Backend) (bs : List Backend) (f : Filling) (b' : Backend) (g : Filling)
      (bs' : List Backend) (f' : Filling)
      → TookTurn m n max_w round i f b' g
      → b'.weight ≡ b.weight
      → Round m n max_w round (suc i) bs g bs' f'
      → Round m n max_w round i (b ∷ bs) f (b' ∷ bs') f'
  taken-Round i b bs f b' g bs' f' t w r = record {
    filling = r.filling;
    sound = (IsSound-later (suc round) (omega arith) r.grows t.sound, r.sound);
    grows = λ c k e. r.grows c k (t.grows c k e);
    no_less = omega (arith, t.one_slot, r.no_less);
    same_weights = rw (w, r.same_weights) refl;
    progress = λ d. omega (arith, t.one_slot, r.no_less);
    serves = λ d room k low high. elim (Bool-cases (k == i)) [
      | inl same ↦ rw ((==_iff k i).0 same) (t.owner.0, r.grows t.owner.0 i t.owner.1)
      | inr other ↦ r.serves d.1 (omega (arith, t.one_slot)) k (ground arith) (omega arith)
    ];
  }

  -- The table is full: the round ends, and the other backends stay as they are.
  full-Round :
      (i : ℕ) (b : Backend) (bs : List Backend) (f : Filling) (b' : Backend) (g : Filling)
      → TookTurn m n max_w round i f b' g
      → b'.weight ≡ b.weight
      → g.filled ≡ m
      → All (IsSound m max_w round g.entry) bs
      → Round m n max_w round i (b ∷ bs) f (b' ∷ bs) g
  full-Round i b bs f b' g t w full s = record {
    filling = t.filling;
    sound = (
      t.sound,
      All-mono (IsSound m max_w round g.entry) (IsSound m max_w (suc round) g.entry) bs
          (λ x. IsSound-later (suc round) (omega arith) (λ c k e. e)) s,
    );
    grows = t.grows;
    no_less = omega (arith, t.one_slot);
    same_weights = rw w refl;
    progress = λ d. omega (arith, t.one_slot);
    serves =
        λ d room k low high. let same : k ≡ i = omega (arith, t.one_slot, full) in rw same t.owner;
  }

  pub turns-Round :
      (i : ℕ) (bs : List Backend) (f : Filling)
      → i + length bs ≤ n
      → IsFilling m n f
      → f.filled < m
      → All (IsSound m max_w round f.entry) bs
      → let r = turns m max_w round i bs f in Round m n max_w round i bs f r.0 r.1
  unfolding turns
  turns-Round i [] f fits v open_ s = record {
    filling = v;
    sound = tt;
    grows = λ c k e. e;
    no_less = omega arith;
    same_weights = refl;
    progress = λ d. absurd d;
    serves = λ d room k low high. absurd (omega arith);
  }
  turns-Round i (b ∷ bs) f fits v open_ s =
      let t = take_turn-TookTurn m n max_w round i b f prime small (omega arith) v s.0 open_ in
      let g = (take_turn m max_w i b f).1 in
      let rest =
        All-mono (IsSound m max_w round f.entry) (IsSound m max_w round g.entry) bs
          (λ x. IsSound-later round (omega arith) t.grows) s.1 in
      elim (Bool-cases ((b.weight == 0) || ltb (round * b.weight) b.target)) [
        | inl skip ↦ rw skip (
            skipped-Round i b bs f _ _ s.0 (ground (arith, skip, s.0.weight_pos))
              (turns-Round (suc i) bs f (omega arith) v open_ s.1))
        | inr turn ↦ elim (Bool-cases (g.filled == m)) [
          | inl full ↦
              rw (turn, full)
                (full-Round i b bs f _ g t (weight-take_turn m max_w i b f)
                  ((==_iff g.filled m).0 full) rest)
          | inr more ↦
              rw (turn, more)
                (taken-Round i b bs f _ g _ _ t (weight-take_turn m max_w i b f) (
                  turns-Round (suc i) bs g (omega arith) t.filling
                    (ground (arith, more, t.filling.counted)) rest))
        ]
      ]
