-- ===== src/Maglev/Turn.antt =====
-- What a turn of one backend does to the table.
use plecto.Prelude.{
  ℕ, suc, ◌^◌, ◌≤◌, ◌<◌, ◌≡◌, refl, sym, ◌∙◌, subst, none, some, arith, length, get_or, set,
  All-set, length-set, get_or-set,
}
use plecto.Maglev.{Backend, Filling, slot, probe, take_turn}
use plecto.Maglev.Inverse.{Indivisible}
use plecto.Maglev.Probe.{
  Owned, Taken, Taken-Extends, Extends, IsFilling, IsSound, free_slot, free-set, one_more,
  probe-free, slot-onto, slot-lt, Extends-set,
}

pub weight-take_turn :
    (m max_w i : ℕ) (b : Backend) (f : Filling) → (take_turn m max_w i b f).0.weight ≡ b.weight
unfolding take_turn
weight-take_turn m max_w i b f = refl

-- What a turn of backend `i` leaves.
pub record TookTurn (m n max_w round i : ℕ) (f : Filling) (b' : Backend) (f' : Filling)
    : Type 0 where
  pub filling : IsFilling m n f'
  pub sound : IsSound m max_w (suc round) f'.entry b'
  pub grows : Extends f.entry f'.entry
  pub one_slot : f'.filled ≡ suc f.filled
  pub owner : (c : ℕ) × (get_or f'.entry c none ≡ some i)

module _ (m n max_w round i : ℕ) (b : Backend) (f : Filling) (prime : Indivisible m)
    (small : m ≤ 2 ^ 32) (i_lt : i < n) (v : IsFilling m n f) (s : IsSound m max_w round f.entry b)
    (open_ : f.filled < m) where
  place : ℕ
  place = probe m m f.entry b b.next

  place-free :
      (get_or f.entry (slot m b place) none ≡ none)
      × ((j : ℕ) → j < place → Taken f.entry (slot m b j))
  unfolding place
  place-free =
      let (c, c_lt, e) = free_slot f.entry (omega (arith, v.counted)) in
      let (j, j_lt, at_c) =
        slot-onto m b c prime small s.offset_lt s.skip_pos s.skip_lt (omega (arith, v.sized)) in
      probe-free m f.entry b j m b.next s.probed
        (subst (λ x. get_or f.entry x none ≡ none) (sym at_c) e) (omega arith)

  chosen : ℕ
  chosen = slot m b place

  chosen-lt : chosen < length f.entry
  unfolding chosen
  chosen-lt = omega (arith, slot-lt m b place (omega arith), v.sized)

  chosen-free : get_or f.entry chosen none ≡ none
  unfolding chosen
  chosen-free = place-free.0

  grown : Extends f.entry (set f.entry chosen (some i))
  grown = Extends-set f.entry chosen i chosen-lt chosen-free

  at_chosen : get_or (set f.entry chosen (some i)) chosen none ≡ some i
  at_chosen = get_or-set f.entry chosen chosen (some i) none chosen-lt ∙ ground arith

  pub take_turn-TookTurn : let r = take_turn m max_w i b f in TookTurn m n max_w round i f r.0 r.1
  unfolding take_turn place chosen
  take_turn-TookTurn = record {
    filling = record {
      sized = length-set f.entry chosen (some i) ∙ v.sized;
      counted = omega (arith, free-set f.entry chosen i chosen-lt chosen-free, v.counted);
      owned = All-set (Owned n) f.entry chosen (some i) v.owned i_lt;
    };
    sound = record {
      offset_lt = s.offset_lt;
      skip_pos = s.skip_pos;
      skip_lt = s.skip_lt;
      weight_pos = s.weight_pos;
      weight_le = s.weight_le;
      probed =
          one_more m _ b place i
            (λ j l. Taken-Extends f.entry (set f.entry chosen (some i)) _ grown (place-free.1 j l))
            at_chosen;
      due = omega (arith, s.due);
    };
    grows = grown;
    one_slot = omega arith;
    owner = (chosen, at_chosen);
  }
