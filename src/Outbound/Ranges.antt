-- ===== src/Outbound/Ranges.antt =====
-- The ranges of `v4_always_blocked` against the table of CIDR blocks that its comments name.
use Prim.Native.Nat.{bit_and}
use plecto.Prelude.{
  ℕ, zero, suc, ◌+◌, ◌-◌, ◌*◌, ◌/◌, ◌^◌, ◌<◌, ◌≡◌, ◌∙◌, ap₂, refl, Bool, true, false, ◌&&◌, ◌||◌,
  List, [], ◌∷◌, any, ◌==◌, leb, arith,
}
use plecto.Outbound.{v4_always_blocked}

-- A block: the number of its first address, and the length of its prefix.
pub record Block : Type 0 where
  pub first : ℕ
  pub length_ : ℕ

abbrev pub number : ℕ → ℕ → ℕ → ℕ → ℕ
number a b c d = ((a * 256 + b) * 256 + c) * 256 + d

abbrev pub within : ℕ → Block → Bool
within n block = n / 2 ^ (32 - block.length_) == block.first / 2 ^ (32 - block.length_)

abbrev block : ℕ → ℕ → ℕ → ℕ → ℕ → Block
block a b c d bits = record { first = number a b c d; length_ = bits }

-- 127.0.0.0/8, 169.254.0.0/16 and so on.
abbrev pub reserved_blocks : List Block
reserved_blocks =
    block 127 0 0 0 8
    ∷ block 169 254 0 0 16
    ∷ block 255 255 255 255 32
    ∷ block 224 0 0 0 4
    ∷ block 192 0 2 0 24
    ∷ block 198 51 100 0 24
    ∷ block 203 0 113 0 24
    ∷ block 0 0 0 0 8
    ∷ block 100 64 0 0 10
    ∷ block 192 0 0 0 24
    ∷ block 198 18 0 0 15
    ∷ block 240 0 0 0 4
    ∷ []

same : Bool → Bool → Bool
same true b = b
same false true = false
same false false = true

same→eq : (a b : Bool) → same a b ≡ true → a ≡ b
unfolding same
same→eq true true h = refl
same→eq true false h = cc
same→eq false true h = cc
same→eq false false h = refl

-- Two tests of an octet agree on the values that are less than `limit`, each of them evaluated.
agree : (f g : ℕ → Bool) (limit : ℕ) → Bool
agree f g zero = true
agree f g (suc last) = same (f last) (g last) && agree f g last

agree_sound : (f g : ℕ → Bool) (limit b : ℕ) → agree f g limit ≡ true → b < limit → f b ≡ g b
unfolding agree
agree_sound f g zero b checked h = absurd (omega arith)
agree_sound f g (suc last) b checked h = ground (arith, same→eq (f b) (g b), agree_sound f g last b)

from_table : (f g : ℕ → Bool) (b : ℕ) → agree f g 256 ≡ true → b < 256 → f b ≡ g b
from_table f g b = agree_sound f g 256 b

top_two : (b : ℕ) → b < 256 → (bit_and b 0xc0 == 0x40) ≡ (b / 64 == 1)
unfolding agree same
top_two b h = from_table (λ b. bit_and b 0xc0 == 0x40) (λ b. b / 64 == 1) b refl h

all_but_last : (b : ℕ) → b < 256 → (bit_and b 0xfe == 18) ≡ (b / 2 == 9)
unfolding agree same
all_but_last b h = from_table (λ b. bit_and b 0xfe == 18) (λ b. b / 2 == 9) b refl h

top_four : (b : ℕ) → b < 256 → (bit_and b 0xf0 == 240) ≡ (b / 16 == 15)
unfolding agree same
top_four b h = from_table (λ b. bit_and b 0xf0 == 240) (λ b. b / 16 == 15) b refl h

module _ (a b c d : ℕ) (b8 : b < 256) (c8 : c < 256) (d8 : d < 256) where
  abbrev n : ℕ
  n = number a b c d

  in_8 : (k : ℕ) → (a == k) ≡ (n / 2 ^ 24 == k)
  in_8 k = ground arith

  in_16 : (k l : ℕ) → l < 256 → ((a == k) && ((b == l) && true)) ≡ (n / 2 ^ 16 == k * 256 + l)
  in_16 k l h = ground arith

  in_24 :
      (k l m : ℕ)
      → l < 256
      → m < 256
      → ((a == k) && (b == l) && (c == m)) ≡ (n / 2 ^ 8 == (k * 256 + l) * 256 + m)
  in_24 k l m h i = ground arith

  starts_24 :
      (k l m : ℕ)
      → l < 256
      → m < 256
      → ((a == k) && ((b == l) && ((c == m) && true))) ≡ (n / 2 ^ 8 == (k * 256 + l) * 256 + m)
  starts_24 k l m h i = ground arith

  broadcast :
      ((a == 255) && ((b == 255) && ((c == 255) && ((d == 255) && true))))
      ≡ (n / 2 ^ 0 == number 255 255 255 255)
  broadcast = ground arith

  multicast : (leb 224 a && leb a 239) ≡ (n / 2 ^ 28 == 14)
  multicast = ground arith

  shared_space : ((a == 100) && (bit_and b 0xc0 == 0x40)) ≡ (n / 2 ^ 22 == 401)
  shared_space = rw (top_two b b8) (ground arith)

  benchmarking : ((a == 198) && (bit_and b 0xfe == 18)) ≡ (n / 2 ^ 17 == 25353)
  benchmarking = rw (all_but_last b b8) (ground arith)

  future_use : a < 256 → (bit_and a 0xf0 == 240) ≡ (n / 2 ^ 28 == 15)
  future_use a8 = top_four a a8 ∙ (ground arith)

  or_cong : {x x' y y' : Bool} → x ≡ x' → y ≡ y' → (x || y) ≡ (x' || y')
  or_cong e f = ap₂ ◌||◌ e f

  reassociate :
      (x1 x2 x3 x4 x5 x6 x7 x8 x9 x10 x11 x12 : Bool)
      → (x1 || x2 || x3 || x4 || (x5 || x6 || x7) || x8 || x9 || x10 || x11 || x12) ≡ (
          x1
          || (x2
              || (x3
                  || (x4
                      || (x5
                          || (x6 || (x7 || (x8 || (x9 || (x10 || (x11 || (x12 || false))))))))))))
  reassociate true x2 x3 x4 x5 x6 x7 x8 x9 x10 x11 x12 = refl
  reassociate false true x3 x4 x5 x6 x7 x8 x9 x10 x11 x12 = refl
  reassociate false false true x4 x5 x6 x7 x8 x9 x10 x11 x12 = refl
  reassociate false false false true x5 x6 x7 x8 x9 x10 x11 x12 = refl
  reassociate false false false false true x6 x7 x8 x9 x10 x11 x12 = refl
  reassociate false false false false false true x7 x8 x9 x10 x11 x12 = refl
  reassociate false false false false false false true x8 x9 x10 x11 x12 = refl
  reassociate false false false false false false false true x9 x10 x11 x12 = refl
  reassociate false false false false false false false false true x10 x11 x12 = refl
  reassociate false false false false false false false false false true x11 x12 = refl
  reassociate false false false false false false false false false false true x12 = refl
  reassociate false false false false false false false false false false false true = refl
  reassociate false false false false false false false false false false false false = refl

  each :
      {x1 x2 x3 x4 x5 x6 x7 x8 x9 x10 x11 x12 y1 y2 y3 y4 y5 y6 y7 y8 y9 y10 y11 y12 : Bool}
      → x1 ≡ y1
      → x2 ≡ y2
      → x3 ≡ y3
      → x4 ≡ y4
      → x5 ≡ y5
      → x6 ≡ y6
      → x7 ≡ y7
      → x8 ≡ y8
      → x9 ≡ y9
      → x10 ≡ y10
      → x11 ≡ y11
      → x12 ≡ y12
      → (x1 || x2 || x3 || x4 || (x5 || x6 || x7) || x8 || x9 || x10 || x11 || x12) ≡ (
          y1
          || (y2
              || (y3
                  || (y4
                      || (y5
                          || (y6 || (y7 || (y8 || (y9 || (y10 || (y11 || (y12 || false))))))))))))
  each {x1} {x2} {x3} {x4} {x5} {x6} {x7} {x8} {x9} {x10} {x11} {x12} e1 e2 e3 e4 e5 e6 e7 e8 e9 e10
        e11 e12 =
      reassociate x1 x2 x3 x4 x5 x6 x7 x8 x9 x10 x11 x12
      ∙ or_cong e1 (
          or_cong e2 (
            or_cong e3 (
              or_cong e4 (
                or_cong e5 (
                  or_cong e6 (
                    or_cong e7
                      (or_cong e8 (or_cong e9 (or_cong e10 (or_cong e11 (or_cong e12 refl)))))))))))

  -- The octet tests block exactly the addresses in the table's blocks.
  pub v4_always_blocked-blocks :
      a < 256 → v4_always_blocked (a ∷ b ∷ c ∷ d ∷ []) ≡ any (within n) reserved_blocks
  unfolding v4_always_blocked
  v4_always_blocked-blocks a8 =
      each (in_8 127) (in_16 169 254 (omega arith)) broadcast multicast
        (starts_24 192 0 2 (omega arith) (omega arith))
        (starts_24 198 51 100 (omega arith) (omega arith))
        (starts_24 203 0 113 (omega arith) (omega arith)) (in_8 0) shared_space
        (in_24 192 0 0 (omega arith) (omega arith)) benchmarking (future_use a8)
