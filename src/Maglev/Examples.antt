-- ===== src/Maglev/Examples.antt =====
-- Tables at concrete sizes.
use plecto.Prelude.{
  ℕ, ◌<◌, ◌≡◌, refl, true, List, [], ◌∷◌, some, Text, bytes, arith, length, get_elem?, All,
}
use plecto.Hash.{murmur3_x64_128}
use plecto.Manifest.{is_prime, trial}
use plecto.Maglev.{build, lookup, backend_of, fill, turns, take_turn, probe}
use plecto.Maglev.Built.{build_complete, lookup-build}

abbrev first : Text × ℕ
first = (bytes "10.0.0.1:8080", 1)

abbrev others : List (Text × ℕ)
others = (bytes "10.0.0.2:8080", 2) ∷ (bytes "10.0.0.3:8080", 1) ∷ []

prime_13 : is_prime 13 ≡ true
unfolding is_prime trial
prime_13 = refl

thirteen_slots :
    (build (first ∷ others) 13).table ≡ 1 ∷ 2 ∷ 0 ∷ 1 ∷ 1 ∷ 0 ∷ 0 ∷ 1 ∷ 0 ∷ 2 ∷ 1 ∷ 1 ∷ 2 ∷ []
unfolding build backend_of fill turns take_turn probe murmur3_x64_128
thirteen_slots = refl

build_complete_example :
    (length (build (first ∷ others) 13).table ≡ 13)
    × All (λ i. i < 3) (build (first ∷ others) 13).table
    × ((k : ℕ) → k < 3 → (c : ℕ) × (get_elem? (build (first ∷ others) 13).table c ≡ some k))
build_complete_example =
    build_complete 13 first others prime_13 (omega arith) (omega arith) (omega arith) (omega arith)

lookup-build_example :
    (i : ℕ) × (lookup (build (first ∷ others) 13) 0xDEADBEEFCAFE ≡ some i) × (i < 3)
lookup-build_example =
    lookup-build 13 first others 0xDEADBEEFCAFE prime_13 (omega arith) (omega arith) (omega arith)
      (omega arith)
