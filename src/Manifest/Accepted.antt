-- ===== src/Manifest/Accepted.antt =====
-- What an upstream that validation accepts can rely on.
use plecto.Prelude.{
  ℕ, ◌≤◌, ◌≡◌, refl, Bool, true, List, [], ◌∷◌, Option, none, some, arith, length, All, ◌<◌,
}
use plecto.Manifest.{
  weight_of, AddressSpec, LbAlgorithm, use_round_robin, use_least_request, use_maglev, HashConfig,
  Upstream, LbError, is_prime, algorithm_error, hash_error, weight_error, or_error, validate_lb,
}

or_error-none : (e f : Option LbError) → or_error e f ≡ none → (e ≡ none) × (f ≡ none)
or_error-none none f h = (refl, h)
or_error-none (some e) f h = ground (arith, h)

-- What the hash configuration of an accepted upstream promises.
abbrev Usable : ℕ → HashConfig → Type 0
Usable instances hash =
    (is_prime hash.table_size ≡ true)
    × (hash.table_size ≤ 5000011)
    × (instances ≤ hash.table_size)
    × (instances ≤ 65535)

hash_error-Usable :
    (space : ℕ → Bool) (instances : ℕ) (hash : HashConfig)
    → hash_error space instances (some hash) ≡ none
    → Usable instances hash
unfolding hash_error
hash_error-Usable space instances hash h = ground (arith, h)

algorithm_error-none :
    (algorithm : LbAlgorithm) (hash : HashConfig)
    → algorithm_error algorithm (some hash) ≡ none
    → algorithm ≡ use_maglev
unfolding algorithm_error
algorithm_error-none use_maglev hash h = refl
algorithm_error-none use_round_robin hash h = ground (arith, h)
algorithm_error-none use_least_request hash h = ground (arith, h)

abbrev pub Weighed : AddressSpec → Type 0
Weighed a = (0 < weight_of a) × (weight_of a ≤ 1000)

weight_error-none : (specs : List AddressSpec) → weight_error specs ≡ none → All Weighed specs
unfolding weight_error
weight_error-none [] h = tt
weight_error-none (a ∷ rest) h =
    ((ground (arith, h), ground (arith, h)), weight_error-none rest (ground (arith, h)))

-- An accepted upstream weighs each instance from 1 to 1000; and if it has a hash configuration, then it uses
-- Maglev, and the table's size passes the test of primality, is at most 5000011, and is not below the
-- number of instances, which fits a u16.
pub validate_lb_accepts :
    (space : ℕ → Bool) (up : Upstream) (hash : HashConfig)
    → validate_lb space up ≡ none
    → up.hash ≡ some hash
    → All Weighed up.addresses
      × (up.lb_algorithm ≡ use_maglev)
      × (is_prime hash.table_size ≡ true)
      × (hash.table_size ≤ 5000011)
      × (length up.addresses ≤ hash.table_size)
      × (length up.addresses ≤ 65535)
unfolding validate_lb
validate_lb_accepts space up hash h held =
    let (weights, rest) = or_error-none _ _ h in
    let (algorithm, table) =
      or_error-none (algorithm_error up.lb_algorithm up.hash)
        (hash_error space (length up.addresses) up.hash) rest in
    let usable = hash_error-Usable space (length up.addresses) hash (rw held at table) in
    (
      weight_error-none up.addresses weights,
      algorithm_error-none up.lb_algorithm hash (rw held at algorithm),
      usable.0,
      usable.1,
      usable.2,
      usable.3,
    )
