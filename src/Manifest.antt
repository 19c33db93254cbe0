-- ===== src/Manifest.antt =====
-- control/src/manifest: what validation reads of an upstream's load-balancing configuration (mod.rs), and
-- the validation itself (validate.rs). The texts of the errors are named by constructors.
pub mod Accepted
pub mod Examples
pub mod Prime
pub mod Filters
pub mod Lowered
use plecto.Prelude.{
  ℕ, zero, suc, ◌+◌, ◌*◌, ◌%◌, Bool, true, false, ◌&&◌, ◌||◌, not, List, [], ◌∷◌, Option, none,
  some, Text, text_eq, length, find, if◌then◌else◌, ltb, leb, ◌==◌,
}

pub data AddressSpec : Type 0 where
  bare : Text → AddressSpec
  weighted : Text → ℕ → AddressSpec

unfoldable pub address_of : AddressSpec → Text
address_of (bare a) = a
address_of (weighted a w) = a

unfoldable pub weight_of : AddressSpec → ℕ
weight_of (bare a) = 1
weight_of (weighted a w) = w

pub data LbAlgorithm : Type 0 where
  use_round_robin use_least_request use_maglev : LbAlgorithm

pub data HashKeyKind : Type 0 where
  by_header by_source_ip : HashKeyKind

pub record HashConfig : Type 0 where
  pub key : HashKeyKind
  pub header : Option Text
  pub table_size : ℕ

-- The fields of an upstream that `validate_lb` reads.
pub record Upstream : Type 0 where
  pub addresses : List AddressSpec
  pub lb_algorithm : LbAlgorithm
  pub hash : Option HashConfig

abbrev max_instance_weight : ℕ
max_instance_weight = 1000

abbrev max_hash_table_size : ℕ
max_hash_table_size = 5000011

pub data LbError : Type 0 where
  weight_zero weight_over : Text → LbError
  hash_missing hash_unused header_empty : LbError
  table_over table_not_prime : ℕ → LbError
  table_small instances_over : ℕ → LbError

-- The loop of trial division from `d` on, for `fuel` odd numbers.
unfoldable pub trial : ℕ → ℕ → ℕ → Bool
trial zero d n = true
trial (suc fuel) d n =
    let rest = trial fuel (d + 2) n in
    if ltb n (d * d) then true else if n % d == 0 then false else rest

-- `n` odd numbers from 3 on are enough to pass the root of `n`.
unfoldable pub is_prime : ℕ → Bool
is_prime n = if ltb n 2 then false else if n % 2 == 0 then n == 2 else trial n 3 n

unfoldable pub weight_error : List AddressSpec → Option LbError
weight_error [] = none
weight_error (a ∷ rest) =
    let more = weight_error rest in
    if weight_of a == 0
    then some (weight_zero (address_of a))
    else if ltb max_instance_weight (weight_of a)
    then some (weight_over (address_of a))
    else more

unfoldable pub algorithm_error : LbAlgorithm → Option HashConfig → Option LbError
algorithm_error use_maglev none = some hash_missing
algorithm_error use_maglev (some hash) = none
algorithm_error use_round_robin none = none
algorithm_error use_round_robin (some hash) = some hash_unused
algorithm_error use_least_request none = none
algorithm_error use_least_request (some hash) = some hash_unused

-- `trim` leaves nothing: `space` says what it takes off.
pub is_blank : (ℕ → Bool) → Option Text → Bool
is_blank space none = true
is_blank space (some []) = true
is_blank space (some (x ∷ s)) = space x && is_blank space (some s)

pub header_missing : (ℕ → Bool) → HashConfig → Bool
header_missing space hash = elim hash.key [
  | by_header ↦ is_blank space hash.header
  | by_source_ip ↦ false
]

unfoldable pub hash_error : (ℕ → Bool) → ℕ → Option HashConfig → Option LbError
hash_error space instances none = none
hash_error space instances (some hash) =
    let m = hash.table_size in
    if header_missing space hash
    then some header_empty
    else if ltb max_hash_table_size m
    then some (table_over m)
    else if not (is_prime m)
    then some (table_not_prime m)
    else if ltb m instances
    then some (table_small instances)
    else if ltb 65535 instances
    then some (instances_over instances)
    else none

abbrev pub or_error : Option LbError → Option LbError → Option LbError
or_error none e = e
or_error (some e) f = some e

-- The first error, in the order of the checks.
unfoldable pub validate_lb : (ℕ → Bool) → Upstream → Option LbError
validate_lb space up = or_error (weight_error up.addresses) (
    or_error (algorithm_error up.lb_algorithm up.hash)
      (hash_error space (length up.addresses) up.hash))
