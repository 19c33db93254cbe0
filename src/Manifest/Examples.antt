-- ===== src/Manifest/Examples.antt =====
-- Validation at concrete configurations, and an entry lowered.
use plecto.Prelude.{
  ℕ, ◌<◌, Text, ◌≡◌, refl, true, false, List, [], ◌∷◌, Option, none, some, bytes, ◌==◌,
}
use plecto.Manifest.{
  bare, weighted, weight_of, AddressSpec, HashConfig, Upstream, by_source_ip, use_maglev,
  validate_lb, weight_error, algorithm_error, hash_error, header_missing, trial, is_prime,
}
use plecto.Manifest.Filters.{
  FilterEntry, untrusted, validate, ratelimit_error, allow_error, cidr_error, bounds_error,
  validate_outbound, load_options, http,
}
use plecto.Manifest.Lowered.{Refills, Lent, validate-load_options}

prime_251 : is_prime 251 ≡ true
unfolding is_prime trial
prime_251 = refl

not_prime_169 : is_prime 169 ≡ false
unfolding is_prime trial
not_prime_169 = refl

abbrev addresses : List AddressSpec
addresses = bare (bytes "a:80") ∷ weighted (bytes "b:80") 3 ∷ []

abbrev hash : HashConfig
hash = record { key = by_source_ip; header = none; table_size = 251 }

abbrev up : Upstream
up = record { addresses = addresses; lb_algorithm = use_maglev; hash = some hash }

accepted : validate_lb (λ c. c == 32) up ≡ none
unfolding validate_lb weight_of weight_error algorithm_error hash_error header_missing is_prime
    trial
accepted = refl

-- One address stands for a CIDR block here.
abbrev parse : Text → Option ℕ
parse cidr = elim cidr [ [] ↦ none | c ∷ rest ↦ some c ]

abbrev lent : FilterEntry
lent = record {
  id = bytes "auth";
  source = bytes "auth.oci";
  digest = bytes "sha256:00";
  isolation = untrusted;
  init_deadline_ms = none;
  request_deadline_ms = some 50;
  max_memory_bytes = none;
  ratelimit = some (record { capacity = 10; refill_tokens = 1; refill_interval_ms = 100 });
  outbound = some (record {
    allow = record { host = bytes "api.example"; port = none; scheme = http } ∷ [];
    allow_private = bytes "a" ∷ [];
    connect_timeout_ms = none;
    total_timeout_ms = some 1000;
    max_response_bytes = none;
    max_concurrent = some 2;
  });
}

lent_accepted : validate true (λ c. c == 32) parse lent ≡ none
unfolding validate ratelimit_error validate_outbound allow_error cidr_error bounds_error
lent_accepted = refl

validate-load_options_example :
    let o = load_options parse lent in
    (0 < o.init_deadline_ms)
    × (0 < o.request_deadline_ms)
    × (0 < o.max_memory_bytes)
    × Refills o.ratelimit_bucket
    × Lent parse lent.outbound o.outbound
validate-load_options_example = validate-load_options true (λ c. c == 32) parse lent lent_accepted
