-- ===== src/Upstream/Registry/Examples.antt =====
-- A reload of one upstream: its first address is kept, its second is new.
use plecto.Prelude.{ℕ, ◌≡◌, refl, Bool, false, [], ◌∷◌, none, some, bytes}
use plecto.Manifest.{
  bare, weighted, use_round_robin, validate_lb, weight_of, address_of, weight_error,
  algorithm_error, hash_error,
}
use plecto.Upstream.Lb.Examples.{pool, config}
use plecto.Errors.{duplicate_upstream}
use plecto.Upstream.Registry.{
  UpstreamSpec, UpstreamRegistry, reconcile, build_group, reusable, instances_of, validate_from,
}

abbrev pub web : UpstreamSpec
web = record {
  name = bytes "web";
  balancing = record {
    addresses = bare (bytes "10.0.0.1:80") ∷ weighted (bytes "10.0.0.7:80") 2 ∷ [];
    lb_algorithm = use_round_robin;
    hash = none;
  };
  health = config;
  request_timeout_ms = 30000;
  overall_timeout_ms = 0;
  max_retries = 1;
  max_requests = 0;
  consecutive_gateway_failures = 0;
  base_ejection_time_ms = 30000;
  max_ejection_percent = 50;
}

abbrev registry : UpstreamRegistry
registry = record { groups = λ name. some 0 }

abbrev space : ℕ → Bool
space c = false

all_kept : reusable pool (some 0) config ≡ 0 ∷ 1 ∷ 2 ∷ []
unfolding reusable
all_kept = refl

-- The first address keeps the instance 0; the second gets a new one.
rebuilt : (build_group pool (some 0) web).0.instances ≡ 0 ∷ 3 ∷ []
unfolding build_group reusable instances_of weight_of address_of
rebuilt = refl

twice_refused :
    (reconcile space pool registry (web ∷ web ∷ [])).0 ≡ some (duplicate_upstream (bytes "web"))
unfolding reconcile validate_from validate_lb weight_of weight_error algorithm_error hash_error
twice_refused = refl

-- The same address twice in one upstream: the second reload gives both places one instance.
abbrev doubled : UpstreamSpec
doubled = record web {
  balancing = record web.balancing {
    addresses = bare (bytes "10.0.0.1:80") ∷ bare (bytes "10.0.0.1:80") ∷ [];
  };
}

doubled_shared : (build_group pool (some 0) doubled).0.instances ≡ 0 ∷ 0 ∷ []
unfolding build_group reusable instances_of weight_of address_of
doubled_shared = refl
