-- ===== src/Errors.antt =====
-- control/src/error.rs: the errors of the control plane, with the texts of their reasons as constructors,
-- and results that carry them.
use plecto.Prelude.{Bool, true, false, ◌≡◌, refl, Option, Text}
use plecto.Host.Gate.{LoadError}
use plecto.Manifest.{LbError}
use plecto.Manifest.Filters.{FilterReason}
use plecto.Weighted.{SplitError}

pub data RouteReason : Type 0 where
  both_targets no_targets : RouteReason
  split : SplitError → RouteReason

pub data RateReason : Type 0 where
  zero_rate zero_burst : RateReason

pub data ControlError : Type 0 where
  manifest_parse manifest_serialize no_manifest_path : ControlError
  trust_change_requires_restart io trust_key host_init : ControlError
  artifact digest_mismatch : Text → ControlError
  load : Text → LoadError → ControlError
  instantiate : Text → ControlError
  invalid_filter_config : Text → FilterReason → ControlError
  unknown_chain_filter duplicate_filter_id : Text → ControlError
  duplicate_upstream empty_upstream_addresses : Text → ControlError
  upstream_registry_poisoned : ControlError
  invalid_upstream_lb : Text → LbError → ControlError
  unknown_route_upstream unknown_route_filter : Text → Text → ControlError
  invalid_route : Text → RouteReason → ControlError
  invalid_route_rate_limit : Text → RateReason → ControlError
  tls_cert : Option Text → ControlError

-- Rust's `Result` with that error.
pub data Result {ℓ} (Value : Type ℓ) : Type ℓ where
  err : ControlError → Result Value
  ok : Value → Result Value

-- `?`: the first error is returned.
infixl 5 ◌>>=◌ ◌>>◌
abbrev pub ◌>>=◌ {i j} : {V : Type i} {W : Type j} → Result V → (V → Result W) → Result W
err reason >>= next = err reason
ok value >>= next = next value

-- `if` a test holds, return the error.
abbrev pub refuse_if : Bool → ControlError → Result (Unit {0})
refuse_if false reason = ok tt
refuse_if true reason = err reason

abbrev pub ◌>>◌ {i} : {W : Type i} → Result (Unit {0}) → Result W → Result W
first >> next = first >>= λ done. next

pub refuse_if-ok :
    (test : Bool) (reason : ControlError) {u : Unit {0}}
    → refuse_if test reason ≡ ok u
    → test ≡ false
refuse_if-ok false reason h = refl
refuse_if-ok true reason h = cc

-- A chain that succeeds has gone through its first step.
pub >>=-eq-ok {i j} :
    {V : Type i} {W : Type j} (first : Result V) (next : V → Result W) {w : W}
    → (first >>= next) ≡ ok w
    → (v : V) × (first ≡ ok v) × (next v ≡ ok w)
>>=-eq-ok (err reason) next h = cc
>>=-eq-ok (ok v) next h = (v, refl, h)
