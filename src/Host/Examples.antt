-- ===== src/Host/Examples.antt =====
-- Two filters of one host, their logs and the check of a component at concrete inputs.
use plecto.Prelude.{
  ℕ, ◌≡◌, ◌≢◌, refl, ap, List, [], ◌∷◌, ◌++◌, none, some, Text, bytes, text_eq, arith, All,
}
use plecto.Prelude.Int.{pos, ◌+ℤ◌}
use plecto.Kv.{get, set}
use plecto.Host.{HostState, Store, ns_key, kv_prefix_of, tag_kv}
use plecto.Host.Quota.{new_quota, admit}
use plecto.Host.Capabilities.{
  Call, set_value, delete_value, add_to_counter, perform_all, kv_set, kv_get,
}
use plecto.Host.Isolation.{OthersCalls, perform_all-isolated}
use plecto.Host.Log.{LogLevel, info, sanitize_log_message, replacement}
use plecto.Host.Gate.{Crypto, SignedArtifact, gate, verifies, sbom_binds_component, missing_sbom}

abbrev auth : HostState
auth = record { kv_prefix = kv_prefix_of (bytes "auth"); now_ms = 5; ratelimit_bucket = none }

abbrev waf : HostState
waf = record { kv_prefix = kv_prefix_of (bytes "waf"); now_ms = 5; ratelimit_bucket = none }

abbrev empty_store : Store
empty_store = record { kv = record { lookup = λ k. none }; quota = new_quota }

abbrev waf_calls : List (HostState × Call)
waf_calls =
    (waf, set_value (bytes "x") (bytes "1"))
    ∷ (waf, add_to_counter (bytes "x") (pos 2))
    ∷ (waf, delete_value (bytes "x"))
    ∷ []

auth_is_free : All (λ b. b ≢ 31) (bytes "auth")
auth_is_free = ground arith

waf_is_free : All (λ b. b ≢ 31) (bytes "waf")
waf_is_free = ground arith

waf_is_other : bytes "waf" ≢ bytes "auth"
waf_is_other e = absurd (w_is_not_a (ap first e))
  where
    first : Text → ℕ
    first [] = 0
    first (b ∷ rest) = b

    w_is_not_a : ◌≡◌ {A = ℕ} 119 97 → ⊥
    w_is_not_a e = omega arith

waf_call : (a : Text) × (waf.kv_prefix ≡ kv_prefix_of a) × All (λ b. b ≢ 31) a × (a ≢ bytes "auth")
waf_call = (bytes "waf", refl, waf_is_free, waf_is_other)

waf_others : OthersCalls (bytes "auth") waf_calls
waf_others = (waf_call, (waf_call, (waf_call, tt)))

perform_all-isolated_example :
    let t = perform_all empty_store waf_calls in
    (t.kv.lookup (ns_key auth tag_kv (bytes "x")) ≡ none)
    × (t.quota.ns auth.kv_prefix ≡ (record { entries = 0; bytes_ = 0 }))
perform_all-isolated_example =
    perform_all-isolated auth (bytes "auth") empty_store waf_calls tag_kv (bytes "x") refl
      auth_is_free waf_others

-- A value that is set is charged and read back.
set_is_read :
    kv_get auth (kv_set auth empty_store (bytes "k") (bytes "v")) (bytes "k") ≡ some (bytes "v")
unfolding kv_get kv_set admit get set ◌+ℤ◌
set_is_read = refl

abbrev lines : List (LogLevel × Text)
lines = (info, bytes "ok") ∷ (info, 27 ∷ bytes "[2J") ∷ []

escape_replaced : sanitize_log_message (27 ∷ bytes "[2J") ≡ replacement ++ bytes "[2J"
unfolding sanitize_log_message
escape_replaced = refl

-- U+009B alone passes: the code looks for a byte below 0x20 or 0x7F before it replaces anything.
control_sequence_introducer_kept :
    sanitize_log_message (194 ∷ 155 ∷ bytes "2J") ≡ 194 ∷ 155 ∷ bytes "2J"
unfolding sanitize_log_message
control_sequence_introducer_kept = refl

-- A key verifies a signature that equals the message, a digest is the message, and a JSON document is one
-- string that every lookup returns.
abbrev pub toy : Crypto ℕ Text
toy = record {
  verify_signature = λ key signature msg. text_eq signature msg;
  sha256_hex = λ msg. msg;
  from_slice = λ s. some s;
  get = λ v name. some v;
  as_array = λ v. some (v ∷ []);
  as_str = λ v. some v;
}

abbrev pub signed : SignedArtifact
signed = record {
  component_bytes = bytes "wasm";
  component_signature = bytes "wasm";
  sbom = bytes "wasm";
  sbom_signature = bytes "wasm";
}

signed_passes : gate toy (1 ∷ []) (bytes "auth") signed ≡ none
unfolding gate verifies sbom_binds_component
signed_passes = refl

unsigned_refused :
    gate toy (1 ∷ []) (bytes "auth") (record signed { sbom = [] }) ≡ some missing_sbom
unfolding gate verifies sbom_binds_component
unsigned_refused = refl
