-- ===== src/Host/Capabilities.antt =====
-- host/src/lib.rs: the host side of `host-kv`, `host-counter` and `host-ratelimit`. A refused call
-- changes nothing.
use plecto.Prelude.{
  ℕ, ◌+◌, Bool, true, false, ◌||◌, List, [], ◌∷◌, Option, none, some, Text, length, if◌then◌else◌,
  ltb,
}
use plecto.Prelude.Int.{ℤ, pos, sub_ℕ}
use plecto.Bucket.{Bucket, Acquire}
use plecto.Kv.{get, set, delete, increment, try_acquire, is_zero}
use plecto.Host.{
  HostState, Store, ns_key, tag_kv, tag_counter, tag_ratelimit, max_kv_key_bytes,
  max_kv_value_bytes,
}
use plecto.Host.Quota.{admit, release}

abbrev pub charge_of : ℕ → Text → Option Text → ℤ × ℤ
charge_of key_length value none = (pos 1, pos (key_length + length value))
charge_of key_length value (some old) = (pos 0, sub_ℕ (length value) (length old))

abbrev pub too_long : Text → Text → Bool
too_long key value = ltb max_kv_key_bytes (length key) || ltb max_kv_value_bytes (length value)

unfoldable pub kv_get : HostState → Store → Text → Option Text
kv_get h s key = get s.kv (ns_key h tag_kv key)

-- The store after a `set` that was charged, or was not.
abbrev pub kv_set_charged : HostState → Store → Text → Text → ℤ × ℤ → Store
kv_set_charged h s key value (entries, bytes_) =
    let (admitted, quota) = admit s.quota h.kv_prefix entries bytes_ in
    if admitted then record { kv = set s.kv (ns_key h tag_kv key) value; quota = quota } else s

unfoldable pub kv_set : HostState → Store → Text → Text → Store
kv_set h s key value =
    if too_long key value
    then s
    else kv_set_charged h s key value
        (charge_of (length key) value (get s.kv (ns_key h tag_kv key)))

abbrev pub kv_delete_found : HostState → Store → Text → Option Text → Store
kv_delete_found h s key none = s
kv_delete_found h s key (some old) = record {
  kv = delete s.kv (ns_key h tag_kv key);
  quota = release s.quota h.kv_prefix 1 (length key + length old);
}

unfoldable pub kv_delete : HostState → Store → Text → Store
kv_delete h s key = kv_delete_found h s key (get s.kv (ns_key h tag_kv key))

abbrev pub is_some {ℓ} : {A : Type ℓ} → Option A → Bool
is_some none = false
is_some (some a) = true

-- What a value of `size` bytes under a new key is charged; one under a key that exists is not.
abbrev pub charge_new : HostState → Store → ℕ → Text → ℕ → Bool × Store
charge_new h s tag key size =
    let (admitted, quota) = admit s.quota h.kv_prefix (pos 1) (pos (length key + size)) in
    if is_some (get s.kv (ns_key h tag key))
    then (true, s)
    else (admitted, record s { quota = quota })

unfoldable pub counter_increment : HostState → Store → Text → ℤ → Store × ℤ
counter_increment h s key delta =
    let (charged, s') = charge_new h s tag_counter key 8 in
    let (kv, value) = increment s'.kv (ns_key h tag_counter key) delta in
    if is_zero delta
    then (s, (increment s.kv (ns_key h tag_counter key) delta).1)
    else if charged
    then (record s' { kv = kv }, value)
    else (s', pos 0)

unfoldable pub counter_get : HostState → Store → Text → ℤ
counter_get h s key = (increment s.kv (ns_key h tag_counter key) (pos 0)).1

abbrev pub denied : Acquire
denied = record { allowed = false; remaining = 0; retry_after_ms = 0 }

-- With no bucket configured the call is denied; so is a new key that could not be charged.
abbrev pub ratelimit_spent :
    HostState → Store → Text → ℕ → Option Bucket → Bool × Store → Store × Acquire
ratelimit_spent h s key cost none charge = (s, denied)
ratelimit_spent h s key cost (some spec) (charged, s') =
    let (kv, result) = try_acquire s'.kv (ns_key h tag_ratelimit key) cost spec h.now_ms in
    if charged then (record s' { kv = kv }, result) else (s', denied)

unfoldable pub ratelimit_try_acquire : HostState → Store → Text → ℕ → Store × Acquire
ratelimit_try_acquire h s key cost =
    ratelimit_spent h s key cost h.ratelimit_bucket (charge_new h s tag_ratelimit key 16)

-- The calls that a filter makes, and what one does to the store.
pub data Call : Type 0 where
  set_value : Text → Text → Call
  delete_value : Text → Call
  add_to_counter : Text → ℤ → Call
  acquire_tokens : Text → ℕ → Call

unfoldable pub perform : HostState → Store → Call → Store
perform h s (set_value key value) = kv_set h s key value
perform h s (delete_value key) = kv_delete h s key
perform h s (add_to_counter key delta) = (counter_increment h s key delta).0
perform h s (acquire_tokens key cost) = (ratelimit_try_acquire h s key cost).0

-- Any number of filters' calls, in the order in which they take effect.
unfoldable pub perform_all : Store → List (HostState × Call) → Store
perform_all s [] = s
perform_all s ((h, c) ∷ rest) = perform_all (perform h s c) rest
