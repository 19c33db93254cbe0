-- ===== src/Host/Effect.antt =====
-- What one call of a filter can change in the store that all filters share.
use plecto.Prelude.{
  ℕ, ◌+◌, ◌≡◌, ◌⊎◌, ◌∙◌, refl, ap, false, Option, none, some, Text, length, Bool-cases, inl, inr,
}
use plecto.Prelude.Int.{ℤ, pos, sub_ℕ}
use plecto.Bucket.{Bucket, apply_bucket}
use plecto.Kv.{
  MemoryBackend, get, set, delete, increment, try_acquire, is_zero, put, le_bytes, pattern64,
  saturating_add_i64, decode_i64, or_empty, encode_bucket, bucket_input,
}
use plecto.Host.{HostState, Store, ns_key, tag_kv, tag_counter, tag_ratelimit}
use plecto.Host.Quota.{admit, release}
use plecto.Host.Capabilities.{
  Call, set_value, delete_value, add_to_counter, acquire_tokens, perform, kv_set, kv_set_charged,
  kv_delete, kv_delete_found, counter_increment, ratelimit_try_acquire, ratelimit_spent, charge_new,
  charge_of, too_long, is_some,
}

-- What a call does to the store is one charge at most, to its own namespace, and one write at most, under
-- one of its own keys.
abbrev pub Charge : HostState → Store → Store → Type 0
Charge h s t =
    (t.quota ≡ s.quota)
    ⊎ ((entries : ℤ) × (bytes_ : ℤ) × (t.quota ≡ (admit s.quota h.kv_prefix entries bytes_).1))

abbrev pub Write : HostState → MemoryBackend → MemoryBackend → Type 0
Write h m m' =
    (m' ≡ m) ⊎ ((tag : ℕ) × (own : Text) × (v : Option Text) × (m' ≡ put m (ns_key h tag own) v))

abbrev pub Effect : HostState → Store → Store → Type 0
Effect h s t = Charge h s t × Write h s.kv t.kv

idle-Effect : (h : HostState) (s : Store) → Effect h s s
idle-Effect h s = (inl refl, inl refl)

kv_set-Effect : (h : HostState) (s : Store) (key value : Text) → Effect h s (kv_set h s key value)
unfolding kv_set set
kv_set-Effect h s key value = elim (Bool-cases (too_long key value)) [
  | inl e ↦ rw e (idle-Effect h s)
  | inr e ↦ rw e (after (charge_of (length key) value (get s.kv (ns_key h tag_kv key))))
]
  where
    after : (d : ℤ × ℤ) → Effect h s (kv_set_charged h s key value d)
    after (entries, bytes_) = elim (Bool-cases (admit s.quota h.kv_prefix entries bytes_).0) [
      | inl e ↦ rw e (inr (entries, bytes_, refl), inr (tag_kv, key, some value, refl))
      | inr e ↦ rw e (idle-Effect h s)
    ]

kv_delete-Effect : (h : HostState) (s : Store) (key : Text) → Effect h s (kv_delete h s key)
unfolding kv_delete delete release
kv_delete-Effect h s key = after (get s.kv (ns_key h tag_kv key))
  where
    after : (old : Option Text) → Effect h s (kv_delete_found h s key old)
    after none = idle-Effect h s
    after (some old) =
        (inr (sub_ℕ 0 1, sub_ℕ 0 (length key + length old), refl), inr (tag_kv, key, none, refl))

-- A charge for a new key, and then a write under it if the charge was admitted.
charge_new-Charge :
    (h : HostState) (s : Store) (tag : ℕ) (key : Text) (size : ℕ)
    → Charge h s (charge_new h s tag key size).1 × ((charge_new h s tag key size).1.kv ≡ s.kv)
charge_new-Charge h s tag key size = elim (Bool-cases (is_some (get s.kv (ns_key h tag key)))) [
  | inl e ↦ rw e (inl refl, refl)
  | inr e ↦ rw e (inr (pos 1, pos (length key + size), refl), refl)
]

increment-put :
    (m : MemoryBackend) (key : Text) (delta : ℤ)
    → is_zero delta ≡ false
    → (v : Option Text) × ((increment m key delta).0 ≡ put m key v)
unfolding increment
increment-put m key delta e = (
  some (le_bytes 8 (pattern64 (saturating_add_i64 (decode_i64 (or_empty (m.lookup key))) delta))),
  rw e refl,
)

try_acquire-put :
    (m : MemoryBackend) (key : Text) (cost : ℕ) (spec : Bucket) (now_ms : ℕ)
    → (v : Option Text) × ((try_acquire m key cost spec now_ms).0 ≡ put m key v)
unfolding try_acquire
try_acquire-put m key cost spec now_ms = (
  some (encode_bucket (apply_bucket (bucket_input (m.lookup key) now_ms) cost spec now_ms).0),
  refl,
)

-- A write into a store that a charge has left as it was.
written :
    (h : HostState) (m m' out : MemoryBackend) (tag : ℕ) (key : Text)
    → m' ≡ m
    → (v : Option Text) × (out ≡ put m' (ns_key h tag key) v)
    → Write h m out
written h m m' out tag key same (v, e) =
    inr (tag, key, v, e ∙ ap (λ m. put m (ns_key h tag key) v) same)

counter_increment-Effect :
    (h : HostState) (s : Store) (key : Text) (delta : ℤ)
    → Effect h s (counter_increment h s key delta).0
unfolding counter_increment
counter_increment-Effect h s key delta = elim (Bool-cases (is_zero delta)) [
  | inl e ↦ rw e (idle-Effect h s)
  | inr e ↦
      let (charge, same) = charge_new-Charge h s tag_counter key 8 in
      elim (Bool-cases (charge_new h s tag_counter key 8).0) [
        | inl c ↦
            rw (e, c)
              (
                charge,
                written h s.kv _ _ tag_counter key same
                    (increment-put _ (ns_key h tag_counter key) delta e),
              )
        | inr c ↦ rw (e, c) (charge, inl same)
      ]
]

ratelimit_try_acquire-Effect :
    (h : HostState) (s : Store) (key : Text) (cost : ℕ)
    → Effect h s (ratelimit_try_acquire h s key cost).0
unfolding ratelimit_try_acquire
ratelimit_try_acquire-Effect h s key cost = after h.ratelimit_bucket
  where
    after :
        (bucket : Option Bucket)
        → Effect h s (ratelimit_spent h s key cost bucket (charge_new h s tag_ratelimit key 16)).0
    after none = idle-Effect h s
    after (some spec) =
        let (charge, same) = charge_new-Charge h s tag_ratelimit key 16 in
        elim (Bool-cases (charge_new h s tag_ratelimit key 16).0) [
          | inl c ↦ rw c (
            charge,
            written h s.kv _ _ tag_ratelimit key same
                (try_acquire-put _ (ns_key h tag_ratelimit key) cost spec h.now_ms),
          )
          | inr c ↦ rw c (charge, inl same)
        ]

pub perform-Effect : (h : HostState) (s : Store) (c : Call) → Effect h s (perform h s c)
unfolding perform
perform-Effect h s (set_value key value) = kv_set-Effect h s key value
perform-Effect h s (delete_value key) = kv_delete-Effect h s key
perform-Effect h s (add_to_counter key delta) = counter_increment-Effect h s key delta
perform-Effect h s (acquire_tokens key cost) = ratelimit_try_acquire-Effect h s key cost
