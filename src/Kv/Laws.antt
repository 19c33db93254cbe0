-- ===== src/Kv/Laws.antt =====
-- What a filter sees of the in-memory store.
use plecto.Prelude.{
  ℕ, ◌+◌, ◌-◌, ◌*◌, ◌/◌, ◌^◌, ◌<◌, ◌≡◌, ◌≢◌, false, Option, none, some, Text, text_eq, text_eq_refl,
  length, if◌then◌else◌, ◌==◌, arith, u64_max, min, take, drop, Bool-cases, inl, inr,
}
use plecto.Prelude.Int.{ℤ, pos, negsuc, ◌+ℤ◌, ltb_ℤ}
use plecto.Hash.{from_le_bytes}
use plecto.Bucket.{Bucket, apply_bucket, refill, consume, no_refill}
use plecto.Kv.{
  MemoryBackend, put, get, set, delete, increment, try_acquire, saturating_add_i64, is_zero,
  bucket_input, decode_bucket, decode_i64, or_empty, le_bytes, pattern64,
}
use plecto.Kv.Encoding.{IsI64, decode_i64-le_bytes}

saturating_add_i64-IsI64 : (a b : ℤ) → IsI64 (saturating_add_i64 a b)
saturating_add_i64-IsI64 a b = clamped (a +ℤ b)
  where
    clamped :
        (s : ℤ)
        → IsI64 (
            if ltb_ℤ (pos (2 ^ 63 - 1)) s
            then pos (2 ^ 63 - 1)
            else if ltb_ℤ s (negsuc (2 ^ 63 - 1))
            then negsuc (2 ^ 63 - 1)
            else s)
    clamped (pos n) = ground arith
    clamped (negsuc n) = ground arith

-- A counter that was changed reads as the value that the change returned, and reading changes nothing.
pub increment_read :
    (m : MemoryBackend) (key : Text) (delta : ℤ)
    → is_zero delta ≡ false
    → increment (increment m key delta).0 key (pos 0) ≡ increment m key delta
unfolding increment
increment_read m key delta nonzero = rw nonzero (rw (text_eq_refl key) (λ i. (m', stored i)))
  where
    next : ℤ
    next = saturating_add_i64 (decode_i64 (or_empty (m.lookup key))) delta

    m' : MemoryBackend
    m' = put m key (some (le_bytes 8 (pattern64 next)))

    stored : decode_i64 (le_bytes 8 (pattern64 next)) ≡ next
    stored = decode_i64-le_bytes next (saturating_add_i64-IsI64 _ delta)

-- No operation on one key changes what another key holds.
pub other_key :
    (m : MemoryBackend) (key other value : Text) (delta : ℤ) (cost : ℕ) (spec : Bucket) (now_ms : ℕ)
    → text_eq key other ≡ false
    → (get (set m key value) other ≡ get m other)
      × (get (delete m key) other ≡ get m other)
      × (get (increment m key delta).0 other ≡ get m other)
      × (get (try_acquire m key cost spec now_ms).0 other ≡ get m other)
unfolding get set delete increment try_acquire
other_key m key other value delta cost spec now_ms e = (rw e, rw e, ground arith, rw e)

sub_self : (n : ℕ) → n - n ≡ 0
sub_self n = omega arith

zero_div : (n : ℕ) → 0 / n ≡ 0
zero_div n = ground arith

-- No time has passed since the mark, so nothing is gained.
empty_refill : (spec : Bucket) (now_ms : ℕ) → (refill (some (0, now_ms)) spec now_ms).0 ≡ 0
unfolding refill
empty_refill spec now_ms = elim (Bool-cases (no_refill spec)) [
  | inl e ↦ rw e (omega arith)
  | inr e ↦ rw (e, sub_self now_ms) none_gained
]
  where
    none_gained :
        min
          (min (0 + min (0 / spec.refill_interval_ms * spec.refill_tokens) u64_max) u64_max)
          spec.capacity
        ≡ 0
    none_gained = rw (zero_div spec.refill_interval_ms) (omega arith)

consume_short :
    (cost : ℕ) (spec : Bucket) (s : ℕ × ℕ) → s.0 < cost → (consume cost spec s).1.allowed ≡ false
unfolding consume
consume_short cost spec (t, l) h = ground arith

empty_denied :
    (cost : ℕ) (spec : Bucket) (now_ms : ℕ)
    → 0 < cost
    → (apply_bucket (some (0, now_ms)) cost spec now_ms).1.allowed ≡ false
unfolding apply_bucket
empty_denied cost spec now_ms h = consume_short cost spec _ (rw (empty_refill spec now_ms) h)

corrupt_input :
    (b : Text) (now_ms : ℕ) → length b ≢ 16 → bucket_input (some b) now_ms ≡ some (0, now_ms)
unfolding bucket_input decode_bucket
corrupt_input b now_ms bad = λ i.
    elim (if◌then◌else◌ {A = Option (ℕ × ℕ)} (not_sixteen i)
      (some (from_le_bytes (take 8 b), from_le_bytes (take 8 (drop 8 b)))) none) [
        | none ↦ some (0, now_ms)
        | some s ↦ some s
      ]
  where
    not_sixteen : (length b == 16) ≡ false
    not_sixteen = ground arith

-- A stored bucket that is corrupt, of any length but 16 bytes, denies: the limiter fails closed.
pub try_acquire_corrupt :
    (m : MemoryBackend) (key b : Text) (cost : ℕ) (spec : Bucket) (now_ms : ℕ)
    → get m key ≡ some b
    → length b ≢ 16
    → 0 < cost
    → (try_acquire m key cost spec now_ms).1.allowed ≡ false
unfolding get try_acquire
try_acquire_corrupt m key b cost spec now_ms held bad pays =
    rw held (rw (corrupt_input b now_ms bad) (empty_denied cost spec now_ms pays))
