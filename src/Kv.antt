-- ===== src/Kv.antt =====
-- host/src/backend.rs: the encodings of counters and bucket states, and the in-memory store. Each
-- method holds the store's lock, so it is one step on the map.
pub mod Examples
pub mod Encoding
pub mod Laws
use plecto.Prelude.{
  ℕ, zero, suc, ◌+◌, ◌-◌, ◌*◌, ◌/◌, ◌%◌, ◌^◌, Bool, true, false, List, [], ◌∷◌, ◌++◌, Option, none,
  some, Text, text_eq, take, drop, replicate, length, if◌then◌else◌, ltb, ◌==◌, u64_mod,
}
use plecto.Prelude.Int.{ℤ, pos, negsuc, ◌+ℤ◌, ltb_ℤ}
use plecto.Hash.{from_le_bytes}
use plecto.Bucket.{Bucket, Acquire, apply_bucket}

-- `to_le_bytes` of `k` bytes.
abbrev pub le_bytes : ℕ → ℕ → Text
le_bytes zero n = []
le_bytes (suc k) n = n % 256 ∷ le_bytes k (n / 256)

-- The i64 of a u64 bit pattern, and the pattern of an i64.
abbrev pub signed64 : ℕ → ℤ
signed64 w = if ltb w (2 ^ 63) then pos w else negsuc (u64_mod - w - 1)

abbrev pub pattern64 : ℤ → ℕ
pattern64 (pos n) = n
pattern64 (negsuc n) = u64_mod - 1 - n

-- `i64::saturating_add`.
abbrev pub saturating_add_i64 : ℤ → ℤ → ℤ
saturating_add_i64 a b =
    if ltb_ℤ (pos (2 ^ 63 - 1)) (a +ℤ b)
    then pos (2 ^ 63 - 1)
    else if ltb_ℤ (a +ℤ b) (negsuc (2 ^ 63 - 1))
    then negsuc (2 ^ 63 - 1)
    else a +ℤ b

pub decode_i64 : Text → ℤ
decode_i64 b = signed64 (from_le_bytes (take 8 (take 8 b ++ replicate 8 0)))

pub decode_bucket : Text → Option (ℕ × ℕ)
decode_bucket b =
    if length b == 16
    then some (from_le_bytes (take 8 b), from_le_bytes (take 8 (drop 8 b)))
    else none

pub encode_bucket : ℕ × ℕ → Text
encode_bucket (tokens, last) = le_bytes 8 tokens ++ le_bytes 8 last

-- Present but malformed bytes are an empty bucket.
pub bucket_input : Option Text → ℕ → Option (ℕ × ℕ)
bucket_input none now_ms = none
bucket_input (some b) now_ms = elim (decode_bucket b) [ none ↦ some (0, now_ms) | some s ↦ some s ]

-- `HashMap<Vec<u8>, Vec<u8>>`.
pub record MemoryBackend : Type 0 where
  pub lookup : Text → Option Text

abbrev pub put : MemoryBackend → Text → Option Text → MemoryBackend
put m key v = record { lookup = λ k. if text_eq key k then v else m.lookup k }

unfoldable pub get : MemoryBackend → Text → Option Text
get m key = m.lookup key

unfoldable pub set : MemoryBackend → Text → Text → MemoryBackend
set m key value = put m key (some value)

unfoldable pub delete : MemoryBackend → Text → MemoryBackend
delete m key = put m key none

abbrev pub or_empty : Option Text → Text
or_empty none = []
or_empty (some b) = b

abbrev pub is_zero : ℤ → Bool
is_zero (pos n) = n == 0
is_zero (negsuc n) = false

unfoldable pub increment : MemoryBackend → Text → ℤ → MemoryBackend × ℤ
increment m key delta =
    let cur = decode_i64 (or_empty (m.lookup key)) in
    let next = saturating_add_i64 cur delta in
    if is_zero delta then (m, cur) else (put m key (some (le_bytes 8 (pattern64 next))), next)

unfoldable pub try_acquire : MemoryBackend → Text → ℕ → Bucket → ℕ → MemoryBackend × Acquire
try_acquire m key cost spec now_ms =
    let (next, result) = apply_bucket (bucket_input (m.lookup key) now_ms) cost spec now_ms in
    (put m key (some (encode_bucket next)), result)
