-- ===== src/Kv/Encoding.antt =====
-- The encodings and their round trips.
use native.Mathlib.Nat.{pow-suc}
use plecto.Prelude.{ℕ, zero, suc, ◌-◌, ◌/◌, ◌^◌, ◌≤◌, ◌<◌, ◌≡◌, ◌∙◌, ap, some, arith, u64_max}
use plecto.Prelude.Int.{ℤ, pos, negsuc, ◌≤ℤ◌}
use plecto.Hash.{from_le_bytes}
use plecto.Kv.{le_bytes, signed64, pattern64, decode_i64, decode_bucket, encode_bucket}

from_le_bytes-le_bytes : (k n : ℕ) → n < 256 ^ k → from_le_bytes (le_bytes k n) ≡ n
from_le_bytes-le_bytes zero n h = omega arith
from_le_bytes-le_bytes (suc k) n h =
    omega (arith, from_le_bytes-le_bytes k (n / 256) (omega (arith, pow-suc 256 k, h)))

-- The values of an i64.
abbrev pub IsI64 : ℤ → Type 0
IsI64 z = (negsuc (2 ^ 63 - 1) ≤ℤ z) × (z ≤ℤ pos (2 ^ 63 - 1))

signed64-pattern64 : (z : ℤ) → IsI64 z → signed64 (pattern64 z) ≡ z
signed64-pattern64 (pos n) h = ground arith
signed64-pattern64 (negsuc n) h = ground arith

pattern64-lt : (z : ℤ) → IsI64 z → pattern64 z < 2 ^ 64
pattern64-lt (pos n) h = omega arith
pattern64-lt (negsuc n) h = omega arith

-- A counter that is stored is read back, for every i64.
pub decode_i64-le_bytes : (z : ℤ) → IsI64 z → decode_i64 (le_bytes 8 (pattern64 z)) ≡ z
unfolding decode_i64
decode_i64-le_bytes z h =
    ap signed64 (from_le_bytes-le_bytes 8 (pattern64 z) (pattern64-lt z h)) ∙ signed64-pattern64 z h

-- A bucket's state that is stored is read back, for every pair of u64 values.
pub decode_bucket-encode_bucket :
    (tokens last : ℕ)
    → tokens ≤ u64_max
    → last ≤ u64_max
    → decode_bucket (encode_bucket (tokens, last)) ≡ some (tokens, last)
unfolding decode_bucket encode_bucket
decode_bucket-encode_bucket tokens last t l =
    let e : from_le_bytes (le_bytes 8 tokens) ≡ tokens =
      from_le_bytes-le_bytes 8 tokens (omega arith) in
    let f : from_le_bytes (le_bytes 8 last) ≡ last = from_le_bytes-le_bytes 8 last (omega arith) in
    cc
