-- ===== src/Hash.antt =====
-- control/src/hash.rs: MurmurHash3 (x64, 128 bits) on u64 words.
use Prim.Native.Nat.{bit_xor}
use plecto.Prelude.{
  ℕ, zero, suc, ◌+◌, ◌-◌, ◌*◌, ◌/◌, ◌%◌, ◌^◌, [], ◌∷◌, ◌++◌, Text, length, get_or, take, drop,
  replicate, min, if◌then◌else◌, leb, u64_mod, ◌≡◌, refl, bytes,
}

abbrev c1 : ℕ
c1 = 0x87c37b91114253d5

abbrev c2 : ℕ
c2 = 0x4cf5ad432745937f

abbrev pub wrapping_mul : ℕ → ℕ → ℕ
wrapping_mul a b = a * b % u64_mod

abbrev pub wrapping_add : ℕ → ℕ → ℕ
wrapping_add a b = (a + b) % u64_mod

abbrev rotate_left : ℕ → ℕ → ℕ
rotate_left x k = x * 2 ^ k % u64_mod + x / 2 ^ (64 - k)

abbrev pub xor_shift : ℕ → ℕ → ℕ
xor_shift x k = bit_xor x (x / 2 ^ k)

fmix64 : ℕ → ℕ
fmix64 k =
    let a = xor_shift k 33 in
    let b = wrapping_mul a 0xff51afd7ed558ccd in
    let c = xor_shift b 33 in let d = wrapping_mul c 0xc4ceb9fe1a85ec53 in xor_shift d 33

-- `u64::from_le_bytes`.
abbrev pub from_le_bytes : Text → ℕ
from_le_bytes [] = 0
from_le_bytes (b ∷ bs) = b + 256 * from_le_bytes bs

-- `data.get(base..min(base + 8, len))` is absent when `base` is past the end; the buffer is then zero.
read_u64_le : Text → ℕ → ℕ
read_u64_le data_bytes base =
    from_le_bytes (take 8 (take 8 (drop base data_bytes) ++ replicate 8 0))

-- One 16-byte block of the body.
block : Text → ℕ → ℕ × ℕ → ℕ × ℕ
block data_bytes i (h1, h2) =
    let k1 = wrapping_mul (rotate_left (wrapping_mul (read_u64_le data_bytes (i * 16)) c1) 31) c2 in
    let a1 =
      wrapping_add (wrapping_mul (wrapping_add (rotate_left (bit_xor h1 k1) 27) h2) 5) 0x52dce729 in
    let k2 =
      wrapping_mul (rotate_left (wrapping_mul (read_u64_le data_bytes (i * 16 + 8)) c2) 33) c1 in
    let a2 =
      wrapping_add (wrapping_mul (wrapping_add (rotate_left (bit_xor h2 k2) 31) a1) 5) 0x38495ab5 in
    (a1, a2)

-- Rounds `i`, `i + 1`, … of the body, `n` of them.
body : Text → ℕ → ℕ → ℕ × ℕ → ℕ × ℕ
body data_bytes i zero h = h
body data_bytes i (suc n) h = body data_bytes (suc i) n (block data_bytes i h)

-- `for i in (lo..lo + n).rev() { k ^= (tail[i] as u64) << (8 * (i - lo)) }`.
xor_tail : Text → ℕ → ℕ → ℕ → ℕ
xor_tail tail lo zero k = k
xor_tail tail lo (suc n) k = xor_tail tail lo n (bit_xor k (get_or tail (lo + n) 0 * 2 ^ (8 * n)))

finish : ℕ → ℕ × ℕ → ℕ × ℕ
finish len (h1, h2) =
    let a1 = bit_xor h1 len in
    let a2 = bit_xor h2 len in
    let b1 = wrapping_add a1 a2 in
    let b2 = wrapping_add a2 b1 in
    let c1' = fmix64 b1 in
    let c2' = fmix64 b2 in let d1 = wrapping_add c1' c2' in (d1, wrapping_add c2' d1)

unfoldable pub murmur3_x64_128 : Text → ℕ → ℕ × ℕ
unfolding fmix64 read_u64_le block body xor_tail finish
murmur3_x64_128 data_bytes seed =
    let nblocks = length data_bytes / 16 in
    let (h1, h2) = body data_bytes 0 nblocks (seed, seed) in
    let tail = drop (nblocks * 16) data_bytes in
    let tlen = length tail in
    let k2 = wrapping_mul (rotate_left (wrapping_mul (xor_tail tail 8 (tlen - 8) 0) c2) 33) c1 in
    let k1 = wrapping_mul (rotate_left (wrapping_mul (xor_tail tail 0 (min tlen 8) 0) c1) 31) c2 in
    let g2 = if leb 9 tlen then bit_xor h2 k2 else h2 in
    let g1 = if leb 1 tlen then bit_xor h1 k1 else h1 in finish (length data_bytes) (g1, g2)

unfoldable pub hash64 : Text → ℕ
unfolding murmur3_x64_128
hash64 data_bytes = (murmur3_x64_128 data_bytes 0).0

-- The two words of the empty string are 0.
murmur3_empty : murmur3_x64_128 [] 0 ≡ (0, 0)
unfolding murmur3_x64_128
murmur3_empty = refl

murmur3_hello : murmur3_x64_128 (bytes "hello") 0 ≡ (0xcbd8a7b341bd9b02, 0x5b1e906a48ae1d19)
unfolding murmur3_x64_128
murmur3_hello = refl
