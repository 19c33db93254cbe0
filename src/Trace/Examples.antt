-- ===== src/Trace/Examples.antt =====
-- Headers written and read. The toy `hex` writes a byte as that many ones and a zero.
use plecto.Prelude.{
  ℕ, zero, suc, ◌+◌, ◌≡◌, ◌∙◌, refl, ap, false, [], ◌∷◌, Option, none, some, Text, bytes, replicate,
  if◌then◌else◌, ◌==◌, arith,
}
use plecto.Strings.{contains}
use plecto.Trace.{
  RequestTrace, Hex, HexLaws, IsTrace, from_traceparent, to_traceparent, from_str_radix,
  radix_digits, from_traceparent-to_traceparent,
}

encode_byte : ℕ → Text → Text
encode_byte zero rest = b'0' ∷ rest
encode_byte (suc n) rest = b'1' ∷ encode_byte n rest

encode : Text → Text
unfolding encode_byte
encode [] = []
encode (b ∷ rest) = encode_byte b (encode rest)

cons_byte : ℕ → Option Text → Option Text
cons_byte b none = none
cons_byte b (some rest) = some (b ∷ rest)

decode_from : ℕ → Text → Option Text
decode_from n [] = some []
decode_from n (c ∷ rest) =
    let next = decode_from 0 rest in
    let more = decode_from (suc n) rest in if c == b'0' then cons_byte n next else more

decode_byte :
    (n m : ℕ) (rest : Text)
    → decode_from n (encode_byte m rest) ≡ cons_byte (n + m) (decode_from 0 rest)
unfolding encode_byte decode_from
decode_byte n zero rest = ap (λ k. cons_byte k (decode_from 0 rest)) (omega arith)
decode_byte n (suc m) rest =
    decode_byte (suc n) m rest ∙ ap (λ k. cons_byte k (decode_from 0 rest)) (omega arith)

zero_left : (b : ℕ) → 0 + b ≡ b
zero_left b = omega arith

decode_encode : (b : Text) → decode_from 0 (encode b) ≡ some b
unfolding encode cons_byte decode_from
decode_encode [] = refl
decode_encode (b ∷ rest) =
    decode_byte 0 b (encode rest)
    ∙ (ap (λ k. cons_byte k (decode_from 0 (encode rest))) (zero_left b)
        ∙ ap (cons_byte b) (decode_encode rest))

byte_digits :
    (b : ℕ) (rest : Text) → contains b'-' rest ≡ false → contains b'-' (encode_byte b rest) ≡ false
unfolding encode_byte contains
byte_digits zero rest e = e
byte_digits (suc b) rest e = byte_digits b rest e

encode_digits : (b : Text) → contains b'-' (encode b) ≡ false
unfolding encode contains
encode_digits [] = refl
encode_digits (b ∷ rest) = byte_digits b (encode rest) (encode_digits rest)

abbrev toy : Hex
toy = record { encode = encode; decode = decode_from 0 }

toy_laws : HexLaws toy
toy_laws = record { decode_encode = decode_encode; encode_digits = encode_digits }

abbrev trace : RequestTrace
trace = record { trace_id = replicate 16 3; request_span_id = replicate 8 5; flags = 7 }

trace-IsTrace : IsTrace toy trace
trace-IsTrace = record { trace_size = refl; span_size = refl; valid = refl }

from_traceparent-to_traceparent_example :
    from_traceparent toy (to_traceparent toy trace) ≡ some (record trace { flags = 1 })
from_traceparent-to_traceparent_example =
    from_traceparent-to_traceparent toy trace toy_laws trace-IsTrace

-- `from_str_radix` takes a sign, so `+1` is read as the flags 1.
signed_flags : from_str_radix (bytes "+1") ≡ some 1
unfolding from_str_radix radix_digits
signed_flags = refl
