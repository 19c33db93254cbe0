-- ===== src/Trace.antt =====
-- host/src/observe.rs: the W3C `traceparent` header, read and written. The `hex` crate is a parameter; a
-- trace id is 16 bytes and a span id 8, as opentelemetry's types hold them.
pub mod Examples
use plecto.Prelude.{
  ℕ, zero, suc, ◌+◌, ◌*◌, ◌-◌, ◌%◌, ◌≤◌, ◌≡◌, ◌∙◌, refl, sym, ap, Bool, true, false, ◌&&◌, ◌||◌,
  not, List, [], ◌∷◌, ◌++◌, Option, none, some, Text, text_eq, text_eq_refl, bytes, all, length,
  if◌then◌else◌, ltb, leb, ◌==◌, ==_iff, arith, All, Bool-cases, inl, inr,
}
use plecto.Strings.{split_on, join, contains}
use plecto.Strings.Split.{split-join}

pub record RequestTrace : Type 0 where
  pub trace_id : Text
  pub request_span_id : Text
  pub flags : ℕ

-- `hex::encode` and `hex::decode`.
pub record Hex : Type 0 where
  pub encode : Text → Text
  pub decode : Text → Option Text

-- What the crate documents: encoding gives digits, and decoding gives the bytes back.
pub record HexLaws (x : Hex) : Type 0 where
  pub decode_encode : (b : Text) → x.decode (x.encode b) ≡ some b
  pub encode_digits : (b : Text) → contains b'-' (x.encode b) ≡ false

abbrev pub and_then {ℓ κ} : {A : Type ℓ} {B : Type κ} → Option A → (A → Option B) → Option B
and_then none f = none
and_then (some a) f = f a

-- `u8::from_str_radix(s, 16)`: digits with at most one `+` before them, and no overflow.
abbrev pub digit : ℕ → Option ℕ
digit c =
    if leb b'0' c && leb c b'9'
    then some (c - b'0')
    else if leb b'a' c && leb c b'f'
    then some (c - b'a' + 10)
    else if leb b'A' c && leb c b'F'
    then some (c - b'A' + 10)
    else none

unfoldable pub radix_digits : ℕ → Text → Option ℕ
radix_digits acc [] = some acc
radix_digits acc (c ∷ rest) =
    and_then (digit c)
      (λ d. if ltb 255 (acc * 16 + d) then none else radix_digits (acc * 16 + d) rest)

unfoldable pub from_str_radix : Text → Option ℕ
from_str_radix [] = none
from_str_radix (c ∷ []) = radix_digits 0 (c ∷ [])
from_str_radix (c ∷ d ∷ rest) =
    if c == b'+' then radix_digits 0 (d ∷ rest) else radix_digits 0 (c ∷ d ∷ rest)

-- An id of `n` bytes that is not the invalid one, all of zeros.
abbrev pub sized : ℕ → Text → Option Text
sized n b = if length b == n then some b else none

abbrev pub is_invalid : Text → Bool
is_invalid b = all (λ x. x == 0) b

module _ (x : Hex) where
  abbrev pub id_of : ℕ → Text → Option Text
  id_of n field = and_then (x.decode field) (sized n)

  abbrev pub trace_of : Text → Text → Text → Option RequestTrace
  trace_of trace span flags = and_then (id_of 16 trace) (λ tb. and_then (id_of 8 span) (λ sb.
      if is_invalid tb || is_invalid sb
      then none
      else and_then (from_str_radix flags)
          (λ f. some (record { trace_id = tb; request_span_id = sb; flags = f }))))

  -- Exactly four fields, the first of them `00`.
  abbrev pub from_parts : List Text → Option RequestTrace
  from_parts [] = none
  from_parts (version ∷ []) = none
  from_parts (version ∷ trace ∷ []) = none
  from_parts (version ∷ trace ∷ span ∷ []) = none
  from_parts (version ∷ trace ∷ span ∷ flags ∷ []) =
      if text_eq version (bytes "00") then trace_of trace span flags else none
  from_parts (version ∷ trace ∷ span ∷ flags ∷ more ∷ rest) = none

  unfoldable pub from_traceparent : Text → Option RequestTrace
  from_traceparent traceparent = from_parts (split_on b'-' traceparent)

  abbrev pub sampled_bit : ℕ → ℕ
  sampled_bit flags = flags % 2

  unfoldable pub to_traceparent : RequestTrace → Text
  to_traceparent t = join b'-' (
      bytes "00"
      ∷ x.encode t.trace_id
      ∷ x.encode t.request_span_id
      ∷ (if sampled_bit t.flags == 1 then bytes "01" else bytes "00")
      ∷ [])

  -- A trace whose ids are of their sizes and valid.
  pub record IsTrace (t : RequestTrace) : Type 0 where
    pub trace_size : length t.trace_id ≡ 16
    pub span_size : length t.request_span_id ≡ 8
    pub valid : (is_invalid t.trace_id || is_invalid t.request_span_id) ≡ false

  sized-some : (n : ℕ) (b : Text) → length b ≡ n → sized n b ≡ some b
  sized-some n b e = rw ((==_iff (length b) n).1 e) refl

  fields : RequestTrace → Text → List Text
  fields t flags = bytes "00" ∷ x.encode t.trace_id ∷ x.encode t.request_span_id ∷ flags ∷ []

  read_fields :
      (t : RequestTrace) (flags : Text) (f : ℕ)
      → HexLaws x
      → IsTrace t
      → from_str_radix flags ≡ some f
      → from_parts (fields t flags) ≡ some (record t { flags = f })
  unfolding fields
  read_fields t flags f laws v e =
      rw
        (
          laws.decode_encode t.trace_id,
          laws.decode_encode t.request_span_id,
          sized-some 16 t.trace_id v.trace_size,
          sized-some 8 t.request_span_id v.span_size,
          v.valid,
          e,
        )
        refl

  no_dash : contains b'-' (bytes "00") ≡ false
  unfolding contains
  no_dash = refl

  no_dash_sampled : contains b'-' (bytes "01") ≡ false
  unfolding contains
  no_dash_sampled = refl

  zero_flags : from_str_radix (bytes "00") ≡ some 0
  unfolding from_str_radix radix_digits
  zero_flags = refl

  one_flags : from_str_radix (bytes "01") ≡ some 1
  unfolding from_str_radix radix_digits
  one_flags = refl

  written_fields :
      (t : RequestTrace) (flags : Text)
      → HexLaws x
      → contains b'-' flags ≡ false
      → split_on b'-' (join b'-' (fields t flags)) ≡ fields t flags
  unfolding fields
  written_fields t flags laws e =
      split-join b'-' (bytes "00") (x.encode t.trace_id ∷ x.encode t.request_span_id ∷ flags ∷ [])
        (no_dash, (laws.encode_digits t.trace_id, (laws.encode_digits t.request_span_id, (e, tt))))

  written_read :
      (t : RequestTrace) (flags : Text) (f : ℕ)
      → HexLaws x
      → IsTrace t
      → contains b'-' flags ≡ false
      → from_str_radix flags ≡ some f
      → from_traceparent (join b'-' (fields t flags)) ≡ some (record t { flags = f })
  unfolding from_traceparent
  written_read t flags f laws v e g =
      ap from_parts (written_fields t flags laws e) ∙ read_fields t flags f laws v g

  -- A trace that is written is read back: the same ids, and of the flags the sampled bit. The ids are of
  -- 16 and 8 bytes and not all zeros, and `hex` decodes what it encodes.
  pub from_traceparent-to_traceparent :
      (t : RequestTrace)
      → HexLaws x
      → IsTrace t
      → from_traceparent (to_traceparent t) ≡ some (record t { flags = sampled_bit t.flags })
  unfolding to_traceparent fields
  from_traceparent-to_traceparent t laws v = elim (Bool-cases (sampled_bit t.flags == 1)) [
    | inl e ↦
        let bit : t.flags % 2 ≡ 1 = (==_iff _ 1).0 e in
        rw (e, bit) (written_read t (bytes "01") 1 laws v no_dash_sampled one_flags)
    | inr e ↦
        let bit : t.flags % 2 ≡ 0 = ground (arith, e) in
        rw bit (written_read t (bytes "00") 0 laws v no_dash zero_flags)
  ]
