-- ===== src/Host/Gate.antt =====
-- host/src/lib.rs: what `load_inner` checks before any byte of a component reaches the runtime. The
-- signature check, the digest and the JSON reader are other libraries', and are parameters.
use plecto.Prelude.{
  ◌≡◌, refl, Bool, true, false, not, List, [], ◌∷◌, Text, text_eq, Option, none, some, any,
  if◌then◌else◌, ◌==◌, bytes, arith,
}
use plecto.Host.{kv_ns_delim}
use plecto.Host.Keys.{NoDelim}

pub data LoadError : Type 0 where
  empty_filter_id filter_id_contains_delimiter missing_sbom : LoadError
  unverified_component_signature unverified_sbom_signature malformed_sbom sbom_not_bound : LoadError

pub record SignedArtifact : Type 0 where
  pub component_bytes : Text
  pub component_signature : Text
  pub sbom : Text
  pub sbom_signature : Text

-- The other libraries: a key's `verify_signature(..).is_ok()`, `hex::encode(Sha256::digest(..))`, and what
-- the code calls of `serde_json`.
pub record Crypto (Key Value : Type 0) : Type 0 where
  pub verify_signature : Key → Text → Text → Bool
  pub sha256_hex : Text → Text
  pub from_slice : Text → Option Value
  pub get : Value → Text → Option Value
  pub as_array : Value → Option (List Value)
  pub as_str : Value → Option Text

abbrev pub is_empty {ℓ} : {A : Type ℓ} → List A → Bool
is_empty [] = true
is_empty (x ∷ xs) = false

abbrev pub and_then {ℓ κ} : {A : Type ℓ} {B : Type κ} → Option A → (A → Option B) → Option B
and_then none f = none
and_then (some a) f = f a

module _ {Key Value : Type 0} (c : Crypto Key Value) where
  unfoldable pub verifies : List Key → Text → Text → Bool
  verifies keys signature msg = any (λ k. c.verify_signature k signature msg) keys

  abbrev digest_of : Value → Option Text
  digest_of subject =
      and_then (c.get subject (bytes "digest")) (λ d. and_then (c.get d (bytes "sha256")) c.as_str)

  abbrev is_text : Text → Option Text → Bool
  is_text want none = false
  is_text want (some h) = text_eq h want

  abbrev attests : Text → Option (List Value) → Bool
  attests want none = false
  attests want (some subjects) = any (λ s. is_text want (digest_of s)) subjects

  unfoldable pub sbom_binds_component : Text → Text → Option LoadError
  sbom_binds_component sbom component = elim (c.from_slice sbom) [
    | none ↦ some malformed_sbom
    | some statement ↦
        if attests (c.sha256_hex component)
          (and_then (c.get statement (bytes "subject")) c.as_array)
        then none
        else some sbom_not_bound
  ]

  -- The checks of `load_inner`, in their order; `none` lets the component be compiled.
  unfoldable pub gate : List Key → Text → SignedArtifact → Option LoadError
  gate keys filter_id a =
      let bound = sbom_binds_component a.sbom a.component_bytes in
      if is_empty filter_id
      then some empty_filter_id
      else if any (λ b. b == kv_ns_delim) filter_id
      then some filter_id_contains_delimiter
      else if is_empty a.sbom
      then some missing_sbom
      else if not (verifies keys a.component_signature a.component_bytes)
      then some unverified_component_signature
      else if not (verifies keys a.sbom_signature a.sbom)
      then some unverified_sbom_signature
      else bound

  -- A check that did not refuse.
  passed :
      (b : Bool) (e : LoadError) (rest : Option LoadError)
      → (if b then some e else rest) ≡ none
      → (b ≡ false) × (rest ≡ none)
  passed true e rest h = cc
  passed false e rest h = (refl, h)

  not-false : (b : Bool) → not b ≡ false → b ≡ true
  not-false b h = ground arith

  no_delim : (filter_id : Text) → any (λ b. b == kv_ns_delim) filter_id ≡ false → NoDelim filter_id
  no_delim [] h = tt
  no_delim (b ∷ rest) h = (ground arith, no_delim rest (ground arith))

  -- What the gate has checked of a component that it lets through.
  pub record Admitted (keys : List Key) (filter_id : Text) (a : SignedArtifact) : Type 0 where
    pub named : is_empty filter_id ≡ false
    pub delimiter_free : NoDelim filter_id
    pub component_signed : verifies keys a.component_signature a.component_bytes ≡ true
    pub sbom_present : is_empty a.sbom ≡ false
    pub sbom_signed : verifies keys a.sbom_signature a.sbom ≡ true
    pub sbom_bound : sbom_binds_component a.sbom a.component_bytes ≡ none

  -- A component that passes the gate has a non-empty id without the delimiter, and a signature of a trusted key on
  -- itself and on an SBOM that is present and that attests this component's digest.
  pub gate-Admitted :
      (keys : List Key) (filter_id : Text) (a : SignedArtifact)
      → gate keys filter_id a ≡ none
      → Admitted keys filter_id a
  unfolding gate
  gate-Admitted keys filter_id a h =
      let (named, h1) = passed (is_empty filter_id) _ _ h in
      let (free, h2) = passed (any (λ b. b == kv_ns_delim) filter_id) _ _ h1 in
      let (present, h3) = passed (is_empty a.sbom) _ _ h2 in
      let (component, h4) =
        passed (not (verifies keys a.component_signature a.component_bytes)) _ _ h3 in
      let (sbom, bound) = passed (not (verifies keys a.sbom_signature a.sbom)) _ _ h4 in
      record {
        named = named;
        delimiter_free = no_delim filter_id free;
        component_signed = not-false _ component;
        sbom_present = present;
        sbom_signed = not-false _ sbom;
        sbom_bound = bound;
      }
