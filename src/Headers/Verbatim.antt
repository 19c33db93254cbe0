-- ===== src/Headers/Verbatim.antt =====
-- What `copy_headers_preserving` makes of the headers that nobody changed.
use plecto.Prelude.{
  ◌≡◌, refl, sym, ◌∙◌, ap, inl, inr, Bool, true, false, not, ◌&&◌, List, [], ◌∷◌, ◌++◌, map, Option,
  some, Text, text_eq, text_eq_refl, text_eq→eq, to_ascii_lowercase, eq_ignore_ascii_case, filter,
  any, Bool-cases, All, All-mono, &&_iff, arith,
}
use plecto.Route.{Header}
use plecto.Headers.{
  is_hop_by_hop, connection_named, headers_to_vec, preserved_value, value_of, appended,
  copy_headers_preserving,
}

-- The headers that cross the proxy: those that are not hop-by-hop, by their name or by a `Connection` header.
abbrev pub crosses : List Text → Header → Bool
crosses dynamic h =
    not (is_hop_by_hop h.name) && not (any (text_eq (to_ascii_lowercase h.name)) dynamic)

append_assoc : (xs ys zs : List Header) → (xs ++ ys) ++ zs ≡ xs ++ (ys ++ zs)
append_assoc [] ys zs = refl
append_assoc (x ∷ xs) ys zs = ap (λ r. x ∷ r) (append_assoc xs ys zs)

append_nil : (xs : List Header) → xs ++ [] ≡ xs
append_nil [] = refl
append_nil (x ∷ xs) = ap (λ r. x ∷ r) (append_nil xs)

module _ (header_name header_value : Text → Option Text) (lossy : Text → Text) where
  -- Headers of one name whose values decode to one text have one value.
  abbrev pub Separates : Header → Header → Type 0
  Separates h k =
      eq_ignore_ascii_case k.name h.name ≡ true → lossy k.value ≡ lossy h.value → k.value ≡ h.value

  -- What the copy relies on for a header of the original ones: the library accepts its name as it is.
  abbrev pub IsPreservable : List Header → Header → Type 0
  IsPreservable original h = (header_name h.name ≡ some h.name) × All (Separates h) original

  -- Whether a header could stand for another.
  abbrev alike : Header → Header → Bool
  alike h k = eq_ignore_ascii_case k.name h.name && text_eq (lossy k.value) (lossy h.value)

  found :
      (h : Header) (original : List Header)
      → All (Separates h) original
      → any (alike h) original ≡ true
      → preserved_value lossy original h.name (lossy h.value) ≡ some h.value
  unfolding preserved_value
  found h [] v e = cc
  found h (k ∷ original) v e = elim (Bool-cases (alike h k)) [
    | inl same ↦
        let both =
          (&&_iff (eq_ignore_ascii_case k.name h.name) (text_eq (lossy k.value) (lossy h.value))).0
            same in
        rw same (ap some (v.0 both.0 (text_eq→eq (lossy k.value) (lossy h.value) both.1)))
    | inr other ↦ rw other (found h original v.1 (rw other at e))
  ]

  -- Every header of a list is alike one of the original ones.
  abbrev IsPart : List Header → List Header → Type 0
  IsPart original hs = All (λ h. any (alike h) original ≡ true) hs

  alike_refl : (h : Header) → alike h h ≡ true
  alike_refl h =
      (&&_iff (eq_ignore_ascii_case h.name h.name) (text_eq (lossy h.value) (lossy h.value))).1
        (text_eq_refl (to_ascii_lowercase h.name), text_eq_refl (lossy h.value))

  any-later :
      (h k : Header) (hs : List Header) → any (alike h) hs ≡ true → any (alike h) (k ∷ hs) ≡ true
  any-later h k hs e = elim (Bool-cases (alike h k)) [
    | inl same ↦ rw same refl
    | inr other ↦ rw other e
  ]

  IsPart-refl : (hs : List Header) → IsPart hs hs
  IsPart-refl [] = tt
  IsPart-refl (h ∷ hs) = (
    rw (alike_refl h) refl,
    All-mono (λ k. any (alike k) hs ≡ true) (λ k. any (alike k) (h ∷ hs) ≡ true) hs
        (λ k e. any-later k h hs e) (IsPart-refl hs),
  )

  value_of-eq :
      (original : List Header) (h : Header)
      → preserved_value lossy original h.name (lossy h.value) ≡ some h.value
      → value_of header_value lossy original
          (record { name = h.name; value = lossy h.value })
          (some h.name)
        ≡ some h.value
  unfolding value_of
  value_of-eq original h e = rw (e, value_of) refl

  copy-cons :
      (original dst rest : List Header) (h : Header)
      → is_hop_by_hop h.name ≡ false
      → header_name h.name ≡ some h.name
      → preserved_value lossy original h.name (lossy h.value) ≡ some h.value
      → copy_headers_preserving header_name header_value lossy original dst
          (record { name = h.name; value = lossy h.value } ∷ rest)
        ≡ copy_headers_preserving header_name header_value lossy original (dst ++ (h ∷ [])) rest
  unfolding copy_headers_preserving appended value_of
  copy-cons original dst rest h end_to_end named preserved =
      rw (end_to_end, named) (rw (value_of-eq original h preserved, appended) refl)

  -- A header that crosses is copied with the bytes it came with.
  copied :
      (original dst hs : List Header) (dynamic : List Text)
      → All (IsPreservable original) hs
      → IsPart original hs
      → copy_headers_preserving header_name header_value lossy original dst
          (map (λ h. record { name = h.name; value = lossy h.value }) (filter (crosses dynamic) hs))
        ≡ dst ++ filter (crosses dynamic) hs
  unfolding copy_headers_preserving appended value_of
  copied original dst [] dynamic v part = sym (append_nil dst)
  copied original dst (h ∷ hs) dynamic v part = elim (Bool-cases (crosses dynamic h)) [
    | inr e ↦ rw e (copied original dst hs dynamic v.1 part.1)
    | inl e ↦
        let both =
          (&&_iff (not (is_hop_by_hop h.name))
              (not (any (text_eq (to_ascii_lowercase h.name)) dynamic))).0
            e in
        let end_to_end : is_hop_by_hop h.name ≡ false = ground (arith, both.0) in
        rw e (
          copy-cons original dst
            (map (λ k. record { name = k.name; value = lossy k.value })
              (filter (crosses dynamic) hs))
            h end_to_end v.0.0 (found h original v.0.1 part.0)
          ∙ copied original (dst ++ (h ∷ [])) hs dynamic v.1 part.1
          ∙ append_assoc dst (h ∷ []) (filter (crosses dynamic) hs))
  ]

  -- Headers that the chain leaves alone come out of the proxy byte for byte, in their order: projecting them to
  -- text and copying them back gives exactly the ones that cross, when the library takes their names as
  -- they are, and no two values of one name that differ decode to one text.
  pub copy_headers_preserving-headers_to_vec :
      (original : List Header)
      → All (IsPreservable original) original
      → copy_headers_preserving header_name header_value lossy original []
          (headers_to_vec lossy original)
        ≡ filter (crosses (connection_named original)) original
  unfolding headers_to_vec
  copy_headers_preserving-headers_to_vec original v =
      copied original [] original (connection_named original) v (IsPart-refl original)
