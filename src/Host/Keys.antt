-- ===== src/Host/Keys.antt =====
-- host/src/lib.rs: `ns_key`, the key under which a filter's value is stored.
use plecto.Prelude.{ℕ, ◌≡◌, ◌≢◌, ◌∙◌, refl, sym, ap, [], ◌∷◌, ◌++◌, Text, All}
use plecto.Host.{HostState, ns_key, kv_prefix_of, kv_ns_delim}

-- An id that `load_inner` accepts holds no delimiter.
abbrev pub NoDelim : Text → Type 0
NoDelim filter_id = All (λ b. b ≢ kv_ns_delim) filter_id

append_assoc : (a b c : Text) → (a ++ b) ++ c ≡ a ++ (b ++ c)
append_assoc [] b c = refl
append_assoc (x ∷ a) b c = ap (λ r. x ∷ r) (append_assoc a b c)

head_eq : {x y : ℕ} {xs ys : Text} → x ∷ xs ≡ y ∷ ys → x ≡ y
head_eq e = cc

tail_eq : {x y : ℕ} {xs ys : Text} → x ∷ xs ≡ y ∷ ys → xs ≡ ys
tail_eq e = cc

-- Up to the first delimiter two texts agree.
pub delimited :
    (a b x y : Text)
    → NoDelim a
    → NoDelim b
    → a ++ kv_ns_delim ∷ x ≡ b ++ kv_ns_delim ∷ y
    → (a ≡ b) × (x ≡ y)
delimited [] [] x y p q e = (refl, tail_eq e)
delimited [] (c ∷ b) x y p q e = absurd (q.0 (sym (head_eq e)))
delimited (c ∷ a) [] x y p q e = absurd (p.0 (head_eq e))
delimited (c ∷ a) (d ∷ b) x y p q e =
    let rest = delimited a b x y p.1 q.1 (tail_eq e) in
    let same : c ≡ d = head_eq e in (λ i. same i ∷ rest.0 i, rest.1)

ns_key-append :
    (h : HostState) (a : Text) (tag : ℕ) (key : Text)
    → h.kv_prefix ≡ kv_prefix_of a
    → ns_key h tag key ≡ a ++ kv_ns_delim ∷ tag ∷ kv_ns_delim ∷ key
ns_key-append h a tag key e = rw e (append_assoc a (kv_ns_delim ∷ []) (tag ∷ kv_ns_delim ∷ key))

-- Two stored keys are equal only if they are the same primitive's, of the same filter, under the same key.
pub ns_key-injective :
    (h h' : HostState) (a b : Text) (tag tag' : ℕ) (key key' : Text)
    → h.kv_prefix ≡ kv_prefix_of a
    → h'.kv_prefix ≡ kv_prefix_of b
    → NoDelim a
    → NoDelim b
    → ns_key h tag key ≡ ns_key h' tag' key'
    → (a ≡ b) × ((tag ≡ tag') × (key ≡ key'))
ns_key-injective h h' a b tag tag' key key' ha hb na nb e =
    let (same, rest) =
      delimited a b (tag ∷ kv_ns_delim ∷ key) (tag' ∷ kv_ns_delim ∷ key') na nb
        (sym (ns_key-append h a tag key ha) ∙ (e ∙ ns_key-append h' b tag' key' hb)) in
    (same, (head_eq rest, tail_eq (tail_eq rest)))
