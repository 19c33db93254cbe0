-- ===== src/Host/Isolation.antt =====
-- What a filter sees of the calls of the others.
use plecto.Prelude.{
  ℕ, ◌≡◌, ◌≢◌, ◌∙◌, refl, sym, ap, false, List, [], ◌∷◌, Text, text_eq, text_eq→eq, Bool-cases, inl,
  inr, All,
}
use plecto.Prelude.Int.{ℤ}
use plecto.Host.{HostState, QuotaInner, Store, ns_key, kv_prefix_of}
use plecto.Host.Quota.{admit, refuses}
use plecto.Host.Capabilities.{Call, perform, perform_all}
use plecto.Host.Keys.{NoDelim, ns_key-injective, delimited}
use plecto.Host.Effect.{Effect, Charge, Write, perform-Effect}

text_eq-false : (s t : Text) → s ≢ t → text_eq s t ≡ false
text_eq-false s t differ = elim (Bool-cases (text_eq s t)) [
  | inl e ↦ absurd (differ (text_eq→eq s t e))
  | inr e ↦ e
]

admit-other :
    (g : QuotaInner) (ns k : Text) (entries bytes_ : ℤ)
    → text_eq ns k ≡ false
    → (admit g ns entries bytes_).1.ns k ≡ g.ns k
unfolding admit
admit-other g ns k entries bytes_ other = elim (Bool-cases (refuses g ns entries bytes_)) [
  | inl e ↦ rw e refl
  | inr e ↦ rw (e, other) refl
]

-- What a call leaves as it was: a stored key that is none of the filter's, and another namespace's usage.
abbrev Untouched : Text → Text → Store → Store → Type 0
Untouched key ns s t = (t.kv.lookup key ≡ s.kv.lookup key) × (t.quota.ns ns ≡ s.quota.ns ns)

Effect-Untouched :
    (h : HostState) (s t : Store) (key ns : Text)
    → ((tag : ℕ) (own : Text) → text_eq (ns_key h tag own) key ≡ false)
    → text_eq h.kv_prefix ns ≡ false
    → Effect h s t
    → Untouched key ns s t
Effect-Untouched h s t key ns keys space (charge, write) = (value write, usage charge)
  where
    value : Write h s.kv t.kv → t.kv.lookup key ≡ s.kv.lookup key
    value (inl same) = ap (λ m. m.lookup key) same
    value (inr (tag, own, v, e)) = ap (λ m. m.lookup key) e ∙ rw (keys tag own) refl

    usage : Charge h s t → t.quota.ns ns ≡ s.quota.ns ns
    usage (inl same) = ap (λ g. g.ns ns) same
    usage (inr (entries, bytes_, e)) =
        ap (λ g. g.ns ns) e ∙ admit-other s.quota h.kv_prefix ns entries bytes_ space

-- The calls of filters with ids other than `filter_id`.
abbrev pub OthersCalls : Text → List (HostState × Call) → Type 0
OthersCalls filter_id calls =
    All (λ c. (a : Text) × (c.0.kv_prefix ≡ kv_prefix_of a) × NoDelim a × (a ≢ filter_id)) calls

-- However many calls other filters make, refused ones included, and whatever keys they choose: what a filter reads
-- under each of its keys, in all three primitives, and the usage it is charged for do not change. Ids hold
-- no delimiter.
pub perform_all-isolated :
    (h : HostState) (filter_id : Text) (s : Store) (calls : List (HostState × Call)) (tag : ℕ)
    (key : Text)
    → h.kv_prefix ≡ kv_prefix_of filter_id
    → NoDelim filter_id
    → OthersCalls filter_id calls
    → let t = perform_all s calls in
      (t.kv.lookup (ns_key h tag key) ≡ s.kv.lookup (ns_key h tag key))
      × (t.quota.ns h.kv_prefix ≡ s.quota.ns h.kv_prefix)
unfolding perform_all
perform_all-isolated h b s [] tag key hb nb others = (refl, refl)
perform_all-isolated h b s ((g, c) ∷ rest) tag key hb nb ((a, ga, na, differ), others) =
    let once =
      Effect-Untouched g s (perform g s c) (ns_key h tag key) h.kv_prefix
        (λ tag' own.
          text_eq-false _ _
            (λ e. differ (ns_key-injective g h a b tag' tag own key ga hb na nb e).0))
        (text_eq-false _ _ (λ e. differ (delimited a b [] [] na nb (sym ga ∙ (e ∙ hb))).0))
        (perform-Effect g s c) in
    let after = perform_all-isolated h b (perform g s c) rest tag key hb nb others in
    (after.0 ∙ once.0, after.1 ∙ once.1)
