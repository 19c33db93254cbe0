-- ===== src/Outbound/Classify.antt =====
-- What `classify` promises, whatever the opt-in of the operator and the form of the address.
use plecto.Prelude.{
  ℕ, ◌≡◌, subst, refl, sym, Bool, true, false, List, [], ◌∷◌, ◌++◌, Text, any, replicate, text_eq,
  text_eq→eq, Bool-cases, inl, inr, arith,
}
use plecto.Net.{IpAddr, v4, v6}
use plecto.Outbound.{
  allowed, canonicalize, verdict, classify, is_always_blocked, is_private, v4_always_blocked,
  v6_always_blocked,
}

module _ {Net : Type 0} (contains : Net → IpAddr → Bool) where
  -- An address that is allowed is in no reserved range, and if it is private the operator opted in to a
  -- block that holds it.
  pub classify-allowed :
      (ip : IpAddr) (allow_private : List Net)
      → classify contains ip allow_private ≡ allowed
      → (is_always_blocked (canonicalize ip) ≡ false)
        × ((is_private (canonicalize ip) ≡ true)
            → any (λ net. contains net (canonicalize ip)) allow_private ≡ true)
  unfolding classify
  classify-allowed ip nets h = split (canonicalize ip) h
    where
      split :
          (ip : IpAddr)
          → verdict contains ip nets ≡ allowed
          → (is_always_blocked ip ≡ false)
            × ((is_private ip ≡ true) → any (λ net. contains net ip) nets ≡ true)
      split ip h = ground arith

  abbrev JudgedAlike : List Net → Text → Type 0
  JudgedAlike nets o =
      classify contains (v6 (replicate 12 0 ++ o)) nets ≡ classify contains (v4 o) nets

  -- `::1` and `::` are blocked, and so are 0.0.0.1 and 0.0.0.0.
  own_reserved :
      (nets : List Net)
      → JudgedAlike nets (0 ∷ 0 ∷ 0 ∷ 1 ∷ []) × JudgedAlike nets (0 ∷ 0 ∷ 0 ∷ 0 ∷ [])
  unfolding classify canonicalize v4_always_blocked v6_always_blocked
  own_reserved nets = (refl, refl)

  compatible : (a b c d : ℕ) (nets : List Net) → JudgedAlike nets (a ∷ b ∷ c ∷ d ∷ [])
  unfolding classify canonicalize
  compatible a b c d nets = elim (Bool-cases (text_eq o (0 ∷ 0 ∷ 0 ∷ 1 ∷ []))) [
    | inl one ↦ subst (JudgedAlike nets) (sym (text_eq→eq o _ one)) (own_reserved nets).0
    | inr e ↦ elim (Bool-cases (text_eq o (0 ∷ 0 ∷ 0 ∷ 0 ∷ []))) [
      | inl none ↦ subst (JudgedAlike nets) (sym (text_eq→eq o _ none)) (own_reserved nets).1
      | inr f ↦ rw (e, f) refl
    ]
  ]
    where
      o : Text
      o = a ∷ b ∷ c ∷ d ∷ []

  -- Every IPv4-mapped address (`::ffff:a.b.c.d`) and every IPv4-compatible one (`::a.b.c.d`) is judged
  -- as the IPv4 address that it holds.
  pub classify-embedded :
      (a b c d : ℕ) (allow_private : List Net)
      → (classify contains (v6 (replicate 10 0 ++ 255 ∷ 255 ∷ a ∷ b ∷ c ∷ d ∷ [])) allow_private
          ≡ classify contains (v4 (a ∷ b ∷ c ∷ d ∷ [])) allow_private)
        × JudgedAlike allow_private (a ∷ b ∷ c ∷ d ∷ [])
  unfolding classify canonicalize
  classify-embedded a b c d nets = (refl, compatible a b c d nets)
