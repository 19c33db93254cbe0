-- ===== src/Headers/Forwarded.antt =====
-- What the upstream and the filters see of the client's address, and of hop-by-hop headers.
use plecto.Prelude.{
  ◌≡◌, refl, ap, sym, ◌∙◌, inl, inr, Bool, true, false, not, ◌&&◌, text_eq, to_ascii_lowercase,
  List, [], ◌∷◌, map, Text, bytes, filter, any, ◌++◌, Bool-cases, arith, All,
}
use plecto.Net.{IpAddr}
use plecto.Route.{Header}
use plecto.RateLimit.{canonical}
use plecto.Chain.Edit.{filter-append, filter-none}
use plecto.Headers.{
  is_forwarded, edge_headers, set_forwarded, is_hop_by_hop, headers_to_vec, connection_named,
}

-- The names under which a request can claim the address or the scheme of its client.
abbrev pub client_names : List Text
client_names =
    bytes "forwarded"
    ∷ bytes "x-forwarded-for"
    ∷ bytes "x-forwarded-proto"
    ∷ bytes "x-forwarded-host"
    ∷ bytes "x-real-ip"
    ∷ bytes "true-client-ip"
    ∷ bytes "cf-connecting-ip"
    ∷ bytes "fastly-client-ip"
    ∷ bytes "x-client-ip"
    ∷ bytes "x-cluster-client-ip"
    ∷ []

-- A header of one of these names, in any case.
abbrev pub claims_client : Header → Bool
claims_client h = any (text_eq (to_ascii_lowercase h.name)) client_names

-- The three headers that the edge writes itself: the peer of the connection, twice, and the wire's scheme.
abbrev pub issued : Text → Text → List Header
issued ip scheme =
    record { name = bytes "x-forwarded-for"; value = ip }
    ∷ record { name = bytes "x-real-ip"; value = ip }
    ∷ record { name = bytes "x-forwarded-proto"; value = scheme }
    ∷ []

claims-forwarded : (h : Header) → claims_client h ≡ is_forwarded h
unfolding is_forwarded
claims-forwarded h = refl

-- A filter on what a filter of the same test has left finds everything.
filter-twice :
    (p q : Header → Bool) (headers : List Header)
    → ((h : Header) → p h ≡ q h)
    → filter p (filter q headers) ≡ filter p headers
filter-twice p q [] same = refl
filter-twice p q (h ∷ hs) same = elim (Bool-cases (q h)) [
  | inl e ↦ rw (same h, e) (rw (same h, e) (ap (λ r. h ∷ r) (filter-twice p q hs same)))
  | inr e ↦ rw (same h, e) (filter-twice p q hs same)
]

append_nil : (xs : List Header) → xs ++ [] ≡ xs
append_nil [] = refl
append_nil (x ∷ xs) = ap (λ r. x ∷ r) (append_nil xs)

-- Of the headers that come out of the edge, before any filter runs, those that claim a client's address,
-- scheme or host, by any of ten names in any case, are the three that the proxy issues: the peer of the
-- connection, twice, and the scheme of the wire. All other headers are as they came, in their order.
pub set_forwarded-authoritative :
    (show : IpAddr → Text) (headers : List Header) (peer : IpAddr) (scheme : Text)
    → let out = set_forwarded show headers peer scheme in
      (filter claims_client out ≡ issued (show (canonical peer)) scheme)
      × (filter (λ h. not (claims_client h)) out ≡ filter (λ h. not (claims_client h)) headers)
unfolding set_forwarded edge_headers
set_forwarded-authoritative show headers peer scheme =
    let left = filter (λ h. not (is_forwarded h)) headers in
    let written = issued (show (canonical peer)) scheme in
    (
      filter-append claims_client left written
          ∙ ap (λ r. r ++ filter claims_client written)
              (filter-none claims_client (λ h. not (is_forwarded h)) headers
                (λ h e. ap not (sym (claims-forwarded h) ∙ e))),
      filter-append (λ h. not (claims_client h)) left written
          ∙ append_nil (filter (λ h. not (claims_client h)) left)
          ∙ filter-twice (λ h. not (claims_client h)) (λ h. not (is_forwarded h)) headers
              (λ h. ap not (claims-forwarded h)),
    )

filter-All : (p : Header → Bool) (headers : List Header) → All (λ h. p h ≡ true) (filter p headers)
filter-All p [] = tt
filter-All p (h ∷ hs) = elim (Bool-cases (p h)) [
  | inl e ↦ rw e (e, filter-All p hs)
  | inr e ↦ rw e (filter-All p hs)
]

abbrev pub Passes : List Text → Header → Type 0
Passes dynamic h =
    (is_hop_by_hop (h.name) ≡ false) × (any (text_eq (to_ascii_lowercase (h.name))) dynamic ≡ false)

kept-Passes :
    (dynamic : List Text) (lossy : Text → Text) (headers : List Header)
    → All
        (λ h.
          (not (is_hop_by_hop (h.name))
            && not (any (text_eq (to_ascii_lowercase (h.name))) dynamic))
          ≡ true)
        headers
    → All (Passes dynamic) (map (λ h. record { name = h.name; value = lossy (h.value) }) headers)
kept-Passes dynamic lossy [] k = tt
kept-Passes dynamic lossy (h ∷ hs) (k, ks) =
    ((ground (arith, k), ground (arith, k)), kept-Passes dynamic lossy hs ks)

-- No header that crosses the proxy is hop-by-hop, neither by the fixed list nor because a `Connection`
-- header of the message names it.
pub headers_to_vec-Passes :
    (lossy : Text → Text) (headers : List Header)
    → All (Passes (connection_named headers)) (headers_to_vec lossy headers)
unfolding headers_to_vec
headers_to_vec-Passes lossy headers = kept-Passes _ lossy _ (filter-All _ headers)
