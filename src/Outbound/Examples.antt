-- ===== src/Outbound/Examples.antt =====
-- Outbound calls of a filter that may reach api.test and the block 10.0.0.0/8. A block is its first octet.
use plecto.Prelude.{
  ℕ, ◌≡◌, refl, Bool, true, false, List, [], ◌∷◌, ◌++◌, none, some, Text, bytes, inl, inr, arith,
  any, replicate, ◌==◌, ◌≤◌,
}
use plecto.Net.{IpAddr, v4, v6}
use plecto.Outbound.{
  OutboundPolicy, https, allowed, blocked_private, classify, canonicalize, v4_always_blocked, octet,
  allows,
}
use plecto.Outbound.Ranges.{v4_always_blocked-blocks, within, number, reserved_blocks}
use plecto.Outbound.Classify.{classify-embedded}
use plecto.Outbound.Send.{
  Network, SocketAddr, Target, dispatch, dispatch-guarded, authority_of, scheme_of,
  resolve_and_connect, all_addresses_allowed, destination_ip_prohibited,
}

abbrev contains : ℕ → IpAddr → Bool
contains net (v4 o) = octet o 0 == net
contains net (v6 o) = false

abbrev inner : IpAddr
inner = v4 (10 ∷ 1 ∷ 2 ∷ 3 ∷ [])

abbrev metadata : IpAddr
metadata = v4 (169 ∷ 254 ∷ 169 ∷ 254 ∷ [])

abbrev policy : OutboundPolicy ℕ
policy = record {
  allow = record { scheme = https; host = bytes "api.test"; port = 443 } ∷ [];
  allow_private = 10 ∷ [];
  connect_timeout = 2000;
  total_timeout = 5000;
  max_response_bytes = 65536;
  max_concurrent = 8;
}

abbrev at : IpAddr → SocketAddr
at ip = record { ip = ip; port = 443 }

abbrev network : List SocketAddr → Network ℕ ℕ
network addrs = record {
  contains = contains;
  resolve = λ host port. some addrs;
  connect_and_send = λ a host. inr 200;
  late = false;
}

abbrev target : Target
target = record { authority = some (bytes "API.test", none); use_tls = true }

v4_always_blocked-blocks_example :
    v4_always_blocked (100 ∷ 64 ∷ 0 ∷ 1 ∷ []) ≡ any (within (number 100 64 0 1)) reserved_blocks
v4_always_blocked-blocks_example =
    v4_always_blocked-blocks 100 64 0 1 (omega arith) (omega arith) (omega arith) (omega arith)

inner_allowed : classify contains inner (10 ∷ []) ≡ allowed
unfolding classify canonicalize v4_always_blocked
inner_allowed = refl

inner_blocked : classify contains inner [] ≡ blocked_private
unfolding classify canonicalize v4_always_blocked
inner_blocked = refl

classify-embedded_example :
    (classify contains (v6 (replicate 10 0 ++ 255 ∷ 255 ∷ 169 ∷ 254 ∷ 169 ∷ 254 ∷ [])) (169 ∷ [])
      ≡ classify contains (v4 (169 ∷ 254 ∷ 169 ∷ 254 ∷ [])) (169 ∷ []))
    × (classify contains (v6 (replicate 12 0 ++ 169 ∷ 254 ∷ 169 ∷ 254 ∷ [])) (169 ∷ [])
        ≡ classify contains (v4 (169 ∷ 254 ∷ 169 ∷ 254 ∷ [])) (169 ∷ []))
classify-embedded_example = classify-embedded contains 169 254 169 254 (169 ∷ [])

inner_dialed : (dispatch (network (at inner ∷ [])) policy 1 target).dialed ≡ some (at inner)
unfolding dispatch authority_of resolve_and_connect all_addresses_allowed allows classify
    canonicalize v4_always_blocked
inner_dialed = refl

-- One blocked address among the resolved ones refuses the whole call.
rebinding_refused :
    dispatch (network (at inner ∷ at metadata ∷ [])) policy 1 target
    ≡ (record { dialed = none; answer = inl destination_ip_prohibited })
unfolding dispatch authority_of resolve_and_connect all_addresses_allowed allows classify
    canonicalize v4_always_blocked
rebinding_refused = refl

dispatch-guarded_example :
    (host : Text) × (port : ℕ) × (authority_of (network (at inner ∷ [])) target ≡ some (host, port))
    × (allows policy (scheme_of (network (at inner ∷ [])) target) host port ≡ true)
    × (1 ≤ 1)
    × ((rest : List SocketAddr) × (some (at inner ∷ []) ≡ some (at inner ∷ rest))
        × (all_addresses_allowed (network (at inner ∷ [])) (at inner ∷ rest) policy ≡ true))
    × (classify contains inner (10 ∷ []) ≡ allowed)
dispatch-guarded_example =
    dispatch-guarded (network (at inner ∷ [])) policy 1 target (at inner) inner_dialed
