-- ===== src/Outbound/Send.antt =====
-- host/src/outbound_http.rs: the steps of one outbound call, up to the connection. The resolver, the URI
-- and what happens on a connection are other code's, and are parameters.
use plecto.Prelude.{
  ℕ, zero, suc, ◌≤◌, ◌≡◌, ◌⊎◌, refl, Bool, true, false, not, List, [], ◌∷◌, Option, none, some,
  Text, all, if◌then◌else◌, Bool-cases, inl, inr, arith, subst, &&_iff,
}
use plecto.Net.{IpAddr}
use plecto.Outbound.{
  Scheme, http, https, OutboundPolicy, AddrVerdict, allowed, blocked_reserved, blocked_private,
  allows, classify,
}
use plecto.Outbound.Options.{unwrap_or}

-- The codes that a refused call returns; `other` is one of the connection's.
pub data ErrorCode : Type 0 where
  uri_invalid request_denied connection_limit_reached dns_error : ErrorCode
  destination_ip_prohibited connection_timeout : ErrorCode
  other : ℕ → ErrorCode

-- A socket address, and what a call did: the address that was dialed, if one was, and the guest's answer.
pub record SocketAddr : Type 0 where
  pub ip : IpAddr
  pub port : ℕ

pub record Sent (Response : Type 0) : Type 0 where
  pub dialed : Option SocketAddr
  pub answer : ErrorCode ⊎ Response

-- What a request says of where it goes: the host and port of its authority, if it has one.
pub record Target : Type 0 where
  pub authority : Option (Text × Option ℕ)
  pub use_tls : Bool

-- The other code, for one call: `contains` of a CIDR block, the resolver, and the connection. `late` is
-- whether the whole call ran into its deadline.
pub record Network (Net Response : Type 0) : Type 0 where
  pub contains : Net → IpAddr → Bool
  pub resolve : Text → ℕ → Option (List SocketAddr)
  pub connect_and_send : SocketAddr → Text → ErrorCode ⊎ Response
  pub late : Bool

abbrev pub is_allowed : AddrVerdict → Bool
is_allowed allowed = true
is_allowed blocked_reserved = false
is_allowed blocked_private = false

abbrev is_nil {ℓ} : {A : Type ℓ} → List A → Bool
is_nil [] = true
is_nil (x ∷ xs) = false

module _ {Net Response : Type 0} (network : Network Net Response) where
  abbrev pub refused : ErrorCode → Sent Response
  refused code = record { dialed = none; answer = inl code }

  unfoldable pub all_addresses_allowed : List SocketAddr → OutboundPolicy Net → Bool
  all_addresses_allowed addrs policy =
      all (λ a. is_allowed (classify network.contains a.ip policy.allow_private)) addrs

  abbrev pub connect_resolved : Option (List SocketAddr) → Text → OutboundPolicy Net → Sent Response
  connect_resolved none host policy = refused dns_error
  connect_resolved (some []) host policy = refused dns_error
  connect_resolved (some (first ∷ rest)) host policy =
      if all_addresses_allowed (first ∷ rest) policy
      then record { dialed = some first; answer = network.connect_and_send first host }
      else refused destination_ip_prohibited

  unfoldable pub resolve_and_connect : Text → ℕ → OutboundPolicy Net → Sent Response
  resolve_and_connect host port policy = connect_resolved (network.resolve host port) host policy

  unfoldable pub authority_of : Target → Option (Text × ℕ)
  authority_of t = elim t.authority [
    | none ↦ none
    | some (host, port) ↦
        if is_nil host then none else some (host, unwrap_or port (if t.use_tls then 443 else 80))
  ]

  abbrev pub scheme_of : Target → Scheme
  scheme_of t = if t.use_tls then https else http

  -- A call that holds one of `permits` free permits; it gives the permit back when it ends. A deadline
  -- that passes answers the guest, whatever was dialed before.
  abbrev pub dispatch_to : OutboundPolicy Net → ℕ → Scheme → Option (Text × ℕ) → Sent Response
  dispatch_to policy permits scheme none = refused uri_invalid
  dispatch_to policy zero scheme (some (host, port)) =
      if not (allows policy scheme host port)
      then refused request_denied
      else refused connection_limit_reached
  dispatch_to policy (suc permits) scheme (some (host, port)) =
      let sent = resolve_and_connect host port policy in
      if not (allows policy scheme host port)
      then refused request_denied
      else if network.late
      then record sent { answer = inl connection_timeout }
      else sent

  unfoldable pub dispatch : OutboundPolicy Net → ℕ → Target → Sent Response
  dispatch policy permits t = dispatch_to policy permits (scheme_of t) (authority_of t)

  is_allowed→eq : (v : AddrVerdict) → is_allowed v ≡ true → v ≡ allowed
  is_allowed→eq allowed h = refl
  is_allowed→eq blocked_reserved h = cc
  is_allowed→eq blocked_private h = cc

  -- An address was dialed, and the guard let every address of the name through.
  abbrev Vetted : Text → ℕ → OutboundPolicy Net → SocketAddr → Type 0
  Vetted host port policy a =
      (rest : List SocketAddr) × (network.resolve host port ≡ some (a ∷ rest))
      × (all_addresses_allowed (a ∷ rest) policy ≡ true)

  some_injective : {a b : SocketAddr} → some a ≡ some b → a ≡ b
  some_injective e = cc

  not_dialed : {P : Type 0} {a : SocketAddr} → ◌≡◌ {A = Option SocketAddr} none (some a) → P
  not_dialed e = cc

  resolve_and_connect-Vetted :
      (host : Text) (port : ℕ) (policy : OutboundPolicy Net) (a : SocketAddr)
      → (resolve_and_connect host port policy).dialed ≡ some a
      → Vetted host port policy a
  unfolding resolve_and_connect
  resolve_and_connect-Vetted host port policy a h = resolved (network.resolve host port) refl h
    where
      resolved :
          (addrs : Option (List SocketAddr))
          → network.resolve host port ≡ addrs
          → (connect_resolved addrs host policy).dialed ≡ some a
          → Vetted host port policy a
      resolved none e h = cc
      resolved (some []) e h = cc
      resolved (some (first ∷ rest)) e h =
          elim (Bool-cases (all_addresses_allowed (first ∷ rest) policy)) [
            | inl ok ↦
                let same : first ≡ a = some_injective (rw ok at h) in
                subst (λ x. Vetted host port policy x) same (rest, e, ok)
            | inr bad ↦ not_dialed (rw bad at h)
          ]

  all-first :
      (a : SocketAddr) (rest : List SocketAddr) (policy : OutboundPolicy Net)
      → all_addresses_allowed (a ∷ rest) policy ≡ true
      → classify network.contains a.ip policy.allow_private ≡ allowed
  unfolding all_addresses_allowed
  all-first a rest policy h =
      is_allowed→eq (classify network.contains a.ip policy.allow_private)
        ((&&_iff (is_allowed (classify network.contains a.ip policy.allow_private))
            (all (λ a. is_allowed (classify network.contains a.ip policy.allow_private)) rest)).0
          h).0

  -- Whatever a name resolves to and however the operator opted in: an outbound call dials an address only if the
  -- request names a host whose scheme, host and port are on the allowlist, a permit was free, and the
  -- resolver returned that address first and every address that it returned is one the guard allows.
  pub dispatch-guarded :
      (policy : OutboundPolicy Net) (permits : ℕ) (t : Target) (a : SocketAddr)
      → (dispatch policy permits t).dialed ≡ some a
      → (host : Text) × (port : ℕ) × (authority_of t ≡ some (host, port))
        × (allows policy (scheme_of t) host port ≡ true)
        × (1 ≤ permits)
        × Vetted host port policy a
        × (classify network.contains a.ip policy.allow_private ≡ allowed)
  unfolding dispatch
  dispatch-guarded policy permits t a h = to (authority_of t) refl permits h
    where
      Result : ℕ → Type 0
      Result permits =
          (host : Text) × (port : ℕ) × (authority_of t ≡ some (host, port))
          × (allows policy (scheme_of t) host port ≡ true)
          × (1 ≤ permits)
          × Vetted host port policy a
          × (classify network.contains a.ip policy.allow_private ≡ allowed)

      sent :
          (s : Sent Response)
          → (if network.late then record s { answer = inl connection_timeout } else s).dialed
            ≡ some a
          → s.dialed ≡ some a
      sent s h = elim (Bool-cases network.late) [ inl l ↦ rw l at h | inr l ↦ rw l at h ]

      to :
          (target : Option (Text × ℕ))
          → authority_of t ≡ target
          → (permits : ℕ) → (dispatch_to policy permits (scheme_of t) target).dialed ≡ some a
          → Result permits
      to none e permits h = not_dialed h
      to (some (host, port)) e zero h = elim (Bool-cases (allows policy (scheme_of t) host port)) [
        | inl ok ↦ not_dialed (rw ok at h)
        | inr bad ↦ not_dialed (rw bad at h)
      ]
      to (some (host, port)) e (suc permits) h =
          elim (Bool-cases (allows policy (scheme_of t) host port)) [
            | inr bad ↦ not_dialed (rw bad at h)
            | inl ok ↦
                let v =
                  resolve_and_connect-Vetted host port policy a
                    (sent (resolve_and_connect host port policy) (rw ok at h)) in
                (host, port, e, ok, omega arith, v, all-first a v.0 policy v.2)
          ]
