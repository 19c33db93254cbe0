-- ===== src/Outbound.antt =====
-- host/src/outbound.rs: where a filter may send a request. A CIDR block is `ipnet`'s, and is a parameter
-- with the test whether it contains an address. An address is its octets; a segment of an IPv6 address is
-- two of them.
pub mod Ranges
pub mod Classify
pub mod Options
pub mod Send
pub mod Examples
use Prim.Native.Nat.{bit_and}
use plecto.Prelude.{
  ℕ, ◌+◌, ◌*◌, Bool, true, false, ◌&&◌, ◌||◌, not, List, [], ◌∷◌, ◌++◌, Option, none, some, Text,
  text_eq, any, all, take, drop, replicate, get_or, if◌then◌else◌, leb, ◌==◌, eq_ignore_ascii_case,
}
use plecto.Net.{IpAddr, v4, v6}

pub data Scheme : Type 0 where
  http https : Scheme

abbrev pub default_port : Scheme → ℕ
default_port http = 80
default_port https = 443

abbrev pub scheme_eq : Scheme → Scheme → Bool
scheme_eq http http = true
scheme_eq http https = false
scheme_eq https http = false
scheme_eq https https = true

pub record AllowEntry : Type 0 where
  pub scheme : Scheme
  pub host : Text
  pub port : ℕ

pub data AddrVerdict : Type 0 where
  allowed blocked_reserved blocked_private : AddrVerdict

-- Durations are in milliseconds.
pub record OutboundPolicy (Net : Type 0) : Type 0 where
  pub allow : List AllowEntry
  pub allow_private : List Net
  pub connect_timeout : ℕ
  pub total_timeout : ℕ
  pub max_response_bytes : ℕ
  pub max_concurrent : ℕ

unfoldable pub allows : {Net : Type 0} → OutboundPolicy Net → Scheme → Text → ℕ → Bool
allows p scheme host port =
    any (λ e. scheme_eq e.scheme scheme && (e.port == port) && eq_ignore_ascii_case e.host host)
      p.allow

-- The predicates of `Ipv4Addr` and `Ipv6Addr`, by the ranges that they are documented to test.
abbrev pub octet : Text → ℕ → ℕ
octet o i = get_or o i 0

abbrev pub starts : Text → Text → Bool
starts [] o = true
starts (p ∷ ps) [] = false
starts (p ∷ ps) (x ∷ xs) = (x == p) && starts ps xs

abbrev is_documentation : Text → Bool
is_documentation o =
    starts (192 ∷ 0 ∷ 2 ∷ []) o || starts (198 ∷ 51 ∷ 100 ∷ []) o || starts (203 ∷ 0 ∷ 113 ∷ []) o

abbrev is_multicast : Text → Bool
is_multicast o = leb 224 (octet o 0) && leb (octet o 0) 239

abbrev pub is_private_v4 : Text → Bool
is_private_v4 o =
    (octet o 0 == 10)
    || ((octet o 0 == 172) && leb 16 (octet o 1) && leb (octet o 1) 31)
    || ((octet o 0 == 192) && (octet o 1 == 168))

unfoldable pub v4_always_blocked : Text → Bool
v4_always_blocked o =
    (octet o 0 == 127)
    || starts (169 ∷ 254 ∷ []) o
    || starts (255 ∷ 255 ∷ 255 ∷ 255 ∷ []) o
    || is_multicast o
    || is_documentation o
    || (octet o 0 == 0)
    || ((octet o 0 == 100) && (bit_and (octet o 1) 0xc0 == 0x40))
    || ((octet o 0 == 192) && (octet o 1 == 0) && (octet o 2 == 0))
    || ((octet o 0 == 198) && (bit_and (octet o 1) 0xfe == 18))
    || (bit_and (octet o 0) 0xf0 == 240)

abbrev pub segment : Text → ℕ → ℕ
segment o i = octet o (2 * i) * 256 + octet o (2 * i + 1)

abbrev pub loopback_v6 : Text
loopback_v6 = replicate 15 0 ++ 1 ∷ []

abbrev pub unspecified_v6 : Text
unspecified_v6 = replicate 16 0

unfoldable pub v6_always_blocked : Text → Bool
v6_always_blocked o =
    text_eq o loopback_v6
    || text_eq o unspecified_v6
    || (octet o 0 == 255)
    || (bit_and (segment o 0) 0xffc0 == 0xfe80)
    || ((segment o 0 == 0x2001) && (segment o 1 == 0x0db8))
    || ((segment o 0 == 0x2001) && (segment o 1 == 0))
    || ((segment o 0 == 0x0064) && (segment o 1 == 0xff9b))
    || ((segment o 0 == 0x0100) && (segment o 1 == 0) && (segment o 2 == 0) && (segment o 3 == 0))

abbrev pub is_always_blocked : IpAddr → Bool
is_always_blocked (v4 o) = v4_always_blocked o
is_always_blocked (v6 o) = v6_always_blocked o

abbrev pub is_private : IpAddr → Bool
is_private (v4 o) = is_private_v4 o
is_private (v6 o) = bit_and (segment o 0) 0xfe00 == 0xfc00

-- `to_ipv4_mapped`: `::ffff:a.b.c.d`.
abbrev pub is_mapped : Text → Bool
is_mapped o = starts (replicate 10 0 ++ 255 ∷ 255 ∷ []) o

-- The first six segments are zero, and the address is neither `::1` nor `::`.
abbrev pub is_compatible : Text → Bool
is_compatible o =
    starts (replicate 12 0) o && not (text_eq o loopback_v6) && not (text_eq o unspecified_v6)

unfoldable pub canonicalize : IpAddr → IpAddr
canonicalize (v4 o) = v4 o
canonicalize (v6 o) = if is_mapped o || is_compatible o then v4 (drop 12 o) else v6 o

module _ {Net : Type 0} (contains : Net → IpAddr → Bool) where
  abbrev pub verdict : IpAddr → List Net → AddrVerdict
  verdict canonical allow_private =
      if is_always_blocked canonical
      then blocked_reserved
      else if is_private canonical
      then if any (λ net. contains net canonical) allow_private then allowed else blocked_private
      else allowed

  unfoldable pub classify : IpAddr → List Net → AddrVerdict
  classify ip allow_private = verdict (canonicalize ip) allow_private
