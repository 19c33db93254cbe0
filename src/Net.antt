-- ===== src/Net.antt =====
-- Addresses of the Rust standard library (`std::net`): an address is its octets, 4 or 16 of them.
use plecto.Prelude.{Text}

pub data IpAddr : Type 0 where
  v4 : Text → IpAddr
  v6 : Text → IpAddr

abbrev pub octets : IpAddr → Text
octets (v4 o) = o
octets (v6 o) = o
