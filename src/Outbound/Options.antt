-- ===== src/Outbound/Options.antt =====
-- host/src/lib.rs: the outbound policy that `with_outbound` makes of the options of a filter.
use plecto.Prelude.{ℕ, ◌≤◌, List, Option, none, some, min, max, arith}
use plecto.Outbound.{
  Scheme, http, https, OutboundPolicy, AddrVerdict, allowed, blocked_reserved, blocked_private,
  allows, classify, default_port,
}

-- DEFAULT_OUTBOUND_* and MAX_OUTBOUND_*.
abbrev pub clamp : ℕ → ℕ → ℕ → ℕ
clamp v lo hi = min (max v lo) hi

abbrev pub unwrap_or : Option ℕ → ℕ → ℕ
unwrap_or none d = d
unwrap_or (some v) d = v

-- `with_outbound`, the operator's blocks already parsed.
unfoldable pub with_outbound :
    {Net : Type 0}
    → List plecto.Outbound.AllowEntry
    → List Net
    → Option ℕ
    → Option ℕ
    → Option ℕ
    → Option ℕ
    → OutboundPolicy Net
with_outbound allow nets connect total bytes_ concurrent = record {
  allow = allow;
  allow_private = nets;
  connect_timeout = clamp (unwrap_or connect 2000) 1 10000;
  total_timeout = clamp (unwrap_or total 5000) 1 30000;
  max_response_bytes = clamp (unwrap_or bytes_ 65536) 1 1048576;
  max_concurrent = clamp (unwrap_or concurrent 8) 1 64;
}

-- Whatever the manifest asks for, a filter's outbound calls stay within the host's bounds, and none is zero.
pub with_outbound-bounded :
    {Net : Type 0} (allow : List plecto.Outbound.AllowEntry) (nets : List Net)
    (connect total bytes_ concurrent : Option ℕ)
    → let p = with_outbound allow nets connect total bytes_ concurrent in
      ((1 ≤ p.connect_timeout) × (p.connect_timeout ≤ 10000))
      × (((1 ≤ p.total_timeout) × (p.total_timeout ≤ 30000))
          × (((1 ≤ p.max_response_bytes) × (p.max_response_bytes ≤ 1048576))
              × ((1 ≤ p.max_concurrent) × (p.max_concurrent ≤ 64))))
unfolding with_outbound
with_outbound-bounded allow nets connect total bytes_ concurrent = ground arith
