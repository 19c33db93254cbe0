-- ===== src/Host/Quota.antt =====
-- host/src/lib.rs: `KvQuota`, the accounting of what each filter makes the host store. The sums of the
-- code are on `isize`; under the caps they do not reach 2^63, so they are sums of integers here.
use plecto.Prelude.{
  ℕ, ◌-◌, Bool, true, false, ◌&&◌, ◌||◌, Text, text_eq, if◌then◌else◌, ltb, u64_max,
}
use plecto.Prelude.Int.{ℤ, pos, negsuc, pos_part, ◌+ℤ◌, ltb_ℤ, sub_ℕ}
use plecto.Host.{
  NsUsage, QuotaInner, max_ns_entries, max_ns_bytes, max_total_entries, max_total_bytes,
}

-- `n as usize`.
abbrev as_usize : ℤ → ℕ
as_usize (pos n) = n
as_usize (negsuc n) = u64_max - n

abbrev pub new_quota : QuotaInner
new_quota = record {
  ns = λ k. record { entries = 0; bytes_ = 0 };
  total_entries = 0;
  total_bytes = 0;
}

-- Whether growth by `delta` takes the namespace or the host over a cap.
abbrev pub over_quota : ℤ → ℤ → ℕ → ℤ → ℕ → Bool
over_quota delta new_ns ns_cap new_total total_cap =
    ltb_ℤ (pos 0) delta && (ltb ns_cap (as_usize new_ns) || ltb total_cap (as_usize new_total))

-- `max(0) as usize`.
abbrev pub charged : QuotaInner → Text → ℤ → ℤ → QuotaInner
charged g ns entries_delta bytes_delta =
    let cur = g.ns ns in
    let usage : NsUsage = record {
      entries = pos_part (pos cur.entries +ℤ entries_delta);
      bytes_ = pos_part (pos cur.bytes_ +ℤ bytes_delta);
    } in
    record {
      ns = λ k. if text_eq ns k then usage else g.ns k;
      total_entries = pos_part (pos g.total_entries +ℤ entries_delta);
      total_bytes = pos_part (pos g.total_bytes +ℤ bytes_delta);
    }

abbrev pub refuses : QuotaInner → Text → ℤ → ℤ → Bool
refuses g ns entries_delta bytes_delta =
    let cur = g.ns ns in
    over_quota entries_delta (pos cur.entries +ℤ entries_delta) max_ns_entries
      (pos g.total_entries +ℤ entries_delta) max_total_entries
    || over_quota bytes_delta (pos cur.bytes_ +ℤ bytes_delta) max_ns_bytes
        (pos g.total_bytes +ℤ bytes_delta) max_total_bytes

unfoldable pub admit : QuotaInner → Text → ℤ → ℤ → Bool × QuotaInner
admit g ns entries_delta bytes_delta =
    if refuses g ns entries_delta bytes_delta
    then (false, g)
    else (true, charged g ns entries_delta bytes_delta)

unfoldable pub release : QuotaInner → Text → ℕ → ℕ → QuotaInner
release g ns entries bytes_ = (admit g ns (sub_ℕ 0 entries) (sub_ℕ 0 bytes_)).1
