-- ===== src/Upstream/Outlier.antt =====
-- control/src/upstream/outlier.rs: an instance that returns gateway errors is ejected for a while.
-- The percentage is a u32 and the group's length is below 2^32, so their product does not wrap.
pub mod Cap
pub mod Reports
use plecto.Prelude.{
  ℕ, ◌+◌, ◌*◌, ◌%◌, ◌^◌, Bool, true, false, List, Option, none, some, length, filter, update, min,
  saturating_add, u32_max, u64_max, u64_mod, if◌then◌else◌, ltb, not,
}
use plecto.Upstream.{UpstreamInstance, UpstreamGroup, HealthCounters, Heap}
use plecto.Upstream.Instance.{is_outlier_ejected}

abbrev pub outlier_backoff_shift_cap : ℕ
outlier_backoff_shift_cap = 6

unfoldable pub outlier_enabled : UpstreamGroup → Bool
outlier_enabled g = ltb 0 g.outlier_consecutive

abbrev pub set_instance : Heap → ℕ → UpstreamInstance → Heap
set_instance h p i = record h { instance_at = update h.instance_at p i }

-- `filter(|i| i.is_outlier_ejected(now_ms)).count()`.
unfoldable pub already_ejected : Heap → UpstreamGroup → ℕ → ℕ
already_ejected h g now_ms =
    length (filter (λ p. is_outlier_ejected (h.instance_at p) now_ms) g.instances)

-- `base · 2^min(eject_count, cap)` in milliseconds; `as u64` drops the high bits.
unfoldable pub window_ms : UpstreamGroup → HealthCounters → ℕ
window_ms g c =
    (g.outlier_base_ejection * 2 ^ min c.outlier_eject_count outlier_backoff_shift_cap) % u64_mod

-- The ejection cap, for an instance whose streak has reached the threshold and whose counters are `c`: it
-- is spared, or is to be ejected with these counters.
at_threshold : Heap → UpstreamGroup → ℕ → HealthCounters → ℕ → Heap × Option HealthCounters
at_threshold h g p c now_ms =
    let i = h.instance_at p in
    let spared = record c { consecutive_gw_fail = 0 } in
    if ltb (g.outlier_max_ejection_percent * length g.instances)
      ((already_ejected h g now_ms + 1) * 100)
    then (set_instance h p (record i { counters = spared }), none)
    else (h, some c)

-- `record_outcome` up to its decision. The lock of the instance is held from here to its end, but not those
-- of the other instances, whose ejections it counts.
unfoldable pub decide : Heap → UpstreamGroup → ℕ → Bool → ℕ → Heap × Option HealthCounters
unfolding at_threshold
decide h g p gateway_failure now_ms =
    let i = h.instance_at p in
    let c = i.counters in
    let reset = record c { consecutive_gw_fail = 0; outlier_eject_count = 0 } in
    let failed = record c {
      consecutive_gw_fail = saturating_add u32_max c.consecutive_gw_fail 1;
    } in
    if not (outlier_enabled g)
    then (h, none)
    else if i.poisoned
    then (h, none)
    else if not gateway_failure
    then (set_instance h p (record i { counters = reset }), none)
    else if ltb failed.consecutive_gw_fail g.outlier_consecutive
    then (set_instance h p (record i { counters = failed }), none)
    else at_threshold h g p failed now_ms

-- The ejection that was decided on at the clock `now_ms`.
unfoldable pub eject : Heap → UpstreamGroup → ℕ → HealthCounters → ℕ → Heap
eject h g p c now_ms =
    let i = h.instance_at p in
    set_instance h p (record i {
      counters = record c {
        consecutive_gw_fail = 0;
        outlier_eject_count = saturating_add u32_max c.outlier_eject_count 1;
      };
      outlier_ejected_until_ms = saturating_add u64_max now_ms (window_ms g c);
    })

abbrev pub after_decision : UpstreamGroup → ℕ → ℕ → Heap × Option HealthCounters → Heap × Bool
after_decision g p now_ms (h, none) = (h, false)
after_decision g p now_ms (h, some c) = (eject h g p c now_ms, true)

-- A report with no other at the same time: the instance `p` of the group `g`, at the clock `now_ms`.
pub record_outcome : Heap → UpstreamGroup → ℕ → Bool → ℕ → Heap × Bool
record_outcome h g p gateway_failure now_ms =
    after_decision g p now_ms (decide h g p gateway_failure now_ms)
