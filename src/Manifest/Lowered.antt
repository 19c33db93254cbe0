-- ===== src/Manifest/Lowered.antt =====
-- What the host gets of a filter's entry that validation accepts.
use plecto.Prelude.{
  ℕ, ◌<◌, ◌≡◌, refl, ap, Bool, true, List, [], ◌∷◌, map, Option, none, some, Text, arith, All,
  length, Option-cases, inl, inr, false,
}
use plecto.Bucket.{Bucket}
use plecto.Outbound.{OutboundPolicy}
use plecto.Outbound.Options.{with_outbound, unwrap_or}
use plecto.Manifest.Filters.{
  IsolationKind, trusted, untrusted, SchemeKind, https, http, RateLimitConfig, AllowDest,
  OutboundConfig, FilterEntry, FilterReason, is_some_zero, ratelimit_error, allow_error, cidr_error,
  or_reason, bounds_error, validate_outbound, outbound_error, validate, default_init_deadline_ms,
  default_port, is_nil, bucket_of, allow_entry, parsed, policy_of, load_options,
}

-- The bucket has room, and fills again unless it is a one-shot bucket.
abbrev pub Refills : Option Bucket → Type 0
Refills none = Unit
Refills (some b) = (0 < b.capacity) × (0 < b.refill_tokens → 0 < b.refill_interval_ms)

-- The policy lists a destination, each with a port, and opens every range that the operator wrote.
abbrev pub Lent :
    {Net : Type 0}
    → (Text → Option Net)
    → Option OutboundConfig
    → Option (OutboundPolicy Net)
    → Type 0
Lent parse none none = Unit
Lent parse none (some p) = ⊥
Lent parse (some ob) none = ⊥
Lent parse (some ob) (some p) =
    (0 < length p.allow)
    × All (λ e. 0 < e.port) p.allow
    × (map parse ob.allow_private ≡ map some p.allow_private)

or_reason-none : (e f : Option FilterReason) → or_reason e f ≡ none → (e ≡ none) × (f ≡ none)
or_reason-none none f h = (refl, h)
or_reason-none (some e) f h = cc

positive : (o : Option ℕ) (d : ℕ) → is_some_zero o ≡ false → 0 < d → 0 < unwrap_or o d
positive none d h p = p
positive (some n) d h p = ground (arith, h)

absurd_reason : {r : FilterReason} {P : Type 0} → ◌≡◌ {A = Option FilterReason} (some r) none → P
absurd_reason e = cc

ratelimit-Refills :
    (rl : Option RateLimitConfig) → ratelimit_error rl ≡ none → Refills (bucket_of rl)
unfolding ratelimit_error
ratelimit-Refills none h = tt
ratelimit-Refills (some rl) h = (ground (arith, h), λ some_refill. ground (arith, h, some_refill))

default_port_pos : (s : SchemeKind) → 0 < default_port s
default_port_pos https = omega arith
default_port_pos http = omega arith

default_init_pos : (i : IsolationKind) → 0 < default_init_deadline_ms i
default_init_pos trusted = omega arith
default_init_pos untrusted = omega arith

some_listed : (dests : List AllowDest) → is_nil dests ≡ false → 0 < length (map allow_entry dests)
some_listed [] h = cc
some_listed (d ∷ ds) h = omega arith

ports :
    (space : ℕ → Bool) (dests : List AllowDest)
    → allow_error space dests ≡ none
    → All (λ e. 0 < e.port) (map allow_entry dests)
unfolding allow_error
ports space [] h = tt
ports space (d ∷ ds) h = (
  positive d.port (default_port d.scheme) (ground (arith, h)) (default_port_pos d.scheme),
  ports space ds (ground (arith, h)),
)

module _ {Net : Type 0} (parse : Text → Option Net) where
  ranges :
      (cidrs : List Text)
      → cidr_error parse cidrs ≡ none
      → map parse cidrs ≡ map some (parsed parse cidrs)
  unfolding cidr_error parsed
  ranges [] h = refl
  ranges (c ∷ cs) h = elim (Option-cases (parse c)) [
    | inl e ↦ absurd_reason (rw e at h)
    | inr (net, e) ↦ rw e (ap (λ rest. some net ∷ rest) (ranges cs (rw e at h)))
  ]

  outbound-Lent :
      (feature : Bool) (space : ℕ → Bool) (ob : Option OutboundConfig)
      → outbound_error feature space parse ob ≡ none
      → Lent parse ob (policy_of parse ob)
  unfolding validate_outbound policy_of with_outbound
  outbound-Lent feature space none h = tt
  outbound-Lent false space (some ob) h = cc
  outbound-Lent true space (some ob) h =
      let listed : is_nil ob.allow ≡ false = ground (arith, h) in
      let checks =
        or_reason-none (allow_error space ob.allow)
          (or_reason (cidr_error parse ob.allow_private) (bounds_error ob)) (rw listed at h) in
      let later = or_reason-none (cidr_error parse ob.allow_private) (bounds_error ob) checks.1 in
      (some_listed ob.allow listed, ports space ob.allow checks.0, ranges ob.allow_private later.0)

-- An entry that validation accepts never lowers to options that could not serve: every deadline and the
-- memory bound are positive; its bucket holds tokens and fills again, unless it is one-shot; and its
-- outbound policy, there exactly when the entry has one, lists a destination, gives each a port, and opens
-- every private range that the operator wrote, none dropped.
pub validate-load_options :
    {Net : Type 0} (feature : Bool) (space : ℕ → Bool) (parse : Text → Option Net)
    (entry : FilterEntry)
    → validate feature space parse entry ≡ none
    → let o = load_options parse entry in
      (0 < o.init_deadline_ms)
      × (0 < o.request_deadline_ms)
      × (0 < o.max_memory_bytes)
      × Refills o.ratelimit_bucket
      × Lent parse entry.outbound o.outbound
unfolding validate load_options
validate-load_options feature space parse entry h =
    let init : is_some_zero entry.init_deadline_ms ≡ false = ground (arith, h) in
    let request : is_some_zero entry.request_deadline_ms ≡ false = ground (arith, h) in
    let memory : is_some_zero entry.max_memory_bytes ≡ false = ground (arith, h) in
    let rest =
      or_reason-none (ratelimit_error entry.ratelimit)
        (outbound_error feature space parse entry.outbound) (rw (init, request, memory) at h) in
    (
      positive entry.init_deadline_ms (default_init_deadline_ms entry.isolation) init
          (default_init_pos entry.isolation),
      positive entry.request_deadline_ms 100 request (omega arith),
      positive entry.max_memory_bytes 67108864 memory (omega arith),
      ratelimit-Refills entry.ratelimit rest.0,
      outbound-Lent parse feature space entry.outbound rest.1,
    )
