-- ===== src/Lib.antt =====
-- Plecto, a reverse proxy with WebAssembly filters: a model of its decisions and theorems about them.
--
-- A request comes in at plecto/crates/server/src/proxy.rs: its path is normalized
-- (plecto/crates/control/src/route.rs), its client headers are replaced (server/src/headers.rs), a route is
-- selected, the route's native limiter is consulted (ratelimit.rs), the chain of filters runs (chain.rs), the
-- weighted split picks an upstream group (weighted.rs), the body hook runs, the group admits the request
-- (upstream/circuit_breaker.rs) and picks an instance (upstream/lb.rs), and the forward loop sends and
-- retries (server/src/forward.rs, retry.rs), feeding health and outlier detection
-- (upstream/instance.rs, upstream/outlier.rs), as the supervisor's probes do (server/src/health.rs). A
-- filter's call runs on an instance of a pool (plecto/crates/host/src/lib.rs) and may use what the host
-- lends it: keys, counters, buckets and a log
-- (host/src/lib.rs, backend.rs), and outbound calls (outbound.rs, outbound_http.rs). The manifest
-- makes all of this: an entry of a filter is validated (manifest/validate.rs), lowered to the options of
-- the host (lowering.rs), and loaded behind the gate; the upstreams are reconciled (upstream/registry.rs)
-- and the routes compiled onto their groups (control/src/lib.rs). A reload does it again and swaps the
-- result in (control_reload.rs, reload.rs).
--
-- Files and code, paths below plecto/crates:
--   Prelude      shared names; lists, words, byte strings, integers and tests of the Rust standard library
--   Strings      `split`, `split_once`, `join` and affixes of `str`, with their laws
--   Net          addresses, as their octets
--   Hash         control/src/hash.rs, MurmurHash3
--   Maglev       control/src/maglev.rs: `build` and `lookup`
--   Manifest     control/src/manifest: validate_lb and is_prime of validate.rs, with what they read;
--                Filters has a filter's entry, its validation and `load_options` of lowering.rs
--   Errors       control/src/error.rs, and the results that carry its errors
--   Control      control/src: the manifest, the active configuration and the control plane; Routes has
--                `validate_routes` of route.rs and the routes that `build_active` compiles, Active the rest
--                of `build_active` of lib.rs, Start the constructors, Reload control_reload.rs and reload.rs
--   Upstream     control/src/upstream: the records (mod.rs), Instance (instance.rs), Breaker
--                (circuit_breaker.rs), Outlier (outlier.rs), Lb (lb.rs), Registry (registry.rs)
--   Weighted     control/src/weighted.rs
--   Bucket, Kv   host/src/backend.rs: the token bucket; the encodings and `MemoryBackend`
--   RateLimit    control/src/ratelimit.rs
--   Route        control/src/route.rs
--   Chain        control/src/chain.rs, and `fail_closed_response` of host/src/lib.rs
--   Retry        server/src/retry.rs
--   Forward      server/src/forward.rs
--   Headers      server/src/headers.rs
--   Proxy        server/src/proxy.rs: the state in Proxy.antt, the stages in Core; `find_route` of snapshot.rs
--   Host         host/src/lib.rs: the quota, the capabilities on stored state, the log, and the check
--                of a component before it is loaded
--   Pool         host/src/lib.rs: `TrustedPool`, `checkout` and `run_pooled`, under concurrent callers
--   Outbound     host/src/outbound.rs; Options has `with_outbound` of lib.rs, Send the steps of
--                outbound_http.rs up to the connection
--   Probes       server/src/health.rs
--   Rng          control/src/rng.rs
--   Trace        the traceparent header of host/src/observe.rs
-- An Examples module has tests of its component at concrete values.
--
-- Functions keep the names of the source. State is passed: an `Arc` is a pointer into a `Heap`, an atomic
-- or a field behind a mutex is a field of a record, and a method that holds its mutex throughout is one
-- step. Where callers race, on the atomic of the breaker, on the ejections that outlier detection counts, or
-- on the lock of the pool, each access or locked section is a step of its own, and a schedule or a step
-- relation says who steps. Integers are numbers
-- with the bound or the wrap-around of their type written out; times and durations are milliseconds. A
-- `&str` is the list of its bytes.
--
-- Six loops run on fuel: the construction of the Maglev table on `m` rounds, since a round fills a slot at
-- least, and its probe on `m` places, since the places of a backend run through all slots when `m` is a
-- prime; the forward loop on `max_retries + 1` turns, since each turn but the last spends
-- a try; trial division on `n` odd numbers from 3, since the square of the last is above `n`; Euclid's loop
-- on its second number and one more, since a remainder is smaller than the divisor; and the rejection loop
-- of the random draws, for which no bound is shown. Every other loop is structural recursion.
--
-- Parameters: the clock, the two random draws of least-request (two distinct ordinals in range), the
-- hasher of the limiter's table, the hooks of a filter, what the runtime builds and what a guest's call
-- returns, what the client answers to an attempt and the instance that the group gives for a retry, the
-- text of an address and the lossy decoding of a header value, the resolver and the connection of an
-- outbound call and the parsing and containment of CIDR blocks, signatures, digests, hex and JSON, the
-- artifact store, the client of a probe, what the runtime makes of an admitted component and whether it
-- reads bodies, the TLS configuration, the hash of a manifest's serialization, the reading of the trusted keys, and what is on
-- the disk at each reload.
--
-- Not modelled: the parsing of a manifest and the defaults of omitted fields, the poisoned lock of the
-- registry, requests that run while a reload builds (a reload is one step), what a filter's `init` writes to
-- the host's stores during a reload, and the code that is I/O or calls of libraries: listeners, TLS, HTTP/3,
-- artifacts, metrics, and the signal behind a reload.
pub mod Bucket
pub mod Chain
pub mod Control
pub mod Errors
pub mod Forward
pub mod Hash
pub mod Headers
pub mod Host
pub mod Kv
pub mod Maglev
pub mod Manifest
pub mod Net
pub mod Outbound
pub mod Pool
pub mod Prelude
pub mod Probes
pub mod Proxy
pub mod RateLimit
pub mod Retry
pub mod Rng
pub mod Route
pub mod Strings
pub mod Trace
pub mod Upstream
pub mod Weighted
