-- ===== src/RateLimit.antt =====
-- control/src/ratelimit.rs: the native rate limiter of a route. The hasher of the table is a parameter.
pub mod Examples
pub mod Fresh
use Prim.Native.Nat.{bit_and}
use plecto.Prelude.{
  ℕ, ◌+◌, ◌-◌, ◌^◌, Bool, true, false, List, [], ◌∷◌, ◌++◌, Option, none, some, Text, text_eq,
  length, get_or, set, take, drop, replicate, if◌then◌else◌,
}
use plecto.Net.{IpAddr, v4, v6}
use plecto.Bucket.{Bucket, Acquire, apply_bucket}

abbrev pub ip_slots : ℕ
ip_slots = 65536

pub data RateLimitKeyKind : Type 0 where
  route client_ip : RateLimitKeyKind

pub record RouteRateLimit : Type 0 where
  pub rate : ℕ
  pub burst : ℕ
  pub key : RateLimitKeyKind

pub data RateLimitDecision : Type 0 where
  allow : RateLimitDecision
  limit : ℕ → RateLimitDecision

-- One bucket of the route, or a table of them with the hash of an 8-byte key.
pub data LimiterState : Type 0 where
  route_cell : ℕ × ℕ → LimiterState
  client_cells : List (ℕ × ℕ) → (Text → ℕ) → LimiterState

pub record NativeRateLimit : Type 0 where
  pub spec : Bucket
  pub state : LimiterState

pub new_state : RateLimitKeyKind → ℕ → (Text → ℕ) → LimiterState
new_state route slots hasher = route_cell (0, 0)
new_state client_ip slots hasher = client_cells (replicate slots (0, 0)) hasher

unfoldable pub new : RouteRateLimit → (Text → ℕ) → NativeRateLimit
new cfg hasher = record {
  spec = record { capacity = cfg.burst; refill_tokens = cfg.rate; refill_interval_ms = 1000 };
  state = new_state (cfg.key) ip_slots hasher;
}

-- `to_ipv4_mapped`: ten zero octets, then two of 255.
abbrev pub canonical : IpAddr → IpAddr
canonical (v4 o) = v4 o
canonical (v6 o) =
    if text_eq (take 12 o) (replicate 10 0 ++ (255 ∷ 255 ∷ [])) then v4 (drop 12 o) else v6 o

abbrev key_of : IpAddr → Text
key_of (v4 o) = take 4 o ++ replicate 4 0
key_of (v6 o) = take 8 o

pub ip_key_bytes : IpAddr → Text
ip_key_bytes peer = key_of (canonical peer)

pub slot_for_ip : IpAddr → (Text → ℕ) → ℕ → ℕ
slot_for_ip peer hasher len = bit_and (hasher (ip_key_bytes peer)) (len - 1)

pub cell_for : LimiterState → IpAddr → ℕ × ℕ
cell_for (route_cell c) peer = c
cell_for (client_cells slots hasher) peer =
    get_or slots (slot_for_ip peer hasher (length slots)) (0, 0)

pub store_cell : LimiterState → IpAddr → ℕ × ℕ → LimiterState
store_cell (route_cell c) peer next = route_cell next
store_cell (client_cells slots hasher) peer next =
    client_cells (set slots (slot_for_ip peer hasher (length slots)) next) hasher

pub decision_of : Acquire → RateLimitDecision
decision_of acq = if acq.allowed then allow else limit (acq.retry_after_ms)

unfoldable pub check_at : NativeRateLimit → IpAddr → ℕ → NativeRateLimit × RateLimitDecision
check_at rl peer now_ms =
    let (next, acq) = apply_bucket (some (cell_for (rl.state) peer)) 1 (rl.spec) now_ms in
    (record { spec = rl.spec; state = store_cell (rl.state) peer next }, decision_of acq)
