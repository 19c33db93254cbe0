-- ===== src/RateLimit/Fresh.antt =====
-- A new limiter, and which cells a consult touches.
use plecto.Prelude.{
  length-set, ℕ, suc, ◌*◌, ◌/◌, ◌≤◌, ◌<◌, ◌≡◌, ◌≢◌, refl, ap, true, List, [], ◌∷◌, some, Text,
  length, get_or, set, replicate, arith, u64_max, zero,
}
use plecto.Net.{IpAddr}
use plecto.Bucket.{Bucket, refill, consume, apply_bucket}
use plecto.RateLimit.{
  RouteRateLimit, RateLimitKeyKind, route, client_ip, client_cells, new, new_state, cell_for,
  store_cell, check_at, decision_of, allow, slot_for_ip, ip_slots,
}

get_or-replicate {ℓ} : {A : Type ℓ} (a : A) (n i : ℕ) → get_or (replicate n a) i a ≡ a
get_or-replicate a zero i = refl
get_or-replicate a (suc n) zero = refl
get_or-replicate a (suc n) (suc i) = get_or-replicate a n i

fresh_cell :
    (k : RateLimitKeyKind) (slots : ℕ) (hasher : Text → ℕ) (peer : IpAddr)
    → cell_for (new_state k slots hasher) peer ≡ (0, 0)
unfolding cell_for new_state
fresh_cell route slots hasher peer = refl
fresh_cell client_ip slots hasher peer =
    get_or-replicate (0, 0) slots (slot_for_ip peer hasher (length (replicate slots (0, 0))))

-- A zero cell is a full bucket once the clock has run long enough from its epoch to fill it.
zero_cell_full :
    (rate burst now_ms : ℕ)
    → 0 < rate
    → burst ≤ u64_max
    → burst ≤ now_ms / 1000 * rate
    → (refill
        (some (0, 0))
        (record { capacity = burst; refill_tokens = rate; refill_interval_ms = 1000 })
        now_ms).0
      ≡ burst
unfolding refill
zero_cell_full rate burst now_ms paid small late = ground arith

full_allowed : (spec : Bucket) (s : ℕ × ℕ) → 0 < s.0 → (consume 1 spec s).1.allowed ≡ true
unfolding consume
full_allowed spec (t, last) h = ground arith

-- A new limiter lets its first request through, from any client and in both keying modes, once the clock
-- has run long enough from its epoch to fill a bucket.
pub new-allows :
    (cfg : RouteRateLimit) (hasher : Text → ℕ) (peer : IpAddr) (now_ms : ℕ)
    → 0 < cfg.rate
    → 0 < cfg.burst
    → cfg.burst ≤ u64_max
    → cfg.burst ≤ now_ms / 1000 * cfg.rate
    → (check_at (new cfg hasher) peer now_ms).1 ≡ allow
unfolding check_at new apply_bucket decision_of
new-allows cfg hasher peer now_ms paid some_room small late =
    rw (fresh_cell (cfg.key) ip_slots hasher peer)
      (rw (full_allowed spec (refill (some (0, 0)) spec now_ms) full) refl)
  where
    spec : Bucket
    spec = record { capacity = cfg.burst; refill_tokens = cfg.rate; refill_interval_ms = 1000 }

    full : 0 < (refill (some (0, 0)) spec now_ms).0
    full = rw (zero_cell_full (cfg.rate) (cfg.burst) now_ms paid small late) some_room

get_or-set {ℓ} :
    {A : Type ℓ} (xs : List A) (i j : ℕ) (v d : A) → i ≢ j → get_or (set xs i v) j d ≡ get_or xs j d
get_or-set [] i j v d h = refl
get_or-set (x ∷ xs) zero zero v d h = absurd (h refl)
get_or-set (x ∷ xs) zero (suc j) v d h = refl
get_or-set (x ∷ xs) (suc i) zero v d h = refl
get_or-set (x ∷ xs) (suc i) (suc j) v d h = get_or-set xs i j v d (λ e. h (ap suc e))

-- A consult for one client leaves the bucket of every client in another slot as it was.
pub check_at-other :
    (spec : Bucket) (slots : List (ℕ × ℕ)) (hasher : Text → ℕ) (peer other : IpAddr) (now_ms : ℕ)
    → slot_for_ip peer hasher (length slots) ≢ slot_for_ip other hasher (length slots)
    → cell_for
        (check_at (record { spec = spec; state = client_cells slots hasher }) peer now_ms).0.state
        other
      ≡ cell_for (client_cells slots hasher) other
unfolding check_at cell_for store_cell
check_at-other spec slots hasher peer other now_ms apart =
    rw
      (length-set slots (slot_for_ip peer hasher (length slots))
        (apply_bucket (some (get_or slots (slot_for_ip peer hasher (length slots)) (0, 0))) 1 spec
          now_ms).0)
      (get_or-set slots _ _ _ (0, 0) apart)
