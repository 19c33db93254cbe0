-- ===== src/RateLimit/Examples.antt =====
-- A limiter of three requests, two a second, for a client address.
use plecto.Prelude.{ℕ, ◌≢◌, List, [], ◌∷◌, Text, arith}
use plecto.Net.{IpAddr, v4}
use plecto.Bucket.{Bucket}
use plecto.RateLimit.{RouteRateLimit, client_ip, slot_for_ip, ip_key_bytes}

abbrev cfg : RouteRateLimit
cfg = record { rate = 2; burst = 3; key = client_ip }

abbrev hasher : Text → ℕ
hasher [] = 0
hasher (x ∷ s) = x

abbrev peer : IpAddr
peer = v4 (1 ∷ 0 ∷ 0 ∷ 7 ∷ [])

abbrev other : IpAddr
other = v4 (2 ∷ 0 ∷ 0 ∷ 7 ∷ [])

abbrev spec : Bucket
spec = record { capacity = 3; refill_tokens = 2; refill_interval_ms = 1000 }

abbrev slots : List (ℕ × ℕ)
slots = (3, 0) ∷ (3, 0) ∷ (3, 0) ∷ (3, 0) ∷ []

slots_apart : slot_for_ip peer hasher 4 ≢ slot_for_ip other hasher 4
unfolding slot_for_ip ip_key_bytes
slots_apart = ground arith
