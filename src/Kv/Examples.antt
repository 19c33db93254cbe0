-- ===== src/Kv/Examples.antt =====
-- Buckets and the in-memory store at concrete values.
use plecto.Prelude.{
  ℕ, ◌+◌, ◌*◌, ◌≤◌, ◌<◌, ◌≡◌, refl, true, false, List, [], ◌∷◌, some, arith, bytes,
}
use plecto.Bucket.{Bucket, apply_bucket, refill, consume}
use plecto.Bucket.Rate.{Consult, consult_all, consult_all-rate}
use plecto.Bucket.Retry.{retry_after_granted}
use plecto.Kv.{MemoryBackend, get}

-- Two tokens a second, five at most.
abbrev spec : Bucket
spec = record { capacity = 5; refill_tokens = 2; refill_interval_ms = 1000 }

abbrev consults : List Consult
consults = record { cost = 3; now_ms = 500 } ∷ record { cost = 3; now_ms = 1700 } ∷ []

consult_all-rate_example :
    (k : ℕ) × (k * 1000 ≤ 2000) × ((consult_all spec (5, 0) consults).1 ≤ 5 + k * 2)
consult_all-rate_example =
    consult_all-rate spec 2000 (5, 0) consults (omega arith) (omega arith, (omega arith, tt))
      (omega arith)

denied :
    ((apply_bucket (some (1, 0)) 3 spec 100).1.allowed ≡ false)
    × ((apply_bucket (some (1, 0)) 3 spec 100).0.1 ≤ 100)
    × (100 + (apply_bucket (some (1, 0)) 3 spec 100).1.retry_after_ms ≤ 1100)
    × ((apply_bucket (some (1, 0)) 3 spec 100).1.retry_after_ms < 18446744073709551615)
unfolding apply_bucket refill consume
denied = (refl, omega arith, omega arith, omega arith)

retry_after_granted_example :
    (apply_bucket (some (apply_bucket (some (1, 0)) 3 spec 100).0) 3 spec 1100).1.allowed ≡ true
retry_after_granted_example =
    retry_after_granted (some (1, 0)) 3 spec 100 1100 denied.0 denied.1 denied.2 denied.3
      (omega arith) (omega arith) refl

-- A store whose every key holds three bytes.
abbrev corrupt : MemoryBackend
corrupt = record { lookup = λ k. some (bytes "abc") }

held : get corrupt (bytes "k") ≡ some (bytes "abc")
unfolding get
held = refl
