-- ===== src/Upstream/Registry/Rebuilt.antt =====
-- Which instances a rebuilt group has.
use plecto.Prelude.{ℕ, ◌≤◌, ◌≡◌, ◌⊎◌, false, List, [], ◌∷◌, Option, some, max}
use plecto.Manifest.{AddressSpec, address_of, weight_of}
use plecto.Upstream.{HealthConfig, UpstreamInstance, Heap}
use plecto.Upstream.Lb.Scan.{Among}

-- An instance of the group before that has the address and the weight, when the health policy is unchanged.
abbrev pub Matches : Heap → Option ℕ → HealthConfig → AddressSpec → ℕ → Type 0
Matches h prev health spec q =
    (g : ℕ) × (prev ≡ some g)
    × ((h.group_at g).health ≡ health)
    × Among q (h.group_at g).instances
    × ((h.instance_at q).address ≡ address_of spec)
    × ((h.instance_at q).weight ≡ weight_of spec)

-- The first state of an instance: out of the rotation, never healthy, no streak, no load, not ejected, and
-- with the thresholds of the policy.
pub record IsPessimistic (i : UpstreamInstance) (spec : AddressSpec) (health : HealthConfig)
    : Type 0 where
  pub same_address : i.address ≡ address_of spec
  pub same_weight : i.weight ≡ max (weight_of spec) 1
  pub out : i.healthy ≡ false
  pub never : i.counters.ever_healthy ≡ false
  pub no_ok : i.counters.consecutive_ok ≡ 0
  pub no_fail : i.counters.consecutive_fail ≡ 0
  pub idle : i.in_flight ≡ 0
  pub not_ejected : i.outlier_ejected_until_ms ≡ 0
  pub same_healthy_threshold : i.healthy_threshold ≡ max health.healthy_threshold 1
  pub same_unhealthy_threshold : i.unhealthy_threshold ≡ max health.unhealthy_threshold 1

-- The instance `p` of an address: one of the group before, with all its state, or, only when that has none
-- that matches, one that is newly allocated and pessimistic.
abbrev pub IsRebuilt : Heap → Heap → Option ℕ → HealthConfig → AddressSpec → ℕ → Type 0
IsRebuilt h h' prev health spec p =
    (Matches h prev health spec p × (h'.instance_at p ≡ h.instance_at p))
    ⊎ (((q : ℕ) → Matches h prev health spec q → ⊥)
        × (h.next_instance ≤ p)
        × IsPessimistic (h'.instance_at p) spec health)

-- The addresses and the instances, one by one.
abbrev pub AllRebuilt : Heap → Heap → Option ℕ → HealthConfig → List AddressSpec → List ℕ → Type 0
AllRebuilt h h' prev health [] [] = Unit
AllRebuilt h h' prev health [] (p ∷ ps) = ⊥
AllRebuilt h h' prev health (spec ∷ specs) [] = ⊥
AllRebuilt h h' prev health (spec ∷ specs) (p ∷ ps) =
    IsRebuilt h h' prev health spec p × AllRebuilt h h' prev health specs ps
