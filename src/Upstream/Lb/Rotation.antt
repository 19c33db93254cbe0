-- ===== src/Upstream/Lb/Rotation.antt =====
-- Round-robin over the eligible set.
use plecto.Prelude.{
  ℕ, zero, suc, ◌+◌, ◌%◌, ◌<◌, ◌≡◌, refl, sym, ◌∙◌, List, [], ◌∷◌, Option, none, arith, length,
  get_elem?, filter, u64_mod, ap, ap₂,
}
use plecto.Upstream.{Heap, UpstreamGroup, round_robin, least_request, maglev}
use plecto.Upstream.Breaker.{increment}
use plecto.Upstream.Outlier.{outlier_enabled}
use plecto.Upstream.Lb.{
  HashInput, Pick, Env, pick_dispatch, pick, round_robin_pick, to_pick, set_rr, is_eligible,
  eligibility_ctx, least_request_pick, maglev_pick,
}
use plecto.Upstream.Lb.Scan.{rr_scan-eq}
use plecto.Upstream.Lb.Serves.{sight, Steady}

-- The instances that are eligible on the first of a row of picks.
abbrev pub rotation : Heap → ℕ → ℕ → List ℕ
rotation h g clock = filter (sight h g none clock) (h.group_at g).instances

pick-round_robin :
    (h : Heap) (e : Env) (g : ℕ) (key : Option HashInput)
    → (h.group_at g).lb ≡ round_robin
    → pick h e g key ≡ round_robin_pick h e.later g none e.clock
unfolding pick pick_dispatch
pick-round_robin h e g key rr = λ i. elim (rr i) [
  | round_robin ↦ round_robin_pick h e.later g none e.clock
  | least_request ↦ least_request_pick h e.draw g none e.clock
  | maglev t ↦ maglev_pick h e.later g t none key e.clock
]

round_robin_once :
    (h : Heap) (e : Env) (g : ℕ)
    → Steady h e g none
    → 0 < length (rotation h g e.clock)
    → round_robin_pick h e.later g none e.clock ≡ (
      to_pick
          (get_elem? (rotation h g e.clock) ((h.group_at g).rr % length (rotation h g e.clock))),
      set_rr h g (increment (h.group_at g).rr),
    )
unfolding round_robin_pick
round_robin_once h e g steady some_eligible = rw steady (
    ground (
      arith,
      rr_scan-eq (sight h g none e.clock) ((h.group_at g).rr % length (rotation h g e.clock))
          ((h.group_at g).rr % length (rotation h g e.clock)) 0 none (h.group_at g).instances
          (omega arith) (omega arith),
    ))

group_at-set_rr :
    (h : Heap) (g n : ℕ) → (set_rr h g n).group_at g ≡ record (h.group_at g) { rr = n }
group_at-set_rr h g n = ground arith

sight-set_rr : (h : Heap) (g n clock : ℕ) → sight (set_rr h g n) g none clock ≡ sight h g none clock
unfolding is_eligible eligibility_ctx outlier_enabled
sight-set_rr h g n clock = rw (group_at-set_rr h g n)

rotation-set_rr : (h : Heap) (g n clock : ℕ) → rotation (set_rr h g n) g clock ≡ rotation h g clock
rotation-set_rr h g n clock = rw (sight-set_rr h g n clock) (rw (group_at-set_rr h g n))

-- `k` picks in a row at one clock; the results, in order.
unfoldable pub picks : ℕ → Heap → Env → ℕ → Option HashInput → List (Option Pick)
picks zero h e g key = []
picks (suc k) h e g key = let (p, h') = pick h e g key in p ∷ picks k h' e g key

-- The rotation from a place in it: `k` instances, wrapping round.
unfoldable pub rotate : List ℕ → ℕ → ℕ → List (Option Pick)
rotate ps from zero = []
rotate ps from (suc k) = to_pick (get_elem? ps (from % length ps)) ∷ rotate ps (from + 1) k

-- A round-robin upstream of which something is eligible, and whose health does not change, serves its
-- eligible instances in turn, each as often as any other, with no skew where an instance is out of
-- rotation: pick j is the eligible instance number `rr + j`, modulo their number, as long as the
-- cursor does not pass 2^64.
pub picks-rotate :
    (k : ℕ) (h : Heap) (e : Env) (g : ℕ) (key : Option HashInput)
    → (h.group_at g).lb ≡ round_robin
    → Steady h e g none
    → 0 < length (rotation h g e.clock)
    → (h.group_at g).rr + k < u64_mod
    → picks k h e g key ≡ rotate (rotation h g e.clock) (h.group_at g).rr k
unfolding picks rotate
picks-rotate zero h e g key lb steady some_eligible room = refl
picks-rotate (suc k) h e g key lb steady some_eligible room =
    rw (pick-round_robin h e g key lb ∙ round_robin_once h e g steady some_eligible) (
      ap
        (λ rest.
          to_pick (get_elem? (rotation h g e.clock) (n % length (rotation h g e.clock))) ∷ rest)
        (picks-rotate k h' e g key lb' steady' some_eligible' room'
          ∙ ap₂ (λ ps from. rotate ps from k) (rotation-set_rr h g (increment n) e.clock) next))
  where
    n : ℕ
    n = (h.group_at g).rr

    h' : Heap
    h' = set_rr h g (increment n)

    lb' : (h'.group_at g).lb ≡ round_robin
    lb' = ap (λ (x : UpstreamGroup). x.lb) (group_at-set_rr h g (increment n)) ∙ lb

    steady' : Steady h' e g none
    steady' = steady ∙ sym (sight-set_rr h g (increment n) e.clock)

    some_eligible' : 0 < length (rotation h' g e.clock)
    some_eligible' = rw (rotation-set_rr h g (increment n) e.clock) some_eligible

    next : (h'.group_at g).rr ≡ n + 1
    next = ap (λ (x : UpstreamGroup). x.rr) (group_at-set_rr h g (increment n)) ∙ omega arith

    room' : (h'.group_at g).rr + k < u64_mod
    room' = rw next (omega arith)
