-- ===== src/Upstream/Lb/Load.antt =====
-- Least-request: the load that a pick adds and a drop takes away, and which of two is chosen.
use plecto.Prelude.{
  ℕ, suc, ◌+◌, ◌*◌, ◌≤◌, ◌<◌, ◌≡◌, refl, Bool, false, List, Option, none, some, arith, length,
  get_elem?, filter, u64_mod, Bool-cases, inl, inr, ◌⊎◌, ◌==◌, leb,
}
use plecto.Maglev.{MaglevTable}
use plecto.Upstream.{UpstreamInstance, Heap, LbState, round_robin, least_request, maglev}
use plecto.Upstream.Lb.{
  HashInput, Pick, Env, pick_dispatch, pick, drop_pick, lower_load, round_robin_pick,
  least_request_pick, maglev_pick, meter, choose, capture,
}
use plecto.Upstream.Lb.Scan.{capture-eq, get_elem?-some}
use plecto.Upstream.Lb.Serves.{sight, IsDraw}
use plecto.Upstream.Lb.Rotation.{rotation}

-- Every active-request count is that of fewer than 2^64 - 1 requests.
abbrev pub Countable : Heap → Type 0
Countable h = (q : ℕ) → suc (h.instance_at q).in_flight < u64_mod

meter-drop :
    (h : Heap) (o : Option ℕ) (p : Pick) (q : ℕ)
    → Countable h
    → (meter h o).0 ≡ some p
    → (drop_pick (meter h o).1 p).instance_at q ≡ h.instance_at q
unfolding meter drop_pick
meter-drop h none p q few e = cc
meter-drop h (some r) p q few e = ground (arith, few r)

least_request-drop :
    (h : Heap) (e : Env) (g : ℕ) (exclude : Option ℕ) (p : Pick) (q : ℕ)
    → Countable h
    → (least_request_pick h e.draw g exclude e.clock).0 ≡ some p
    → (drop_pick (least_request_pick h e.draw g exclude e.clock).1 p).instance_at q
      ≡ h.instance_at q
unfolding least_request_pick drop_pick
least_request-drop h e g exclude p q few f = grind (arith, meter-drop)

round_robin-drop :
    (h : Heap) (e : Env) (g : ℕ) (exclude : Option ℕ) (p : Pick) (q : ℕ)
    → (round_robin_pick h e.later g exclude e.clock).0 ≡ some p
    → (drop_pick (round_robin_pick h e.later g exclude e.clock).1 p).instance_at q ≡ h.instance_at q
unfolding round_robin_pick drop_pick
round_robin-drop h e g exclude p q f = ground arith

maglev-drop :
    (h : Heap) (e : Env) (g : ℕ) (t : MaglevTable) (exclude : Option ℕ) (key : Option HashInput)
    (p : Pick) (q : ℕ)
    → (maglev_pick h e.later g t exclude key e.clock).0 ≡ some p
    → (drop_pick (maglev_pick h e.later g t exclude key e.clock).1 p).instance_at q
      ≡ h.instance_at q
unfolding maglev_pick drop_pick
maglev-drop h e g t exclude key p q f = ground (arith, round_robin-drop h e g exclude p q)

-- Dropping a pick gives every instance back the state it had before the pick, for each of the three
-- algorithms: a load that was counted is taken away again, and nothing else changed. The counts are
-- those of fewer than 2^64 - 1 requests.
pub pick-drop :
    (h : Heap) (e : Env) (g : ℕ) (key : Option HashInput) (p : Pick) (q : ℕ)
    → Countable h
    → (pick h e g key).0 ≡ some p
    → (drop_pick (pick h e g key).1 p).instance_at q ≡ h.instance_at q
unfolding pick pick_dispatch
pick-drop h e g key p q few = by_state (h.group_at g).lb
  where
    -- What `pick_dispatch` does in a state of the balancer.
    dispatch : LbState → Option Pick × Heap
    dispatch l = elim l [
      | round_robin ↦ round_robin_pick h e.later g none e.clock
      | least_request ↦ least_request_pick h e.draw g none e.clock
      | maglev t ↦ maglev_pick h e.later g t none key e.clock
    ]

    by_state :
        (l : LbState)
        → (dispatch l).0 ≡ some p
        → (drop_pick (dispatch l).1 p).instance_at q ≡ h.instance_at q
    by_state round_robin f = round_robin-drop h e g none p q f
    by_state least_request f = least_request-drop h e g none p q few f
    by_state (maglev t) f = maglev-drop h e g t none key p q f

abbrev pub Lower : UpstreamInstance → UpstreamInstance → Type 0
Lower a b = (a.in_flight + 1) * b.weight ≤ (b.in_flight + 1) * a.weight

choose-Lower :
    (h : Heap) (x y : ℕ)
    → ((choose h (some x) (some y) ≡ some x) × Lower (h.instance_at x) (h.instance_at y))
      ⊎ ((choose h (some x) (some y) ≡ some y) × Lower (h.instance_at y) (h.instance_at x))
unfolding choose lower_load
choose-Lower h x y = ground arith

-- The pick is of one of two instances, and of the one with the lower load.
abbrev pub PicksLower : Heap → ℕ → ℕ → Option Pick → Type 0
PicksLower h x y none = ⊥
PicksLower h x y (some p) =
    ((p.instance_ptr ≡ x) × Lower (h.instance_at x) (h.instance_at y))
    ⊎ ((p.instance_ptr ≡ y) × Lower (h.instance_at y) (h.instance_at x))

PicksLower-swap : (h : Heap) (x y : ℕ) (o : Option Pick) → PicksLower h x y o → PicksLower h y x o
PicksLower-swap h x y none w = w
PicksLower-swap h x y (some p) (inl w) = inr w
PicksLower-swap h x y (some p) (inr w) = inl w

meter-PicksLower : (h : Heap) (x y : ℕ) → PicksLower h x y (meter h (choose h (some x) (some y))).0
unfolding meter
meter-PicksLower h x y = elim (choose-Lower h x y) [
  | inl (e, l) ↦ rw e (inl (refl, l))
  | inr (e, l) ↦ rw e (inr (refl, l))
]

meter-capture :
    (h : Heap) (eligible : ℕ → Bool) (lo hi x y : ℕ) (ps : List ℕ)
    → lo < length (filter eligible ps)
    → hi < length (filter eligible ps)
    → get_elem? (filter eligible ps) lo ≡ some x
    → get_elem? (filter eligible ps) hi ≡ some y
    → let c = capture eligible lo hi 0 none none ps in
      PicksLower h x y (meter h (choose h c.0 c.1)).0
meter-capture h eligible lo hi x y ps l u e f =
    rw (capture-eq eligible lo hi ps l u) (rw (e, f) (meter-PicksLower h x y))

pick-least_request :
    (h : Heap) (e : Env) (g : ℕ) (key : Option HashInput)
    → (h.group_at g).lb ≡ least_request
    → pick h e g key ≡ least_request_pick h e.draw g none e.clock
unfolding pick pick_dispatch
pick-least_request h e g key lr = λ i. elim (lr i) [
  | round_robin ↦ round_robin_pick h e.later g none e.clock
  | least_request ↦ least_request_pick h e.draw g none e.clock
  | maglev t ↦ maglev_pick h e.later g t none key e.clock
]

least_request_drawn :
    (h : Heap) (e : Env) (g x y : ℕ)
    → let n = length (rotation h g e.clock) in
      2 ≤ n
      → get_elem? (rotation h g e.clock) (e.draw n).0 ≡ some x
      → get_elem? (rotation h g e.clock) (e.draw n).1 ≡ some y
      → (e.draw n).0 < n
      → (e.draw n).1 < n
      → PicksLower h x y (least_request_pick h e.draw g none e.clock).0
unfolding least_request_pick
least_request_drawn h e g x y two f k l u = elim (Bool-cases (leb a b)) [
  | inl o ↦
      rw (zero_test, one_test, o)
        (meter-capture h (sight h g none e.clock) a b x y (h.group_at g).instances l u f k)
  | inr o ↦
      rw (zero_test, one_test, o)
        (PicksLower-swap h y x _
          (meter-capture h (sight h g none e.clock) b a y x (h.group_at g).instances u l k f))
]
  where
    n : ℕ
    n = length (rotation h g e.clock)

    a : ℕ
    a = (e.draw n).0

    b : ℕ
    b = (e.draw n).1

    zero_test : (n == 0) ≡ false
    zero_test = ground arith

    one_test : (n == 1) ≡ false
    one_test = ground arith

-- Of two or more eligible instances least-request picks one of the two whose ordinals are drawn, and
-- of these one whose `(in_flight + 1) / weight` is not above the other's.
pub least_request-lower :
    (h : Heap) (e : Env) (g : ℕ) (key : Option HashInput)
    → (h.group_at g).lb ≡ least_request
    → IsDraw e.draw
    → 2 ≤ length (rotation h g e.clock)
    → let candidates = rotation h g e.clock in
      (x : ℕ) × (y : ℕ) × (get_elem? candidates (e.draw (length candidates)).0 ≡ some x)
      × (get_elem? candidates (e.draw (length candidates)).1 ≡ some y)
      × PicksLower h x y (pick h e g key).0
least_request-lower h e g key lb fair two =
    let (l, u, _) = fair n two in
    let (x, f) = get_elem?-some (rotation h g e.clock) (e.draw n).0 l in
    let (y, k) = get_elem?-some (rotation h g e.clock) (e.draw n).1 u in
    (x, y, f, k, rw (pick-least_request h e g key lb) (picked x y f k l u))
  where
    n : ℕ
    n = length (rotation h g e.clock)

    picked :
        (x y : ℕ)
        → get_elem? (rotation h g e.clock) (e.draw n).0 ≡ some x
        → get_elem? (rotation h g e.clock) (e.draw n).1 ≡ some y
        → (e.draw n).0 < n
        → (e.draw n).1 < n
        → PicksLower h x y (least_request_pick h e.draw g none e.clock).0
    picked x y f k l u = least_request_drawn h e g x y two f k l u
