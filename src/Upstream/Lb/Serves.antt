-- ===== src/Upstream/Lb/Serves.antt =====
-- What each algorithm picks, from the two passes that it makes over a group.
use plecto.Prelude.{
  ℕ, ◌%◌, ◌≤◌, ◌<◌, ◌≡◌, ◌≢◌, refl, sym, ◌∙◌, Bool, true, false, List, Option, none, some, arith,
  length, get_elem?, filter, any, Bool-cases, Option-cases, inl, inr, ◌⊎◌, if◌then◌else◌, ◌==◌, leb,
  ==_iff,
}
use plecto.Maglev.{MaglevTable}
use plecto.Upstream.{Heap, LbState, round_robin, least_request, maglev}
use plecto.Upstream.Lb.{
  HashInput, Pick, Env, eligibility_ctx, is_eligible, rr_scan, capture, round_robin_pick,
  least_request_pick, maglev_pick, pick_dispatch, affinity, if_eligible, choose, meter,
}
use plecto.Upstream.Lb.Scan.{
  Among, rr_scan-eq, get_elem?-filter, get_elem?-some, find_first, any-filter, capture-eq,
  get_elem?-Among,
}

-- What the first pass of a pick sees of the group's instances.
abbrev pub sight : Heap → ℕ → Option ℕ → ℕ → ℕ → Bool
sight h g exclude clock = is_eligible h exclude (eligibility_ctx (h.group_at g) clock)

-- The second pass sees what the first saw.
abbrev pub Steady : Heap → Env → ℕ → Option ℕ → Type 0
Steady h e g exclude = e.later ≡ sight h g exclude e.clock

-- What `rng::two_distinct_below` returns.
abbrev pub IsDraw : (ℕ → ℕ × ℕ) → Type 0
IsDraw draw = (n : ℕ) → 2 ≤ n → ((draw n).0 < n) × ((draw n).1 < n) × ((draw n).0 ≢ (draw n).1)

-- The pick is of an eligible instance of the group.
abbrev pub Serves : Heap → ℕ → Option ℕ → ℕ → Option Pick → Type 0
Serves h g exclude clock none = any (sight h g exclude clock) (h.group_at g).instances ≡ false
Serves h g exclude clock (some p) =
    (sight h g exclude clock p.instance_ptr ≡ true) × Among p.instance_ptr (h.group_at g).instances

module _ (h : Heap) (g : ℕ) (exclude : Option ℕ) (clock : ℕ) where
  seen : ℕ → Bool
  seen = sight h g exclude clock

  ps : List ℕ
  ps = (h.group_at g).instances

  none-Serves : length (filter seen ps) ≡ 0 → Serves h g exclude clock none
  unfolding seen ps
  none-Serves e = ground (arith, any-filter (sight h g exclude clock) (h.group_at g).instances)

  -- The instance that the round-robin cursor points at.
  rr_scan-Serves :
      (k : ℕ)
      → k < length (filter seen ps)
      → (p : ℕ) × (rr_scan seen k 0 none ps ≡ some p)
        × (get_elem? (filter seen ps) k ≡ some p)
        × (seen p ≡ true)
        × Among p ps
  rr_scan-Serves k l =
      let (p, e) = get_elem?-some (filter seen ps) k l in
      let (s, a) = get_elem?-filter seen ps k p e in
      (p, rr_scan-eq seen k k 0 none ps (omega arith) l ∙ e, e, s, a)

round_robin-Serves :
    (h : Heap) (e : Env) (g : ℕ) (exclude : Option ℕ)
    → Steady h e g exclude
    → Serves h g exclude e.clock (round_robin_pick h e.later g exclude e.clock).0
unfolding round_robin_pick seen ps
round_robin-Serves h e g exclude steady = rw steady (elim (Bool-cases (n == 0)) [
  | inl z ↦ rw z (none-Serves h g exclude e.clock ((==_iff n 0).0 z))
  | inr z ↦
      let (p, f, _, s, a) =
        rr_scan-Serves h g exclude e.clock ((h.group_at g).rr % n) (ground arith) in
      rw (z, f) (s, a)
])
  where
    n : ℕ
    n = length (filter (sight h g exclude e.clock) (h.group_at g).instances)

meter-Serves :
    (h : Heap) (g : ℕ) (exclude : Option ℕ) (clock k : ℕ) (o : Option ℕ)
    → k < length (filter (sight h g exclude clock) (h.group_at g).instances)
    → o ≡ get_elem? (filter (sight h g exclude clock) (h.group_at g).instances) k
    → Serves h g exclude clock (meter h o).0
unfolding meter
meter-Serves h g exclude clock k o l f =
    let (p, e) = get_elem?-some (filter (sight h g exclude clock) (h.group_at g).instances) k l in
    rw (f ∙ e) (get_elem?-filter (sight h g exclude clock) (h.group_at g).instances k p e)

choose_either :
    (h : Heap) (x y : ℕ)
    → (choose h (some x) (some y) ≡ some x) ⊎ (choose h (some x) (some y) ≡ some y)
unfolding choose
choose_either h x y = ground arith

-- Of two ordinals in range the pass captures two instances, and one of them is chosen.
choose-capture :
    (h : Heap) (eligible : ℕ → Bool) (lo hi : ℕ) (ps : List ℕ)
    → lo < length (filter eligible ps)
    → hi < length (filter eligible ps)
    → let c = capture eligible lo hi 0 none none ps in
      (k : ℕ) × (k < length (filter eligible ps))
      × (choose h c.0 c.1 ≡ get_elem? (filter eligible ps) k)
choose-capture h eligible lo hi ps l u =
    let (x, e) = get_elem?-some (filter eligible ps) lo l in
    let (y, f) = get_elem?-some (filter eligible ps) hi u in
    rw (capture-eq eligible lo hi ps l u) (
      rw (e, f)
        (elim (choose_either h x y) [ inl c ↦ (lo, l, c ∙ sym e) | inr c ↦ (hi, u, c ∙ sym f) ]))

least_request-Serves :
    (h : Heap) (e : Env) (g : ℕ) (exclude : Option ℕ)
    → IsDraw e.draw
    → Serves h g exclude e.clock (least_request_pick h e.draw g exclude e.clock).0
unfolding least_request_pick seen ps
least_request-Serves h e g exclude fair = elim (Bool-cases (n == 0)) [
  | inl z ↦ rw z (none-Serves h g exclude e.clock ((==_iff n 0).0 z))
  | inr z ↦ elim (Bool-cases (n == 1)) [
    | inl o ↦
        rw (z, o)
          (meter-Serves h g exclude e.clock 0 _ (ground arith)
            (find_first (sight h g exclude e.clock) (h.group_at g).instances))
    | inr o ↦
        let (l, u, _) = fair n (ground arith) in
        let (k, b, f) =
          choose-capture h (sight h g exclude e.clock)
            (if leb (e.draw n).0 (e.draw n).1 then (e.draw n).0 else (e.draw n).1)
            (if leb (e.draw n).0 (e.draw n).1 then (e.draw n).1 else (e.draw n).0)
            (h.group_at g).instances (ground arith) (ground arith) in
        rw (z, o) (meter-Serves h g exclude e.clock k _ b f)
  ]
]
  where
    n : ℕ
    n = length (filter (sight h g exclude e.clock) (h.group_at g).instances)

affinity-Among :
    (t : MaglevTable) (qs : List ℕ) (key : Option HashInput) (p : ℕ)
    → affinity t qs key ≡ some p
    → Among p qs
unfolding affinity
affinity-Among t qs none p e = cc
affinity-Among t qs (some k) p e = grind (arith, get_elem?-Among)

if_eligible-some :
    (eligible : ℕ → Bool) (o : Option ℕ) (p : ℕ)
    → if_eligible eligible o ≡ some p
    → (eligible p ≡ true) × (o ≡ some p)
unfolding if_eligible
if_eligible-some eligible none p e = cc
if_eligible-some eligible (some q) p e = ground arith

maglev-Serves :
    (h : Heap) (e : Env) (g : ℕ) (t : MaglevTable) (exclude : Option ℕ) (key : Option HashInput)
    → Steady h e g exclude
    → Serves h g exclude e.clock (maglev_pick h e.later g t exclude key e.clock).0
unfolding maglev_pick
maglev-Serves h e g t exclude key steady =
    elim (Option-cases
      (if_eligible (sight h g exclude e.clock) (affinity t (h.group_at g).instances key))) [
        | inl f ↦ rw (f, maglev_pick) (round_robin-Serves h e g exclude steady)
        | inr (p, f) ↦
            let (s, a) =
              if_eligible-some (sight h g exclude e.clock) (affinity t (h.group_at g).instances key)
                p f in
            rw (f, maglev_pick) (s, affinity-Among t (h.group_at g).instances key p a)
      ]

-- Every algorithm serves an eligible instance of the group, and picks none only if none is eligible.
pub pick_dispatch-Serves :
    (h : Heap) (e : Env) (g : ℕ) (exclude : Option ℕ) (key : Option HashInput)
    → Steady h e g exclude
    → IsDraw e.draw
    → Serves h g exclude e.clock (pick_dispatch h e g exclude key).0
unfolding pick_dispatch
pick_dispatch-Serves h e g exclude key steady fair = by_state (h.group_at g).lb refl
  where
    by_state :
        (l : LbState)
        → (h.group_at g).lb ≡ l
        → Serves h g exclude e.clock (pick_dispatch h e g exclude key).0
    by_state round_robin f = rw (f, pick_dispatch) (round_robin-Serves h e g exclude steady)
    by_state least_request f = rw (f, pick_dispatch) (least_request-Serves h e g exclude fair)
    by_state (maglev t) f = rw (f, pick_dispatch) (maglev-Serves h e g t exclude key steady)
