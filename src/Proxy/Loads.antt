-- ===== src/Proxy/Loads.antt =====
-- The loads of a heap, and what admission and a pick do to them.
use plecto.Prelude.{
  ℕ, suc, ◌<◌, ◌≡◌, ◌⊎◌, ◌∙◌, refl, ap, true, false, none, some, ◌==◌, arith, u64_mod, Bool-cases,
  inl, inr, ==_iff,
}
use plecto.Upstream.{Heap}
use plecto.Upstream.Breaker.{try_acquire, increment, decrement, over_cap, set_in_flight}
use plecto.Upstream.Lb.InFlight.{in_flight_of}
use plecto.Upstream.Lb.Load.{Countable}

-- Two heaps count the same requests in flight, for every group and every instance.
abbrev pub SameLoads : Heap → Heap → Type 0
SameLoads h h' =
    ((g : ℕ) → in_flight_of h' g ≡ in_flight_of h g)
    × ((p : ℕ) → (h'.instance_at p).in_flight ≡ (h.instance_at p).in_flight)

-- Every counter is that of fewer than 2^64 - 1 requests.
abbrev pub CountableLoads : Heap → Type 0
CountableLoads h = Countable h × ((g : ℕ) → suc (in_flight_of h g) < u64_mod)

pub back : (n : ℕ) → suc n < u64_mod → decrement (increment n) ≡ n
back n h = ground arith

set_in_flight-same :
    (h : Heap) (g n q : ℕ)
    → n ≡ in_flight_of h g
    → in_flight_of (set_in_flight h g n) q ≡ in_flight_of h q
set_in_flight-same h g n q e = elim (Bool-cases (g == q)) [
  | inl f ↦ rw (f, in_flight_of) (e ∙ ap (λ g. in_flight_of h g) ((==_iff g q).0 f))
  | inr f ↦ rw (f, in_flight_of) refl
]

pub SameLoads-trans : (h k l : Heap) → SameLoads h k → SameLoads k l → SameLoads h l
SameLoads-trans h k l (a, b) (c, d) = (λ g. c g ∙ a g, λ p. d p ∙ b p)

abbrev pub counted_up : Heap → ℕ → Heap
counted_up h g = set_in_flight h g (increment (in_flight_of h g))

-- Only the counter of group `g` is written.
pub restored :
    (h later : Heap) (g : ℕ)
    → CountableLoads h
    → SameLoads (counted_up h g) later
    → SameLoads h (set_in_flight later g (decrement (in_flight_of later g)))
restored h later g few (groups, loads) = (λ q. counter q (Bool-cases (g == q)), loads)
  where
    up : in_flight_of (counted_up h g) g ≡ increment (in_flight_of h g)
    up = rw ((==_iff g g).1 refl, in_flight_of) refl

    untouched : (q : ℕ) → (g == q) ≡ false → in_flight_of (counted_up h g) q ≡ in_flight_of h q
    untouched q e = rw (e, in_flight_of) refl

    counter :
        (q : ℕ)
        → ((g == q) ≡ true) ⊎ ((g == q) ≡ false)
        → in_flight_of (set_in_flight later g (decrement (in_flight_of later g))) q
          ≡ in_flight_of h q
    counter q (inl e) =
        rw (e, in_flight_of)
          (ap decrement (groups g ∙ up)
            ∙ (back (in_flight_of h g) (few.1 g) ∙ ap (λ g. in_flight_of h g) ((==_iff g q).0 e)))
    counter q (inr e) = rw (e, in_flight_of) (groups q ∙ untouched q e)

-- What `try_acquire` can return.
abbrev Unlimited : Heap → ℕ → Type 0
Unlimited h g = try_acquire h g ≡ (some (record { group = none }), h)

abbrev Refused : Heap → ℕ → Type 0
Refused h g =
    try_acquire h g
    ≡ (none, set_in_flight (counted_up h g) g (decrement (in_flight_of (counted_up h g) g)))

abbrev Taken : Heap → ℕ → Type 0
Taken h g = try_acquire h g ≡ (some (record { group = some g }), counted_up h g)

pub try_acquire-cases : (h : Heap) (g : ℕ) → Unlimited h g ⊎ Refused h g ⊎ Taken h g
unfolding try_acquire
try_acquire-cases h g =
    let group = h.group_at g in
    elim (Bool-cases (group.max_requests == 0)) [
      | inl e ↦ inl (rw e refl)
      | inr e ↦ elim (Bool-cases (over_cap group.max_requests group.in_flight)) [
        | inl f ↦ inr (inl (rw (e, f) refl))
        | inr f ↦ inr (inr (rw (e, f) refl))
      ]
    ]
