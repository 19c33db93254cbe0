-- ===== src/Probes/Examples.antt =====
-- Turns of the supervisor over one group, whose instances 0, 1 and 2 have one address.
use plecto.Prelude.{
  zero, suc, sym, ◌∙◌, ap, subst, ◌⊎◌, inl, inr, All, length, arith, ◌++◌, ℕ, ◌≡◌, refl, List, [],
  ◌∷◌, none, some, Text, bytes,
}
use plecto.Upstream.{UpstreamGroup, Heap, round_robin}
use plecto.Upstream.Instance.{record_probe_failure}
use plecto.Upstream.Lb.Examples.{config, idle_instance, group_of, pool}
use plecto.Probes.{
  Key, key_of, Last, visit, visit_all, visit_groups, round, rsplit_once, probe_address, probe_once,
}
use plecto.Probes.Turn.{OneOf, WasDue, Named}
use plecto.Probes.History.{nothing, supervise, entries, HaveOwnKeys, IsProbed, supervise-probe}

abbrev groups : List UpstreamGroup
groups = group_of round_robin ∷ []

-- Every key was probed at 100.
abbrev at_100 : Last
at_100 key = some 100

-- Only the first instance of the address is probed: the others share its key.
first_only : (round pool groups 100 nothing).probes ≡ (0, config) ∷ []
unfolding round visit_groups visit_all visit
first_only = refl

-- They are not probed when the interval is over either.
first_again : (round pool groups 5100 at_100).probes ≡ (0, config) ∷ []
unfolding round visit_groups visit_all visit
first_again = refl

-- An instance that a reload made at a known address is not probed before the interval is over.
new_instance_waits : (round pool groups 5099 at_100).probes ≡ []
unfolding round visit_groups visit_all visit
new_instance_waits = refl

abbrev decimal : ℕ → Text
decimal port = bytes "9100"

port_swapped : probe_address decimal (bytes "10.0.0.1:80") (some 9100) ≡ bytes "10.0.0.1:9100"
unfolding probe_address rsplit_once
port_swapped = refl

no_port_unchanged : probe_address decimal (bytes "upstream") (some 9100) ≡ bytes "upstream"
unfolding probe_address rsplit_once
no_port_unchanged = refl

-- A redirect is a failure.
redirect_fails :
    probe_once decimal (λ uri timeout. some 302) config idle_instance
    ≡ record_probe_failure idle_instance
unfolding probe_once
redirect_fails = refl

-- A group of two instances, each with an address of its own.
abbrev pair : UpstreamGroup
pair = record (group_of round_robin) { instances = 0 ∷ 1 ∷ [] }

abbrev apart : Heap
apart = record pool {
  instance_at = λ p. elim p [
    | zero ↦ idle_instance
    | suc q ↦ record idle_instance { address = bytes "b:80" }
  ];
}

other_length : {P : Type 0} → key_of apart pair 0 ≡ key_of apart pair 1 → P
other_length k = let same : 11 ≡ 4 = ap (λ (x : Key). length x.1) k in absurd (omega (arith, same))

own_keys :
    (p p' : ℕ)
    → OneOf p (0 ∷ 1 ∷ [])
    → OneOf p' (0 ∷ 1 ∷ [])
    → key_of apart pair p ≡ key_of apart pair p'
    → p ≡ p'
own_keys p p' (inl e) (inl e') k = e ∙ sym e'
own_keys p p' (inl e) (inr (inl e')) k = other_length (rw (e, e') at k)
own_keys p p' (inr (inl e)) (inl e') k = other_length (sym (rw (e, e') at k))
own_keys p p' (inr (inl e)) (inr (inl e')) k = e ∙ sym e'
own_keys p p' (inl e) (inr (inr m)) k = absurd m
own_keys p p' (inr (inr m)) m' k = absurd m
own_keys p p' (inr (inl e)) (inr (inr m)) k = absurd m

apart-HaveOwnKeys : HaveOwnKeys apart (pair ∷ [])
apart-HaveOwnKeys g g' p p' (inl e) (inl e') m m' k =
    own_keys p p' (subst (λ x. OneOf p x.instances) e m) (subst (λ x. OneOf p' x.instances) e' m') (
      sym (ap (λ (x : UpstreamGroup). key_of apart x p) e)
      ∙ k
      ∙ ap (λ (x : UpstreamGroup). key_of apart x p') e')
apart-HaveOwnKeys g g' p p' (inr m) n i j k = absurd m
apart-HaveOwnKeys g g' p p' (inl e) (inr m) i j k = absurd m

supervise-probe_example :
    let r = supervise apart (pair ∷ []) nothing [] (100 ∷ 5100 ∷ []) in
    let s = round apart (pair ∷ []) 10100 r.0 in
    All (λ g. All (IsProbed 10100 s (r.1 ++ entries 10100 s.probes) g) g.instances) (pair ∷ [])
    × All (WasDue apart (pair ∷ []) 10100 r.0) s.probes
    × ((k : Key) → (s.last k ≡ none) ⊎ Named apart (pair ∷ []) k)
supervise-probe_example =
    supervise-probe apart (pair ∷ []) apart-HaveOwnKeys (100 ∷ 5100 ∷ []) 10100
