-- ===== src/Pool/System.antt =====
-- The pool under any number of concurrent requests. Each section under the lock, and each thing the
-- runtime or the clock decides between two of them, is one step of one caller.
use plecto.Prelude.{ℕ, ◌≡◌, Bool, Option, none, some, List, get_elem?, set, if◌then◌else◌}
use plecto.Pool.{
  PooledInstance, PoolInner, Limits, Decision, use_, build, wait, unavailable, checkout_locked,
  release_slot, served_once, spent, return_idle, recycle, note_trap,
}

-- What `run_pooled` returns, the value and the logs of a call left out; the errors are RunError's.
pub data Outcome : Type 0 where
  ok failed_unavailable failed_instantiate failed_call : Outcome

-- Where a request stands. `holding` runs the guest's call; after the instance of a recycled or a
-- trapped call is dropped, its slot is still reserved until the next section.
pub data Phase (I : Type 0) : Type 0 where
  requesting : Phase I
  finished : Outcome → Phase I
  waiting : Phase I
  building : Phase I
  holding : PooledInstance I → Phase I
  recycling : Phase I
  trapped : Phase I

-- What a step takes from outside: the clock, whether the condition variable timed out, what
-- `instantiate_initialized` returned, and whether the guest's call returned or trapped.
pub record World (I : Type 0) : Type 0 where
  pub now : ℕ
  pub timed_out : Bool
  pub built : Option I
  pub returned : Bool

pub record System (I : Type 0) : Type 0 where
  pub inner : PoolInner I
  pub callers : List (Phase I)

module _ {I : Type 0} where
  abbrev pub after_checkout : Decision I × PoolInner I → PoolInner I × Phase I
  after_checkout (use_ p, g) = (g, holding p)
  after_checkout (build, g) = (g, building)
  after_checkout (wait, g) = (g, waiting)
  after_checkout (unavailable, g) = (g, finished failed_unavailable)

  abbrev pub after_build : Option I → PoolInner I → PoolInner I × Phase I
  after_build none g = (release_slot g, finished failed_instantiate)
  after_build (some i) g = (g, holding (record { instance_ = i; served = 0 }))

  abbrev pub check_in : Limits → PooledInstance I → PoolInner I → PoolInner I × Phase I
  check_in l p g = if spent l p then (g, recycling) else (return_idle p g, finished ok)

  -- A request that waited and did not time out goes round the loop of `checkout` again. A caller
  -- whose request has finished may send another.
  unfoldable pub access : Limits → World I → PoolInner I → Phase I → PoolInner I × Phase I
  access l w g requesting = after_checkout (checkout_locked l w.now g)
  access l w g (finished o) = (g, requesting)
  access l w g waiting = (g, if w.timed_out then finished failed_unavailable else requesting)
  access l w g building = after_build w.built g
  access l w g (holding p) =
      let returned = check_in l (served_once p) g in if w.returned then returned else (g, trapped)
  access l w g recycling = (recycle g, finished ok)
  access l w g trapped = (note_trap w.now g, finished failed_call)

  -- One caller moves, and nobody else.
  pub data Step (l : Limits) (s u : System I) : Type 0 where
    move :
        (i : ℕ) (w : World I) (p : Phase I)
        → get_elem? s.callers i ≡ some p
        → u ≡ (record {
          inner = (access l w s.inner p).0;
          callers = set s.callers i (access l w s.inner p).1;
        })
        → Step l s u

  pub data Reach (l : Limits) (s : System I) : System I → Type 0 where
    here : Reach l s s
    next : {t u : System I} → Reach l s t → Step l t u → Reach l s u
