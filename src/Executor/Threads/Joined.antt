-- ===== src/Executor/Threads/Joined.antt =====
-- The turns of a thread that `stop` (include/duatic_ethercat_interface/executor.hpp) joins.
use duatic_ethercat_interfac.Prelude.{
  ℕ, ◌≤◌, ◌<◌, ◌≡◌, refl, sym, ap, subst, Bool, true, false, Option, none, some, arith, is_some,
  if◌then◌else◌, ◌∙◌,
}
use duatic_ethercat_interfac.Prelude.Int.{ℤ}
use duatic_ethercat_interfac.Types.{BusState, shut_down, Result, ok, err}
use duatic_ethercat_interfac.Bus.Keeps.{Ends}
use duatic_ethercat_interfac.Bus.StateMachine.Moves.{At}
use duatic_ethercat_interfac.PrecisionUpdateRate.{PrecisionUpdateRate, step}
use duatic_ethercat_interfac.Executor.{
  Executor, Thread, absent, present, Position, entering, testing, updating, measuring, pausing,
  leaving, catching, flagging, finished, Caller, joining_rt, joining_service, Platform,
}
use duatic_ethercat_interfac.Executor.Jthread.{request_stop, value_or_zero}
use duatic_ethercat_interfac.Executor.Threads.{paced, move_rt, move_service, or_stay}
use duatic_ethercat_interfac.Executor.Threads.Order.{IsOrderly, Staffed, stop_requested, Kept}
use duatic_ethercat_interfac.Bus.StateMachine.{Reach}
use duatic_ethercat_interfac.Executor.Threads.Stopping.{
  steps_left, thread_steps, stop_steps, steps_of, Winding, IsStopping, RtFacts, ServiceFacts,
}
use duatic_ethercat_interfac.Executor.Threads.Nearing.{rt-Closer, service-Closer}

-- Every pause of the real-time thread ends on this fuel.
pub record Paces {W F : Type 0} (platform : Platform W F) (fuel : ℕ) : Type 0 where
  pub pause_ends :
      (offset : ℤ) (rate : PrecisionUpdateRate) (w : W)
      → is_some (step platform.clock fuel offset rate w) ≡ true

-- A turn after which `stop` is nearer to its end.
pub record Nearer {W F : Type 0} (x y : Executor W F) : Type 0 where
  pub stopping : IsStopping y
  pub steps : steps_of y < steps_of x

pub steps_left-le : (p : Position) → steps_left p ≤ 5
steps_left-le finished = omega arith
steps_left-le leaving = omega arith
steps_left-le testing = omega arith
steps_left-le flagging = omega arith
steps_left-le entering = omega arith
steps_left-le (pausing offset) = omega arith
steps_left-le (catching e) = omega arith
steps_left-le (measuring start offset) = omega arith
steps_left-le (updating start) = omega arith

pub thread_steps-request_stop : (t : Thread) → thread_steps (request_stop t) ≤ 5
thread_steps-request_stop absent = omega arith
thread_steps-request_stop (present s p) = steps_left-le p

pub steps_at :
    {W F : Type 0} (x : Executor W F) (c : Caller)
    → x.caller ≡ c
    → steps_of x ≡ stop_steps c x.rt.thread x.service.thread
steps_at x c e = ap (λ d. stop_steps d x.rt.thread x.service.thread) e

pub shut_lem :
    (r : Result (Unit {0})) (s t : BusState)
    → Ends (At shut_down) (Reach s) r t
    → Ends (At shut_down) (λ u. Unit) r t
shut_lem (ok a) s t h = h
shut_lem (err e) s t h = tt

module _ {W F : Type 0} where
  pub Staffed-at :
      (x : Executor W F) (c : Caller)
      → x.caller ≡ c
      → IsStopping x
      → Staffed c x.spinning x.rt.thread x.service.thread
  Staffed-at x c e st =
      subst (λ d. Staffed d x.spinning x.rt.thread x.service.thread) e st.orderly.staffed

  -- The branch that is taken.
  pub chosen :
      (c : Bool) (x y z : Executor W F)
      → c ≡ true
      → IsOrderly (if c then y else z)
      → Winding y.caller y.spinning y.bus.state
      → steps_of y < steps_of x
      → Nearer x (if c then y else z)
  chosen true x y z e o w s = record { stopping = record { orderly = o; winding = w }; steps = s }
  chosen false x y z e o w s = absurd (cc e)

module _ {W F : Type 0} (platform : Platform W F) where
  -- The turn of a thread that `stop` joins.
  pub rt-Nearer :
      (x : Executor W F) (s : Bool) (p : Position) (o : Option (Executor W F))
      → x.rt.thread ≡ present s p
      → x.caller ≡ joining_rt
      → IsStopping x
      → Kept o
      → RtFacts platform x s p o
      → is_some o ≡ true
      → Nearer x (or_stay platform x o)
  rt-Nearer x s p none e c st k f h = absurd (cc h)
  rt-Nearer x s p (some y) e c st k f h =
      let requested : s ≡ true = ap stop_requested (sym e) ∙ (Staffed-at x joining_rt c st).1 in
      record {
        stopping = (rt-Closer platform x s p (some y) e st k f).stopping;
        steps = omega (
          arith,
          steps_at x joining_rt c,
          steps_at y joining_rt (f.0 ∙ c),
          f.3 requested,
          ap thread_steps e,
        );
      }

  pub service-Nearer :
      (x : Executor W F) (s : Bool) (p : Position) (o : Option (Executor W F))
      → x.service.thread ≡ present s p
      → x.caller ≡ joining_service
      → IsStopping x
      → Kept o
      → ServiceFacts platform x s p o
      → is_some o ≡ true
      → Nearer x (or_stay platform x o)
  service-Nearer x s p none e c st k f h = absurd (cc h)
  service-Nearer x s p (some y) e c st k f h =
      let requested : s ≡ true =
        ap stop_requested (sym e) ∙ (Staffed-at x joining_service c st).2 in
      record {
        stopping = (service-Closer platform x s p (some y) e st k f).stopping;
        steps = omega (
          arith,
          steps_at x joining_service c,
          steps_at y joining_service (f.0 ∙ c),
          f.3 requested,
          ap thread_steps e,
        );
      }

  paced_some :
      (s : Bool) (x : Executor W F) (o : Option (Bool × PrecisionUpdateRate × W))
      → is_some o ≡ true
      → is_some (paced platform s x o) ≡ true
  paced_some s x none h = cc h
  paced_some s x (some (overrun, rate, w)) h = refl

  pub rt_goes_on :
      (fuel : ℕ)
      → Paces platform fuel
      → (s : Bool) (p : Position) (x : Executor W F) → 0 < steps_left p
      → is_some (move_rt platform fuel s p x) ≡ true
  unfolding move_rt
  rt_goes_on fuel paces s entering x h = refl
  rt_goes_on fuel paces s testing x h = refl
  rt_goes_on fuel paces s (updating start) x h = refl
  rt_goes_on fuel paces s (measuring start offset) x h = refl
  rt_goes_on fuel paces s (pausing offset) x h =
      paced_some s x _ (paces.pause_ends (value_or_zero offset) x.update_rate x.bus.context.world)
  rt_goes_on fuel paces s leaving x h = refl
  rt_goes_on fuel paces s (catching e) x h = refl
  rt_goes_on fuel paces s flagging x h = refl
  rt_goes_on fuel paces s finished x h = elim h [ ]

  pub service_goes_on :
      (s : Bool) (p : Position) (x : Executor W F)
      → 0 < steps_left p
      → is_some (move_service platform s p x) ≡ true
  unfolding move_service
  service_goes_on s entering x h = refl
  service_goes_on s testing x h = refl
  service_goes_on s (updating start) x h = refl
  service_goes_on s (measuring start offset) x h = refl
  service_goes_on s (pausing offset) x h = refl
  service_goes_on s leaving x h = refl
  service_goes_on s (catching e) x h = refl
  service_goes_on s flagging x h = refl
  service_goes_on s finished x h = elim h [ ]
