-- ===== src/Executor/Threads/Awaited.antt =====
-- The turns that `stop` (include/duatic_ethercat_interface/executor.hpp) waits for.
use duatic_ethercat_interfac.Prelude.{
  ℕ, ◌<◌, ◌≡◌, refl, sym, subst, Bool, arith, ◌⊎◌, inl, inr, ◌≢◌,
}
use duatic_ethercat_interfac.Executor.{
  Executor, absent, present, Position, entering, testing, updating, measuring, pausing, leaving,
  catching, flagging, finished, Caller, idle, starting_service, stopping_rt, joining_rt,
  stopping_service, joining_service, ending, shutting, Platform,
}
use duatic_ethercat_interfac.Executor.Jthread.{joinable, join}
use duatic_ethercat_interfac.Executor.Threads.{
  stop, Turn, rt_turn, service_turn, caller_turn, joined_rt, joined_service, move_caller, rt_moves,
  service_moves, take_turn, or_stay,
}
use duatic_ethercat_interfac.Executor.Threads.Order.{Kept}
use duatic_ethercat_interfac.Bus.Keeps.Hooks.{Quiet}
use duatic_ethercat_interfac.Bus.Lifecycle.{shutdown}
use duatic_ethercat_interfac.Bus.StateMachine.Moves.{shutdown-Ensures}
use duatic_ethercat_interfac.Executor.Threads.Orderly.{take_turn-Kept}
use duatic_ethercat_interfac.Executor.Threads.Stopping.{
  steps_left, stop_steps, turn_of_joined, IsStopping, move_rt-RtFacts, move_service-ServiceFacts,
}
use duatic_ethercat_interfac.Executor.Threads.Joined.{
  Paces, Nearer, thread_steps-request_stop, steps_at, shut_lem, Staffed-at, chosen, rt-Nearer,
  service-Nearer, rt_goes_on, service_goes_on,
}

-- A thread has finished, or `join` waits for its turn.
pub finished_or_not :
    (p : Position)
    → (p ≡ finished)
      ⊎ ((0 < steps_left p) × ((t : Turn) (s : Bool) → turn_of_joined t (present s p) ≡ t))
finished_or_not finished = inl refl
finished_or_not entering = inr (omega arith, λ t s. refl)
finished_or_not testing = inr (omega arith, λ t s. refl)
finished_or_not (updating start) = inr (omega arith, λ t s. refl)
finished_or_not (measuring start offset) = inr (omega arith, λ t s. refl)
finished_or_not (pausing offset) = inr (omega arith, λ t s. refl)
finished_or_not leaving = inr (omega arith, λ t s. refl)
finished_or_not (catching e) = inr (omega arith, λ t s. refl)
finished_or_not flagging = inr (omega arith, λ t s. refl)

module _ {W F : Type 0} (platform : Platform W F) (quiet : Quiet platform.env) where
  -- The owner's own step, where it waits for no thread.
  pub moves-Nearer :
      (c : Caller) (x : Executor W F)
      → x.caller ≡ c
      → IsStopping x
      → 0 < stop_steps c absent absent
      → c ≢ joining_rt
      → c ≢ joining_service
      → Kept (move_caller platform stop c x)
      → Nearer x (or_stay platform x (move_caller platform stop c x))
  unfolding move_caller
  moves-Nearer (idle last) x c st h j k o = elim h [ ]
  moves-Nearer starting_service x c st h j k o = elim h [ ]
  moves-Nearer stopping_rt x c st h j k o =
      chosen (joinable x.rt.thread) x _ _ (Staffed-at x stopping_rt c st).1 o tt
        (omega (arith, steps_at x stopping_rt c, thread_steps-request_stop x.rt.thread))
  moves-Nearer joining_rt x c st h j k o = absurd (j refl)
  moves-Nearer stopping_service x c st h j k o =
      chosen (joinable x.service.thread) x _ _ (Staffed-at x stopping_service c st).2 o tt
        (omega (arith, steps_at x stopping_service c, thread_steps-request_stop x.service.thread))
  moves-Nearer joining_service x c st h j k o = absurd (k refl)
  moves-Nearer ending x c st h j k o = record {
    stopping = record { orderly = o; winding = tt };
    steps = omega (arith, steps_at x ending c);
  }
  moves-Nearer shutting x c st h j k o = record {
    stopping = record {
      orderly = o;
      winding = (
        (Staffed-at x shutting c st).0,
        shut_lem (shutdown platform.env x.bus).0 x.bus.state _
            ((shutdown-Ensures platform.env quiet x.bus.state).at x.bus refl),
      );
    };
    steps = omega (arith, steps_at x shutting c);
  }

  -- The owner's turn in a state of this kind.
  pub own_turn :
      (c : Caller) (x : Executor W F)
      → x.caller ≡ c
      → IsStopping x
      → (Kept (move_caller platform stop c x)
          → Nearer x (or_stay platform x (move_caller platform stop c x)))
      → Nearer x (or_stay platform x (take_turn platform (caller_turn stop) x))
  unfolding take_turn
  own_turn c x e st f =
      subst (λ d. Nearer x (or_stay platform x (move_caller platform stop d x))) (sym e)
        (f (
          subst (λ d. Kept (move_caller platform stop d x)) e
            (take_turn-Kept platform (caller_turn stop) x st.orderly)))

  pub joins_rt :
      (x : Executor W F) (s : Bool)
      → x.rt.thread ≡ present s finished
      → x.caller ≡ joining_rt
      → Kept (move_caller platform stop joining_rt x)
      → Nearer x (or_stay platform x (move_caller platform stop joining_rt x))
  unfolding move_caller
  joins_rt x s e c k =
      subst (λ t. Nearer x (or_stay platform x (joined_rt platform x (join t)))) (sym e)
        (record {
          stopping = record {
            orderly = subst (λ t. Kept (joined_rt platform x (join t))) e k;
            winding = tt;
          };
          steps = omega (arith, steps_at x joining_rt c);
        })

  pub joins_service :
      (x : Executor W F) (s : Bool)
      → x.service.thread ≡ present s finished
      → x.caller ≡ joining_service
      → Kept (move_caller platform stop joining_service x)
      → Nearer x (or_stay platform x (move_caller platform stop joining_service x))
  unfolding move_caller
  joins_service x s e c k =
      subst (λ t. Nearer x (or_stay platform x (joined_service platform x (join t)))) (sym e)
        (record {
          stopping = record {
            orderly = subst (λ t. Kept (joined_service platform x (join t))) e k;
            winding = tt;
          };
          steps = omega (arith, steps_at x joining_service c);
        })

module _ {W F : Type 0} (platform : Platform W F) (fuel : ℕ) (paces : Paces platform fuel) where
  pub rt_turn-Nearer :
      (x : Executor W F) (s : Bool) (p : Position)
      → x.rt.thread ≡ present s p
      → x.caller ≡ joining_rt
      → IsStopping x
      → 0 < steps_left p
      → Nearer x (or_stay platform x (take_turn platform (rt_turn fuel) x))
  unfolding take_turn rt_moves
  rt_turn-Nearer x s p e c st h =
      subst (λ t. Nearer x (or_stay platform x (rt_moves platform fuel t x))) (sym e)
        (rt-Nearer platform x s p _ e c st
          (subst (λ t. Kept (rt_moves platform fuel t x)) e
            (take_turn-Kept platform (rt_turn fuel) x st.orderly))
          (move_rt-RtFacts platform fuel s p x) (rt_goes_on platform fuel paces s p x h))

  pub service_turn-Nearer :
      (x : Executor W F) (s : Bool) (p : Position)
      → x.service.thread ≡ present s p
      → x.caller ≡ joining_service
      → IsStopping x
      → 0 < steps_left p
      → Nearer x (or_stay platform x (take_turn platform service_turn x))
  unfolding take_turn service_moves
  service_turn-Nearer x s p e c st h =
      subst (λ t. Nearer x (or_stay platform x (service_moves platform t x))) (sym e)
        (service-Nearer platform x s p _ e c st
          (subst (λ t. Kept (service_moves platform t x)) e
            (take_turn-Kept platform service_turn x st.orderly))
          (move_service-ServiceFacts platform s p x) (service_goes_on platform s p x h))
