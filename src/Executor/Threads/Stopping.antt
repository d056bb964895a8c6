-- ===== src/Executor/Threads/Stopping.antt =====
-- That `stop` comes to an end (include/duatic_ethercat_interface/executor.hpp): how far the thread that
-- it waits for is from its end, and that nothing takes it further away.
use duatic_ethercat_interfac.Prelude.{
  ℕ, ◌+◌, ◌<◌, ◌≡◌, refl, Bool, true, false, Option, none, some, List, [], ◌∷◌, map, arith,
}
use duatic_ethercat_interfac.Prelude.Int.{ℤ}
use duatic_ethercat_interfac.Types.{BusState, shut_down, Result, ok, err}
use duatic_ethercat_interfac.Bus.Keeps.{Ends}
use duatic_ethercat_interfac.Bus.StateMachine.Moves.{At}
use duatic_ethercat_interfac.PrecisionUpdateRate.{PrecisionUpdateRate}
use duatic_ethercat_interfac.Bus.Update.{update_rt, update_service}
use duatic_ethercat_interfac.Executor.{
  Executor, Thread, absent, present, Position, entering, testing, updating, measuring, pausing,
  leaving, catching, flagging, finished, Caller, idle, starting_service, stopping_rt, joining_rt,
  stopping_service, joining_service, ending, shutting, Platform,
}
use duatic_ethercat_interfac.Executor.Jthread.{after_update_rt, after_update_service}
use duatic_ethercat_interfac.Executor.Threads.{
  stop, Turn, rt_turn, service_turn, caller_turn, paced, move_rt, move_service, take_turn, or_stay,
  run,
}
use duatic_ethercat_interfac.Executor.Threads.Order.{IsOrderly}

-- Steps to its end of a thread that has been requested to stop.
abbrev pub steps_left : Position → ℕ
steps_left finished = 0
steps_left leaving = 1
steps_left testing = 2
steps_left flagging = 2
steps_left entering = 3
steps_left (pausing offset) = 3
steps_left (catching e) = 3
steps_left (measuring start offset) = 4
steps_left (updating start) = 5

abbrev pub thread_steps : Thread → ℕ
thread_steps absent = 0
thread_steps (present s p) = steps_left p

-- Steps to the end of `stop`: of its own, and of the thread that it waits for.
abbrev pub stop_steps : Caller → Thread → Thread → ℕ
stop_steps (idle last) rt service = 0
stop_steps starting_service rt service = 0
stop_steps stopping_rt rt service = 16
stop_steps joining_rt rt service = 10 + thread_steps rt
stop_steps stopping_service rt service = 9
stop_steps joining_service rt service = 3 + thread_steps service
stop_steps ending rt service = 2
stop_steps shutting rt service = 1

abbrev pub steps_of : {W F : Type 0} → Executor W F → ℕ
steps_of x = stop_steps x.caller x.rt.thread x.service.thread

-- The turn that `stop` waits for: its own, or the one of the thread that it joins.
abbrev pub turn_of_joined : Turn → Thread → Turn
turn_of_joined t (present s finished) = caller_turn stop
turn_of_joined t _ = t

abbrev pub awaited : ℕ → Caller → Thread → Thread → Option Turn
awaited fuel (idle last) rt service = none
awaited fuel starting_service rt service = none
awaited fuel joining_rt rt service = some (turn_of_joined (rt_turn fuel) rt)
awaited fuel joining_service rt service = some (turn_of_joined service_turn service)
awaited fuel c rt service = some (caller_turn stop)

-- Outside of `stop` the owner only waits.
abbrev pub take_awaited : {W F : Type 0} → Platform W F → Option Turn → Executor W F → Executor W F
take_awaited platform none x = x
take_awaited platform (some t) x = or_stay platform x (take_turn platform t x)

-- Turns of the two loops.
pub data LoopTurn : Type 0 where
  rt_loop : (fuel : ℕ) → LoopTurn
  service_loop : LoopTurn

abbrev pub loop_turn : LoopTurn → Turn
loop_turn (rt_loop fuel) = rt_turn fuel
loop_turn service_loop = service_turn

-- Rounds of any turns of the loops, each with the turn that `stop` waits for at its end.
unfoldable pub rounds :
    {W F : Type 0} → Platform W F → ℕ → List (List LoopTurn) → Executor W F → Executor W F
rounds platform fuel [] x = x
rounds platform fuel (turns ∷ more) x =
    let y = run platform (map loop_turn turns) x in
    rounds platform fuel more
      (take_awaited platform (awaited fuel y.caller y.rt.thread y.service.thread) y)

-- The owner is in `stop`, or it has come to its end and the bus is shut down, unless that threw.
abbrev pub Winding : Caller → Bool → BusState → Type 0
Winding (idle last) spinning state = (spinning ≡ false) × Ends (At shut_down) (λ s. Unit) last state
Winding starting_service spinning state = ⊥
Winding _ spinning state = Unit

pub record IsStopping {W F : Type 0} (x : Executor W F) : Type 0 where
  pub orderly : IsOrderly x
  pub winding : Winding x.caller x.spinning x.bus.state

module _ {W F : Type 0} (platform : Platform W F) where
  -- What a step of the real-time thread from this position leaves alone, and that it gets nearer to
  -- its end if it has been requested to stop.
  abbrev pub RtFacts : Executor W F → Bool → Position → Option (Executor W F) → Type 0
  RtFacts x s p none = Unit
  RtFacts x s p (some y) =
      (y.caller ≡ x.caller)
      × (y.spinning ≡ x.spinning)
      × (y.service.thread ≡ x.service.thread)
      × (s ≡ true → thread_steps y.rt.thread < steps_left p)

  after_update_rt-nearer :
      (start : ℕ) (r : Result (Option ℤ)) → steps_left (after_update_rt start r) < 5
  after_update_rt-nearer start (ok offset) = omega arith
  after_update_rt-nearer start (err e) = omega arith

  after_update_service-nearer :
      (start : ℕ) (r : Result Bool) → steps_left (after_update_service start r) < 5
  after_update_service-nearer start (ok true) = omega arith
  after_update_service-nearer start (ok false) = omega arith
  after_update_service-nearer start (err e) = omega arith

  paced-RtFacts :
      (s : Bool) (offset : Option ℤ) (x : Executor W F)
      (o : Option (Bool × PrecisionUpdateRate × W))
      → RtFacts x s (pausing offset) (paced platform s x o)
  paced-RtFacts s offset x none = tt
  paced-RtFacts s offset x (some (overrun, rate, w)) = (refl, refl, refl, λ e. omega arith)

  pub move_rt-RtFacts :
      (fuel : ℕ) (s : Bool) (p : Position) (x : Executor W F)
      → RtFacts x s p (move_rt platform fuel s p x)
  unfolding move_rt
  move_rt-RtFacts fuel s entering x = (refl, refl, refl, λ e. omega arith)
  move_rt-RtFacts fuel true testing x = (refl, refl, refl, λ e. omega arith)
  move_rt-RtFacts fuel false testing x = (refl, refl, refl, λ e. absurd (cc e))
  move_rt-RtFacts fuel s (updating start) x =
      (refl, refl, refl, λ e. after_update_rt-nearer start (update_rt platform.env x.bus).0)
  move_rt-RtFacts fuel s (measuring start offset) x = (refl, refl, refl, λ e. omega arith)
  move_rt-RtFacts fuel s (pausing offset) x = paced-RtFacts s offset x _
  move_rt-RtFacts fuel s leaving x = (refl, refl, refl, λ e. omega arith)
  move_rt-RtFacts fuel s (catching thrown) x = (refl, refl, refl, λ e. omega arith)
  move_rt-RtFacts fuel s flagging x = (refl, refl, refl, λ e. omega arith)
  move_rt-RtFacts fuel s finished x = tt

  abbrev pub ServiceFacts : Executor W F → Bool → Position → Option (Executor W F) → Type 0
  ServiceFacts x s p none = Unit
  ServiceFacts x s p (some y) =
      (y.caller ≡ x.caller)
      × (y.spinning ≡ x.spinning)
      × (y.rt.thread ≡ x.rt.thread)
      × (s ≡ true → thread_steps y.service.thread < steps_left p)

  pub move_service-ServiceFacts :
      (s : Bool) (p : Position) (x : Executor W F)
      → ServiceFacts x s p (move_service platform s p x)
  unfolding move_service
  move_service-ServiceFacts s entering x = (refl, refl, refl, λ e. omega arith)
  move_service-ServiceFacts true testing x = (refl, refl, refl, λ e. omega arith)
  move_service-ServiceFacts false testing x = (refl, refl, refl, λ e. absurd (cc e))
  move_service-ServiceFacts s (updating start) x = (
    refl,
    refl,
    refl,
    λ e. after_update_service-nearer start (update_service platform.env x.bus).0,
  )
  move_service-ServiceFacts s (measuring start offset) x = (refl, refl, refl, λ e. omega arith)
  move_service-ServiceFacts s (pausing offset) x = (refl, refl, refl, λ e. omega arith)
  move_service-ServiceFacts s leaving x = (refl, refl, refl, λ e. omega arith)
  move_service-ServiceFacts s (catching thrown) x = (refl, refl, refl, λ e. omega arith)
  move_service-ServiceFacts s flagging x = (refl, refl, refl, λ e. omega arith)
  move_service-ServiceFacts s finished x = tt
