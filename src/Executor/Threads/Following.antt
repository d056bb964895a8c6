-- ===== src/Executor/Threads/Following.antt =====
-- The bus under an executor (include/duatic_ethercat_interface/executor.hpp and
-- src/internal/soem/soem_backend.cpp): its state machine under interleaved threads.
use duatic_ethercat_interfac.Prelude.{
  ℕ, Bool, true, false, Option, none, some, ◌≡◌, refl, ◌⊎◌, inl, inr, Bool-cases, ◌&&◌,
  if◌then◌else◌,
}
use duatic_ethercat_interfac.PrecisionUpdateRate.{PrecisionUpdateRate}
use duatic_ethercat_interfac.Bus.{Bus}
use duatic_ethercat_interfac.Bus.Keeps.Hooks.{Quiet, update_rt-Keeps}
use duatic_ethercat_interfac.Bus.StateMachine.Runs.{
  Call, perform, call_update_service, call_shutdown,
}
use duatic_ethercat_interfac.Bus.StateMachine.Transitions.{Moves, moves_kept, perform-moves}
use duatic_ethercat_interfac.Executor.{
  Executor, Thread, absent, present, Position, entering, testing, updating, measuring, pausing,
  leaving, catching, flagging, finished, Caller, idle, starting_service, stopping_rt, joining_rt,
  stopping_service, joining_service, ending, shutting, Platform,
}
use duatic_ethercat_interfac.Executor.Jthread.{joinable}
use duatic_ethercat_interfac.Executor.Threads.{
  moves_state, Request, spin, stop, call, Turn, rt_turn, service_turn, caller_turn, paced, move_rt,
  move_service, begin, joined_rt, joined_service, move_caller, rt_moves, service_moves, take_turn,
}

module _ {W F : Type 0} (platform : Platform W F) where
  -- What a turn of each thread does to the state of the bus.
  abbrev pub Turned : Turn → Bus W F → Option (Executor W F) → Type 0
  Turned t b none = Unit
  Turned (rt_turn fuel) b (some x) = x.bus.state ≡ b.state
  Turned service_turn b (some x) = Moves platform.env call_update_service b x.bus
  Turned (caller_turn request) b (some x) =
      (x.bus.state ≡ b.state)
      ⊎ ((c : Call) × ((c ≡ call_shutdown) ⊎ (request ≡ call c)) × Moves platform.env c b x.bus)

  unmoved_service :
      (b b' : Bus W F) → b'.state ≡ b.state → Moves platform.env call_update_service b b'
  unmoved_service b b' e = moves_kept platform.env b b' refl e

  paced-Turned :
      (fuel : ℕ) (s : Bool) (x : Executor W F) (o : Option (Bool × PrecisionUpdateRate × W))
      → Turned (rt_turn fuel) x.bus (paced platform s x o)
  paced-Turned fuel s x none = tt
  paced-Turned fuel s x (some (overrun, rate, w)) = refl

  joined_rt-Turned :
      (r : Request) (x : Executor W F) (o : Option Thread)
      → Turned (caller_turn r) x.bus (joined_rt platform x o)
  joined_rt-Turned r x none = tt
  joined_rt-Turned r x (some t) = inl refl

  joined_service-Turned :
      (r : Request) (x : Executor W F) (o : Option Thread)
      → Turned (caller_turn r) x.bus (joined_service platform x o)
  joined_service-Turned r x none = tt
  joined_service-Turned r x (some t) = inl refl

  move_rt-Turned :
      (fuel : ℕ) (s : Bool) (p : Position) (x : Executor W F)
      → Turned (rt_turn fuel) x.bus (move_rt platform fuel s p x)
  unfolding move_rt
  move_rt-Turned fuel s entering x = refl
  move_rt-Turned fuel true testing x = refl
  move_rt-Turned fuel false testing x = refl
  move_rt-Turned fuel s (updating start) x = (update_rt-Keeps platform.env).at x.bus
  move_rt-Turned fuel s (measuring start offset) x = refl
  move_rt-Turned fuel s (pausing offset) x = paced-Turned fuel s x _
  move_rt-Turned fuel s leaving x = refl
  move_rt-Turned fuel s (catching e) x = refl
  move_rt-Turned fuel s flagging x = refl
  move_rt-Turned fuel s finished x = tt

module _ {W F : Type 0} (platform : Platform W F) where
  either_way :
      (b : Bus W F) (c : Bool) (r : Request) (x y : Executor W F)
      → x.bus.state ≡ b.state
      → y.bus.state ≡ b.state
      → Turned platform (caller_turn r) b (some (if c then x else y))
  either_way b true r x y h k = inl h
  either_way b false r x y h k = inl k

module _ {W F : Type 0} (platform : Platform W F) (quiet : Quiet platform.env) where
  move_service-Turned :
      (s : Bool) (p : Position) (x : Executor W F)
      → Turned platform service_turn x.bus (move_service platform s p x)
  unfolding move_service perform
  move_service-Turned s entering x = unmoved_service platform x.bus _ refl
  move_service-Turned true testing x = unmoved_service platform x.bus _ refl
  move_service-Turned false testing x = unmoved_service platform x.bus _ refl
  move_service-Turned s (updating start) x =
      perform-moves platform.env quiet call_update_service x.bus
  move_service-Turned s (measuring start offset) x = unmoved_service platform x.bus _ refl
  move_service-Turned s (pausing offset) x = unmoved_service platform x.bus _ refl
  move_service-Turned s leaving x = unmoved_service platform x.bus _ refl
  move_service-Turned s (catching e) x = unmoved_service platform x.bus _ refl
  move_service-Turned s flagging x = unmoved_service platform x.bus _ refl
  move_service-Turned s finished x = tt

  begun :
      (held : Bool) (c : Call) (x : Executor W F)
      → Turned platform
          (caller_turn (call c))
          x.bus
          (some (record x { bus = if held then x.bus else perform platform.env c x.bus }))
  begun true c x = inl refl
  begun false c x = inr (c, inr refl, perform-moves platform.env quiet c x.bus)

  begin-Turned :
      (request : Request) (x : Executor W F)
      → Turned platform (caller_turn request) x.bus (some (begin platform request x))
  unfolding begin
  begin-Turned spin x = elim (Bool-cases x.spinning) [
    | inl s ↦ rw s (inl refl)
    | inr n ↦ rw n (inl refl)
  ]
  begin-Turned stop x = inl refl
  begin-Turned (call c) x = begun (x.spinning && moves_state c) c x

  move_caller-Turned :
      (request : Request) (c : Caller) (x : Executor W F)
      → Turned platform (caller_turn request) x.bus (move_caller platform request c x)
  unfolding move_caller perform
  move_caller-Turned request (idle last) x = begin-Turned request x
  move_caller-Turned request starting_service x = inl refl
  move_caller-Turned request stopping_rt x =
      either_way platform x.bus (joinable x.rt.thread) request _ _ refl refl
  move_caller-Turned request joining_rt x = joined_rt-Turned platform request x _
  move_caller-Turned request stopping_service x =
      either_way platform x.bus (joinable x.service.thread) request _ _ refl refl
  move_caller-Turned request joining_service x = joined_service-Turned platform request x _
  move_caller-Turned request ending x = inl refl
  move_caller-Turned request shutting x =
      inr (call_shutdown, inl refl, perform-moves platform.env quiet call_shutdown x.bus)

  rt_moves-Turned :
      (fuel : ℕ) (t : Thread) (x : Executor W F)
      → Turned platform (rt_turn fuel) x.bus (rt_moves platform fuel t x)
  unfolding rt_moves
  rt_moves-Turned fuel absent x = tt
  rt_moves-Turned fuel (present s p) x = move_rt-Turned platform fuel s p x

  service_moves-Turned :
      (t : Thread) (x : Executor W F)
      → Turned platform service_turn x.bus (service_moves platform t x)
  unfolding service_moves
  service_moves-Turned absent x = tt
  service_moves-Turned (present s p) x = move_service-Turned s p x

  -- If the registered callbacks leave the state of the bus alone then, whatever they and the calls
  -- throw: a turn of the real-time thread leaves the state of the bus as it was; one of the service
  -- thread changes it only as a service update may, from activated to operational if all the devices
  -- are then operational, or to stopping or shut down; and one of the owner only as a shutdown or the
  -- call that it has requested may.
  pub take_turn-Turned :
      (t : Turn) (x : Executor W F) → Turned platform t x.bus (take_turn platform t x)
  unfolding take_turn
  take_turn-Turned (rt_turn fuel) x = rt_moves-Turned fuel x.rt.thread x
  take_turn-Turned service_turn x = service_moves-Turned x.service.thread x
  take_turn-Turned (caller_turn request) x = move_caller-Turned request x.caller x
