-- ===== src/Executor/Threads.antt =====
-- The turns of the threads: the two loops of `SingleBusExecutor::spin`, and `spin` and `stop`
-- themselves (include/duatic_ethercat_interface/executor.hpp). A turn is refused, `none`, where the
-- thread waits for another, has ended, or is not there.
pub mod Order
pub mod Loops
pub mod Calls
pub mod Orderly
pub mod Following
pub mod Stopping
pub mod Nearing
pub mod Joined
pub mod Awaited
pub mod Ending
pub mod Failing
use duatic_ethercat_interfac.Prelude.{
  ℕ, Bool, true, false, Option, none, some, List, [], ◌∷◌, ◌&&◌, if◌then◌else◌,
}
use duatic_ethercat_interfac.Prelude.Int.{ℤ, pos}
use duatic_ethercat_interfac.Types.{Error, executor_error, literal, Result, ok, err}
use duatic_ethercat_interfac.PrecisionUpdateRate.{PrecisionUpdateRate, step}
use duatic_ethercat_interfac.Realtime.{set_realtime_priority}
use duatic_ethercat_interfac.Bus.{Bus}
use duatic_ethercat_interfac.Bus.Lifecycle.{shutdown}
use duatic_ethercat_interfac.Bus.Update.{update_rt, update_service}
use duatic_ethercat_interfac.Bus.StateMachine.Runs.{
  Call, perform, call_initialize, call_startup, call_activate, call_update_service, call_shutdown,
}
use duatic_ethercat_interfac.Executor.{
  Executor, Worker, Thread, absent, present, Position, entering, testing, updating, measuring,
  pausing, leaving, catching, flagging, finished, Caller, idle, starting_service, stopping_rt,
  joining_rt, stopping_service, joining_service, ending, shutting, Platform,
  update_timing_diagnostics,
}
use duatic_ethercat_interfac.Executor.Jthread.{
  joinable, request_stop, join, with_thread, with_running, leave, catch, flag, value_or_zero,
  after_update_rt, after_update_service,
}

-- What the thread that owns the executor calls, on the executor or on its bus.
pub data Request : Type 0 where
  spin stop : Request
  call : Call → Request

-- Whose turn it is. The turn of the real-time thread has fuel for the busy wait of one pause.
pub data Turn : Type 0 where
  rt_turn : (fuel : ℕ) → Turn
  service_turn : Turn
  caller_turn : Request → Turn

-- The calls that set the state of the bus.
unfoldable pub moves_state : Call → Bool
moves_state call_initialize = true
moves_state call_startup = true
moves_state call_activate = true
moves_state call_update_service = true
moves_state call_shutdown = true
moves_state c = false

module _ {W F : Type 0} (platform : Platform W F) where
  abbrev with_world : W → Bus W F → Bus W F
  with_world w b = record b { context = record b.context { world = w } }

  -- `HighPrecisionClock::now()`
  abbrev pub look : Bus W F → ℕ × Bus W F
  look b = let (t, w) = platform.env.soem.now b.context.world in (t, with_world w b)

  abbrev measure : ℕ → ℕ → Worker F → Worker F
  measure start after w = record w {
    diagnostics = update_timing_diagnostics platform.env.double start after w.diagnostics;
  }

  abbrev pub paced :
      Bool → Executor W F → Option (Bool × PrecisionUpdateRate × W) → Option (Executor W F)
  paced s x none = none
  paced s x (some (overrun, rate, w)) = some (record x {
    update_rate = rate;
    bus = with_world w x.bus;
    rt = with_thread (present s testing) x.rt;
  })

  -- One step of the real-time thread from this position.
  unfoldable pub move_rt : ℕ → Bool → Position → Executor W F → Option (Executor W F)
  move_rt fuel s entering x =
      let (done, w) =
        set_realtime_priority platform.os x.params.realtime_priority x.params.desired_cpu_core
          platform.os.sched_fifo x.bus.context.world in
      some (record x {
        bus = with_world w x.bus;
        rt = with_thread (present s testing) (with_running true x.rt);
      })
  move_rt fuel s testing x =
      let (start, b) = look x.bus in
      some (
        if s
        then record x { rt = with_thread (present s leaving) x.rt }
        else record x { bus = b; rt = with_thread (present s (updating start)) x.rt })
  move_rt fuel s (updating start) x =
      let (r, b) = update_rt platform.env x.bus in
      some (record x { bus = b; rt = with_thread (present s (after_update_rt start r)) x.rt })
  move_rt fuel s (measuring start offset) x =
      let (after, b) = look x.bus in
      let measured = measure start after x.rt in
      some (record x {
        bus = b;
        rt = with_thread (present s (pausing offset)) (record measured {
          diagnostics = record measured.diagnostics {
            missed_rate_steps = some x.update_rate.overrun_count;
            accumulated_delay = some x.update_rate.accumulated_delay_ns;
          };
        });
      })
  move_rt fuel s (pausing offset) x =
      paced s x (step platform.clock fuel (value_or_zero offset) x.update_rate x.bus.context.world)
  move_rt fuel s leaving x = some (record x { rt = leave s x.rt })
  move_rt fuel s (catching e) x = some (record x { rt = catch s e x.rt })
  move_rt fuel s flagging x = some (record x { rt = flag s x.rt })
  move_rt fuel s finished x = none

  -- One step of the service thread from this position. Its pause ends when the time is over or a
  -- stop is requested.
  unfoldable pub move_service : Bool → Position → Executor W F → Option (Executor W F)
  move_service s entering x =
      some (record x { service = with_thread (present s testing) (with_running true x.service) })
  move_service s testing x =
      let (start, b) = look x.bus in
      some (
        if s
        then record x { service = with_thread (present s leaving) x.service }
        else record x { bus = b; service = with_thread (present s (updating start)) x.service })
  move_service s (updating start) x =
      let (r, b) = update_service platform.env x.bus in
      some (record x {
        bus = b;
        service = with_thread (present s (after_update_service start r)) x.service;
      })
  move_service s (measuring start offset) x =
      let (after, b) = look x.bus in
      some (record x {
        bus = b;
        service = with_thread (present s (pausing none)) (measure start after x.service);
      })
  move_service s (pausing offset) x =
      some (record x { service = with_thread (present s testing) x.service })
  move_service s leaving x = some (record x { service = leave s x.service })
  move_service s (catching e) x = some (record x { service = catch s e x.service })
  move_service s flagging x = some (record x { service = flag s x.service })
  move_service s finished x = none

  -- A call that begins. The calls that set the state of the bus check it and set it later, without a
  -- lock, and all but `update_service` are documented as not thread safe
  -- (include/duatic_ethercat_interface/ethercat_bus.hpp): the owner makes them only while no thread
  -- spins the bus. While one does, a request for such a call does nothing.
  unfoldable pub begin : Request → Executor W F → Executor W F
  begin spin x =
      if x.spinning
      then record x { caller = idle (err (executor_error (literal "Executor already spinning"))) }
      else record x {
        spinning = true;
        rt = with_thread (present false entering) x.rt;
        caller = starting_service;
      }
  begin stop x = record x { caller = if x.spinning then stopping_rt else idle (ok tt) }
  begin (call c) x = record x {
    bus = if x.spinning && moves_state c then x.bus else perform platform.env c x.bus;
  }

  abbrev pub joined_rt : Executor W F → Option Thread → Option (Executor W F)
  joined_rt x none = none
  joined_rt x (some t) = some (record x { rt = with_thread t x.rt; caller = stopping_service })

  abbrev pub joined_service : Executor W F → Option Thread → Option (Executor W F)
  joined_service x none = none
  joined_service x (some t) = some (record x { service = with_thread t x.service; caller = ending })

  -- One step of the thread that owns the executor.
  unfoldable pub move_caller : Request → Caller → Executor W F → Option (Executor W F)
  unfolding begin
  move_caller request (idle last) x = some (begin request x)
  move_caller request starting_service x =
      some (record x {
        service = with_thread (present false entering) x.service;
        caller = idle (ok tt);
      })
  move_caller request stopping_rt x = some (
      if joinable x.rt.thread
      then record x { rt = with_thread (request_stop x.rt.thread) x.rt; caller = joining_rt }
      else record x { caller = stopping_service })
  move_caller request joining_rt x = joined_rt x (join x.rt.thread)
  move_caller request stopping_service x = some (
      if joinable x.service.thread
      then record x {
        service = with_thread (request_stop x.service.thread) x.service;
        caller = joining_service;
      }
      else record x { caller = ending })
  move_caller request joining_service x = joined_service x (join x.service.thread)
  move_caller request ending x = some (record x { spinning = false; caller = shutting })
  move_caller request shutting x =
      let (r, b) = shutdown platform.env x.bus in some (record x { bus = b; caller = idle r })

  unfoldable pub rt_moves : ℕ → Thread → Executor W F → Option (Executor W F)
  unfolding move_rt
  rt_moves fuel absent x = none
  rt_moves fuel (present s p) x = move_rt fuel s p x

  unfoldable pub service_moves : Thread → Executor W F → Option (Executor W F)
  unfolding move_service
  service_moves absent x = none
  service_moves (present s p) x = move_service s p x

  unfoldable pub take_turn : Turn → Executor W F → Option (Executor W F)
  unfolding rt_moves service_moves move_caller
  take_turn (rt_turn fuel) x = rt_moves fuel x.rt.thread x
  take_turn service_turn x = service_moves x.service.thread x
  take_turn (caller_turn request) x = move_caller request x.caller x

  -- A refused turn changes nothing.
  abbrev pub or_stay : Executor W F → Option (Executor W F) → Executor W F
  or_stay x none = x
  or_stay x (some y) = y

  unfoldable pub run : List Turn → Executor W F → Executor W F
  unfolding take_turn
  run [] x = x
  run (t ∷ ts) x = run ts (or_stay x (take_turn t x))
