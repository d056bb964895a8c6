-- ===== src/Executor.antt =====
-- The executor of one bus: `SingleBusExecutor` of include/duatic_ethercat_interface/executor.hpp, and
-- `ExecutorTimingDiagnostics` of include/duatic_ethercat_interface/bus_diagnostics.hpp.
-- Two threads run beside the one that calls `spin` and `stop`. Each runs in steps, at most one call on
-- the bus, the clock or a shared field to a step, and a history is any sequence of the threads' turns.
-- A call on the bus is one step. Log output is left out.
pub mod Jthread
pub mod Threads
use mathlib.Core.Option
use duatic_ethercat_interfac.Prelude.{ℕ, Bool, false, Option, none, some}
use duatic_ethercat_interfac.Prelude.Int.{ℤ, pos, ◌-ℤ◌, quot}
use duatic_ethercat_interfac.Types.{Error, Result, ok}
use duatic_ethercat_interfac.Diagnostics.{DiagnosticsSnapshot}
use duatic_ethercat_interfac.DcSync.{Double}
use duatic_ethercat_interfac.PrecisionUpdateRate.{PrecisionUpdateRate, Timespec, Clock, make_rate}
use duatic_ethercat_interfac.Realtime.{Scheduling}
use duatic_ethercat_interfac.Bus.{Bus, Env, Action, pure, ◌>>=◌}
use duatic_ethercat_interfac.Bus.Diagnosing.{diagnostics}

pub record ExecutorParameters : Type 0 where
  pub realtime_priority : ℤ
  pub desired_cpu_core : ℤ
  pub service_thread_update_rate : ℕ

-- Times in nanoseconds, durations in microseconds.
pub record ExecutorTimingDiagnostics (F : Type 0) : Type 0 where
  pub last_update_tp : ℕ
  pub last_update_rate : ℤ
  pub last_update_duration : ℤ
  pub average_update_rate : F
  pub average_update_duration : F
  pub accumulated_delay : Option ℤ
  pub missed_rate_steps : Option ℕ
  pub is_running : Bool

-- Where a thread stands in its loop, with the local variables that are live there.
pub data Position : Type 0 where
  entering : Position  -- start of the `try` block
  testing : Position  -- head of the `while`
  updating : (start : ℕ) → Position  -- before the update of the bus
  measuring : (start : ℕ) (offset : Option ℤ) → Position  -- before `update_timing_diagnostics`
  pausing : (offset : Option ℤ) → Position  -- before `update_rate_.step`, or in `cv.wait_for`
  leaving : Position  -- before `is_running = false`
  catching : Error → Position  -- start of the `catch` block
  flagging : Position  -- before the store of the flag of the error
  finished : Position

-- A `std::jthread`: with no thread, or with one that may have been requested to stop.
pub data Thread : Type 0 where
  absent : Thread
  present : (stop_requested : Bool) (position : Position) → Thread

-- What the executor keeps for one of its threads.
pub record Worker (F : Type 0) : Type 0 where
  pub thread : Thread
  pub error_ptr : Option Error
  pub error_occurred : Bool
  pub diagnostics : ExecutorTimingDiagnostics F

-- Where the thread that owns the executor stands; `idle` is between calls, with the result of the
-- last one. The positions from `stopping_rt` on are in `stop`.
pub data Caller : Type 0 where
  idle : (last : Result (Unit {0})) → Caller
  starting_service : Caller  -- in `spin`, with the first thread started
  stopping_rt joining_rt stopping_service joining_service : Caller
  ending : Caller  -- before `spinning_ = false`
  shutting : Caller  -- before `bus_->shutdown()`

pub record Executor (W F : Type 0) : Type 0 where
  pub params : ExecutorParameters
  pub bus : Bus W F
  pub update_rate : PrecisionUpdateRate
  pub spinning : Bool
  pub rt : Worker F
  pub service : Worker F
  pub caller : Caller

-- What the executor does not implement.
pub record Platform (W F : Type 0) : Type 0 where
  pub env : Env W F
  pub clock : Clock W
  pub os : Scheduling W

-- `ExecutionStatus`.
pub record ExecutionStatus (F : Type 0) : Type 0 where
  pub is_spinning : Bool
  pub rt_thread_stats : ExecutorTimingDiagnostics F
  pub service_thread_stats : ExecutorTimingDiagnostics F

module _ {F : Type 0} (double : Double F) where
  -- `ExecutorTimingDiagnostics{}`.
  abbrev pub no_timing : ExecutorTimingDiagnostics F
  no_timing = record {
    last_update_tp = 0;
    last_update_rate = pos 0;
    last_update_duration = pos 0;
    average_update_rate = double.zero_double;
    average_update_duration = double.zero_double;
    accumulated_delay = none;
    missed_rate_steps = none;
    is_running = false;
  }

  abbrev pub no_worker : Worker F
  no_worker = record {
    thread = absent;
    error_ptr = none;
    error_occurred = false;
    diagnostics = no_timing;
  }

  -- `duration_cast<duration<double>>` of microseconds.
  seconds : ℤ → F
  seconds us = double.div (double.of_int us) (double.of_int (pos 1000000))

  -- `0.5 * a + 0.5 * b`
  halves : F → F → F
  halves a b = double.add (double.mul double.half a) (double.mul double.half b)

  unfoldable pub update_timing_diagnostics :
      (start_tp after_update_tp : ℕ) → ExecutorTimingDiagnostics F → ExecutorTimingDiagnostics F
  unfolding seconds halves
  update_timing_diagnostics start_tp after_update_tp d =
      let rate = quot (pos start_tp -ℤ pos d.last_update_tp) 1000 in
      let duration = quot (pos after_update_tp -ℤ pos start_tp) 1000 in
      record d {
        last_update_rate = rate;
        average_update_rate =
            halves (double.div (double.of_int (pos 1)) (seconds rate)) d.average_update_rate;
        last_update_tp = start_tp;
        last_update_duration = duration;
        average_update_duration = halves (seconds duration) d.average_update_duration;
      }

module _ {W F : Type 0} where
  -- The constructor, at the time `now`.
  abbrev pub make_executor : Double F → ExecutorParameters → Timespec → Bus W F → Executor W F
  make_executor double params now bus = record {
    params = params;
    bus = bus;
    update_rate = make_rate (pos bus.params.dc_cycle_time) now;
    spinning = false;
    rt = no_worker double;
    service = no_worker double;
    caller = idle (ok tt);
  }

  abbrev pub is_spinning : Executor W F → Bool
  is_spinning x = x.spinning

  abbrev pub has_rt_error : Executor W F → Bool
  has_rt_error x = x.rt.error_occurred

  abbrev pub get_rt_error : Executor W F → Option Error
  get_rt_error x = x.rt.error_ptr

  abbrev pub has_service_error : Executor W F → Bool
  has_service_error x = x.service.error_occurred

  abbrev pub get_service_error : Executor W F → Option Error
  get_service_error x = x.service.error_ptr

  -- `full_diagnostics`: the snapshot of the bus, and the executor's share of it.
  unfoldable pub full_diagnostics :
      Env W F → Bool → Executor W F → Action W F (DiagnosticsSnapshot × ExecutionStatus F)
  full_diagnostics env force_update x = do
    snapshot ← diagnostics env force_update
    pure (
      snapshot,
      record {
        is_spinning = x.spinning;
        rt_thread_stats = x.rt.diagnostics;
        service_thread_stats = x.service.diagnostics;
      },
    )
