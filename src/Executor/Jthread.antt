-- ===== src/Executor/Jthread.antt =====
-- What the loops and `stop` of `SingleBusExecutor` (include/duatic_ethercat_interface/executor.hpp) do
-- to a `std::jthread` and to what the executor keeps for it.
use duatic_ethercat_interfac.Prelude.{ℕ, Bool, true, false, Option, none, some}
use duatic_ethercat_interfac.Prelude.Int.{ℤ, pos}
use duatic_ethercat_interfac.Types.{Error, Result, ok, err}
use duatic_ethercat_interfac.Executor.{
  Worker, Thread, absent, present, Position, measuring, leaving, catching, flagging, finished,
}

abbrev pub joinable : Thread → Bool
joinable absent = false
joinable (present s p) = true

-- `request_stop()`
abbrev pub request_stop : Thread → Thread
request_stop absent = absent
request_stop (present s p) = present true p

-- `join()`, which waits for the thread to finish.
abbrev pub join : Thread → Option Thread
join absent = none
join (present s finished) = some absent
join (present s p) = none

abbrev pub with_thread : {F : Type 0} → Thread → Worker F → Worker F
with_thread t w = record w { thread = t }

abbrev pub with_running : {F : Type 0} → Bool → Worker F → Worker F
with_running running w = record w { diagnostics = record w.diagnostics { is_running = running } }

-- The positions after the loop, which both threads have.
abbrev pub leave : {F : Type 0} → Bool → Worker F → Worker F
leave s w = with_thread (present s finished) (with_running false w)

abbrev pub catch : {F : Type 0} → Bool → Error → Worker F → Worker F
catch s e w = with_thread (present s flagging) (record w { error_ptr = some e })

abbrev pub flag : {F : Type 0} → Bool → Worker F → Worker F
flag s w = with_thread (present s leaving) (record w { error_occurred = true })

abbrev pub value_or_zero : Option ℤ → ℤ
value_or_zero none = pos 0
value_or_zero (some offset) = offset

-- Where an update leads: on to the measuring, or to the handler.
abbrev pub after_update_rt : ℕ → Result (Option ℤ) → Position
after_update_rt start (ok offset) = measuring start offset
after_update_rt start (err e) = catching e

-- The bus can indicate that the service thread is not needed any more.
abbrev pub after_update_service : ℕ → Result Bool → Position
after_update_service start (ok true) = measuring start none
after_update_service start (ok false) = leaving
after_update_service start (err e) = catching e
