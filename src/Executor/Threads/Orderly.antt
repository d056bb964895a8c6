-- ===== src/Executor/Threads/Orderly.antt =====
-- The order in which `SingleBusExecutor` (include/duatic_ethercat_interface/executor.hpp) starts, stops
-- and joins its threads, and the errors that it keeps.
use duatic_ethercat_interfac.Prelude.{ℕ, ◌≡◌, refl, Option, none, some, List, [], ◌∷◌}
use duatic_ethercat_interfac.PrecisionUpdateRate.{Timespec}
use duatic_ethercat_interfac.DcSync.{Double}
use duatic_ethercat_interfac.Bus.{Bus}
use duatic_ethercat_interfac.Executor.{
  Executor, ExecutorParameters, Thread, absent, present, Platform, make_executor,
}
use duatic_ethercat_interfac.Executor.Threads.{
  Turn, rt_turn, service_turn, caller_turn, rt_moves, service_moves, take_turn, run, or_stay,
}
use duatic_ethercat_interfac.Executor.Threads.Order.{IsOrderly, Kept}
use duatic_ethercat_interfac.Executor.Threads.Loops.{move_rt-Kept, move_service-Kept}
use duatic_ethercat_interfac.Executor.Threads.Calls.{move_caller-Kept}

module _ {W F : Type 0} (platform : Platform W F) where
  rt_moves-Kept :
      (fuel : ℕ) (t : Thread) (x : Executor W F)
      → x.rt.thread ≡ t
      → IsOrderly x
      → Kept (rt_moves platform fuel t x)
  unfolding rt_moves
  rt_moves-Kept fuel absent x e o = tt
  rt_moves-Kept fuel (present s p) x e o = move_rt-Kept platform fuel s p x e o

  service_moves-Kept :
      (t : Thread) (x : Executor W F)
      → x.service.thread ≡ t
      → IsOrderly x
      → Kept (service_moves platform t x)
  unfolding service_moves
  service_moves-Kept absent x e o = tt
  service_moves-Kept (present s p) x e o = move_service-Kept platform s p x e o

  pub take_turn-Kept : (t : Turn) (x : Executor W F) → IsOrderly x → Kept (take_turn platform t x)
  unfolding take_turn
  take_turn-Kept (rt_turn fuel) x o = rt_moves-Kept fuel x.rt.thread x refl o
  take_turn-Kept service_turn x o = service_moves-Kept x.service.thread x refl o
  take_turn-Kept (caller_turn request) x o =
      move_caller-Kept platform request x.caller x o.staffed o

  pub or_stay-IsOrderly :
      (x : Executor W F) (o : Option (Executor W F))
      → IsOrderly x
      → Kept o
      → IsOrderly (or_stay platform x o)
  or_stay-IsOrderly x none h k = h
  or_stay-IsOrderly x (some y) h k = k

  keeps_order :
      (turns : List Turn) (x : Executor W F) → IsOrderly x → IsOrderly (run platform turns x)
  unfolding run
  keeps_order [] x o = o
  keeps_order (t ∷ ts) x o = keeps_order ts _ (or_stay-IsOrderly x _ o (take_turn-Kept t x o))

  -- Whatever the owner of an executor calls, and however its threads are interleaved: both threads
  -- are there while `is_spinning` says so and none otherwise, up to the calls that start and stop
  -- them; a thread is joined only after a request to stop; the bus is shut down by `stop` only when
  -- there is no thread any more; and an error that is flagged has been stored.
  pub run-IsOrderly :
      (double : Double F) (params : ExecutorParameters) (now : Timespec) (bus : Bus W F)
      (turns : List Turn)
      → IsOrderly (run platform turns (make_executor double params now bus))
  run-IsOrderly double params now bus turns = keeps_order turns _ (record {
    staffed = (refl, refl);
    rt_reports = record { stored = tt; flagged = tt };
    service_reports = record { stored = tt; flagged = tt };
  })
