-- ===== src/Executor/Threads/Order.antt =====
-- What holds of an executor between any two steps of its threads
-- (include/duatic_ethercat_interface/executor.hpp).
use duatic_ethercat_interfac.Prelude.{◌≡◌, refl, Bool, true, false, Option, none, some, is_some}
use duatic_ethercat_interfac.Types.{Error}
use duatic_ethercat_interfac.Executor.{
  Executor, ExecutorTimingDiagnostics, Worker, Thread, absent, present, Position, flagging, Caller,
  idle, starting_service, stopping_rt, joining_rt, stopping_service, joining_service, ending,
  shutting,
}
use duatic_ethercat_interfac.Executor.Jthread.{joinable, request_stop}

abbrev pub stop_requested : Thread → Bool
stop_requested absent = false
stop_requested (present s p) = s

-- Which threads there are, by where the owner stands: between its calls both or none, as `spinning_`
-- says; a thread that is joined has been requested to stop; and from the end of the joins on,
-- when the bus is shut down, there is none.
abbrev pub Staffed : Caller → Bool → Thread → Thread → Type 0
Staffed (idle last) spinning rt service = (joinable rt ≡ spinning) × (joinable service ≡ spinning)
Staffed starting_service spinning rt service =
    (spinning ≡ true) × (joinable rt ≡ true) × (joinable service ≡ false)
Staffed stopping_rt spinning rt service =
    (spinning ≡ true) × (joinable rt ≡ true) × (joinable service ≡ true)
Staffed joining_rt spinning rt service =
    (spinning ≡ true) × (stop_requested rt ≡ true) × (joinable service ≡ true)
Staffed stopping_service spinning rt service =
    (spinning ≡ true) × (joinable rt ≡ false) × (joinable service ≡ true)
Staffed joining_service spinning rt service =
    (spinning ≡ true) × (joinable rt ≡ false) × (stop_requested service ≡ true)
Staffed ending spinning rt service =
    (spinning ≡ true) × (joinable rt ≡ false) × (joinable service ≡ false)
Staffed shutting spinning rt service =
    (spinning ≡ false) × (joinable rt ≡ false) × (joinable service ≡ false)

-- A thread that is about to raise the flag of its error has stored the error.
abbrev pub Stored : Thread → Option Error → Type 0
Stored (present s flagging) error = is_some error ≡ true
Stored _ error = Unit

-- A raised flag comes with an error.
abbrev pub Flagged : Bool → Option Error → Type 0
Flagged true error = is_some error ≡ true
Flagged false error = Unit

pub record Reports {F : Type 0} (w : Worker F) : Type 0 where
  pub stored : Stored w.thread w.error_ptr
  pub flagged : Flagged w.error_occurred w.error_ptr

pub record IsOrderly {W F : Type 0} (x : Executor W F) : Type 0 where
  pub staffed : Staffed x.caller x.spinning x.rt.thread x.service.thread
  pub rt_reports : Reports x.rt
  pub service_reports : Reports x.service

pub Staffed-rt :
    (c : Caller) (spinning s : Bool) (p p' : Position) (service : Thread)
    → Staffed c spinning (present s p) service
    → Staffed c spinning (present s p') service
Staffed-rt (idle last) spinning s p p' service h = h
Staffed-rt starting_service spinning s p p' service h = h
Staffed-rt stopping_rt spinning s p p' service h = h
Staffed-rt joining_rt spinning s p p' service h = h
Staffed-rt stopping_service spinning s p p' service h = h
Staffed-rt joining_service spinning s p p' service h = h
Staffed-rt ending spinning s p p' service h = h
Staffed-rt shutting spinning s p p' service h = h

pub Staffed-service :
    (c : Caller) (spinning s : Bool) (p p' : Position) (rt : Thread)
    → Staffed c spinning rt (present s p)
    → Staffed c spinning rt (present s p')
Staffed-service (idle last) spinning s p p' rt h = h
Staffed-service starting_service spinning s p p' rt h = h
Staffed-service stopping_rt spinning s p p' rt h = h
Staffed-service joining_rt spinning s p p' rt h = h
Staffed-service stopping_service spinning s p p' rt h = h
Staffed-service joining_service spinning s p p' rt h = h
Staffed-service ending spinning s p p' rt h = h
Staffed-service shutting spinning s p p' rt h = h

module _ {F : Type 0} where
  pub same_errors :
      (w : Worker F) (t : Thread) (d : ExecutorTimingDiagnostics F)
      → Stored t w.error_ptr
      → Reports w
      → Reports (record w { thread = t; diagnostics = d })
  same_errors w t d stored r = record { stored = stored; flagged = r.flagged }

pub requested : (t : Thread) → joinable t ≡ true → stop_requested (request_stop t) ≡ true
requested absent h = h
requested (present s p) h = refl

pub Stored-request_stop :
    (t : Thread) (error : Option Error) → Stored t error → Stored (request_stop t) error
Stored-request_stop absent error h = h
Stored-request_stop (present s flagging) error h = h
Stored-request_stop (present s _) error h = tt

abbrev pub Kept : {W F : Type 0} → Option (Executor W F) → Type 0
Kept none = Unit
Kept (some x) = IsOrderly x
