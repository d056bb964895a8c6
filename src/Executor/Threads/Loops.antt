-- ===== src/Executor/Threads/Loops.antt =====
-- The steps of the two loops (include/duatic_ethercat_interface/executor.hpp) keep the executor's order.
use duatic_ethercat_interfac.Prelude.{
  ℕ, ◌≡◌, refl, sym, subst, Bool, true, false, Option, none, some,
}
use duatic_ethercat_interfac.Prelude.Int.{ℤ}
use duatic_ethercat_interfac.Types.{Error, Result, ok, err}
use duatic_ethercat_interfac.PrecisionUpdateRate.{PrecisionUpdateRate}
use duatic_ethercat_interfac.Bus.Update.{update_rt, update_service}
use duatic_ethercat_interfac.Bus.{Bus}
use duatic_ethercat_interfac.Executor.{
  Executor, Worker, present, Position, entering, testing, updating, measuring, pausing, leaving,
  catching, flagging, finished, Platform,
}
use duatic_ethercat_interfac.Executor.Jthread.{after_update_rt, after_update_service}
use duatic_ethercat_interfac.Executor.Threads.{move_rt, move_service, paced}
use duatic_ethercat_interfac.Executor.Threads.Order.{
  Staffed, Stored, Flagged, Reports, IsOrderly, Staffed-rt, Staffed-service, same_errors, Kept,
}

module _ {W F : Type 0} where
  -- The real-time thread has moved, and with it what only it touches.
  moved_rt :
      (x : Executor W F) (b : Bus W F) (rate : PrecisionUpdateRate) (s : Bool) (p p' : Position)
      (w : Worker F)
      → x.rt.thread ≡ present s p
      → w.thread ≡ present s p'
      → Reports w
      → IsOrderly x
      → IsOrderly (record x { bus = b; update_rate = rate; rt = w })
  moved_rt x b rate s p p' w e e' reports o = record {
    staffed =
        subst (λ t. Staffed x.caller x.spinning t x.service.thread) (sym e')
          (Staffed-rt x.caller x.spinning s p p' x.service.thread
            (subst (λ t. Staffed x.caller x.spinning t x.service.thread) e o.staffed));
    rt_reports = reports;
    service_reports = o.service_reports;
  }

  moved_service :
      (x : Executor W F) (b : Bus W F) (s : Bool) (p p' : Position) (w : Worker F)
      → x.service.thread ≡ present s p
      → w.thread ≡ present s p'
      → Reports w
      → IsOrderly x
      → IsOrderly (record x { bus = b; service = w })
  moved_service x b s p p' w e e' reports o = record {
    staffed =
        subst (λ t. Staffed x.caller x.spinning x.rt.thread t) (sym e')
          (Staffed-service x.caller x.spinning s p p' x.rt.thread
            (subst (λ t. Staffed x.caller x.spinning x.rt.thread t) e o.staffed));
    rt_reports = o.rt_reports;
    service_reports = reports;
  }

module _ {W F : Type 0} (platform : Platform W F) where
  Stored-after_rt :
      (start : ℕ) (s : Bool) (r : Result (Option ℤ)) (error : Option Error)
      → Stored (present s (after_update_rt start r)) error
  Stored-after_rt start s (ok offset) error = tt
  Stored-after_rt start s (err e) error = tt

  Stored-after_service :
      (start : ℕ) (s : Bool) (r : Result Bool) (error : Option Error)
      → Stored (present s (after_update_service start r)) error
  Stored-after_service start s (ok true) error = tt
  Stored-after_service start s (ok false) error = tt
  Stored-after_service start s (err e) error = tt

  Flagged-any : (occurred : Bool) (e : Error) → Flagged occurred (some e)
  Flagged-any true e = refl
  Flagged-any false e = tt

  paced_lem :
      (s : Bool) (offset : Option ℤ) (x : Executor W F)
      (o : Option (Bool × PrecisionUpdateRate × W))
      → x.rt.thread ≡ present s (pausing offset)
      → IsOrderly x
      → Kept (paced platform s x o)
  paced_lem s offset x none e o = tt
  paced_lem s offset x (some (overrun, rate, w)) e o =
      moved_rt x _ rate s _ testing _ e refl (same_errors x.rt _ _ tt o.rt_reports) o

  pub move_rt-Kept :
      (fuel : ℕ) (s : Bool) (p : Position) (x : Executor W F)
      → x.rt.thread ≡ present s p
      → IsOrderly x
      → Kept (move_rt platform fuel s p x)
  unfolding move_rt
  move_rt-Kept fuel s entering x e o =
      moved_rt x _ _ s _ testing _ e refl (same_errors x.rt _ _ tt o.rt_reports) o
  move_rt-Kept fuel true testing x e o =
      moved_rt x _ _ true _ leaving _ e refl (same_errors x.rt _ _ tt o.rt_reports) o
  move_rt-Kept fuel false testing x e o =
      moved_rt x _ _ false _ (updating _) _ e refl (same_errors x.rt _ _ tt o.rt_reports) o
  move_rt-Kept fuel s (updating start) x e o =
      let r = (update_rt platform.env x.bus).0 in
      moved_rt x _ _ s _ (after_update_rt start r) _ e refl
        (same_errors x.rt _ _ (Stored-after_rt start s r x.rt.error_ptr) o.rt_reports) o
  move_rt-Kept fuel s (measuring start offset) x e o =
      moved_rt x _ _ s _ (pausing offset) _ e refl (same_errors x.rt _ _ tt o.rt_reports) o
  move_rt-Kept fuel s (pausing offset) x e o = paced_lem s offset x _ e o
  move_rt-Kept fuel s leaving x e o =
      moved_rt x _ _ s _ finished _ e refl (same_errors x.rt _ _ tt o.rt_reports) o
  move_rt-Kept fuel s (catching thrown) x e o =
      moved_rt x _ _ s _ flagging _ e refl
        (record { stored = refl; flagged = Flagged-any x.rt.error_occurred thrown }) o
  move_rt-Kept fuel s flagging x e o =
      moved_rt x _ _ s _ leaving _ e refl
        (record {
          stored = tt;
          flagged = subst (λ t. Stored t x.rt.error_ptr) e o.rt_reports.stored;
        })
        o
  move_rt-Kept fuel s finished x e o = tt

  pub move_service-Kept :
      (s : Bool) (p : Position) (x : Executor W F)
      → x.service.thread ≡ present s p
      → IsOrderly x
      → Kept (move_service platform s p x)
  unfolding move_service
  move_service-Kept s entering x e o =
      moved_service x _ s _ testing _ e refl (same_errors x.service _ _ tt o.service_reports) o
  move_service-Kept true testing x e o =
      moved_service x _ true _ leaving _ e refl (same_errors x.service _ _ tt o.service_reports) o
  move_service-Kept false testing x e o =
      moved_service x _ false _ (updating _) _ e refl
        (same_errors x.service _ _ tt o.service_reports) o
  move_service-Kept s (updating start) x e o =
      let r = (update_service platform.env x.bus).0 in
      moved_service x _ s _ (after_update_service start r) _ e refl
        (same_errors x.service _ _ (Stored-after_service start s r x.service.error_ptr)
          o.service_reports)
        o
  move_service-Kept s (measuring start offset) x e o =
      moved_service x _ s _ (pausing none) _ e refl (same_errors x.service _ _ tt o.service_reports)
        o
  move_service-Kept s (pausing offset) x e o =
      moved_service x _ s _ testing _ e refl (same_errors x.service _ _ tt o.service_reports) o
  move_service-Kept s leaving x e o =
      moved_service x _ s _ finished _ e refl (same_errors x.service _ _ tt o.service_reports) o
  move_service-Kept s (catching thrown) x e o =
      moved_service x _ s _ flagging _ e refl
        (record { stored = refl; flagged = Flagged-any x.service.error_occurred thrown }) o
  move_service-Kept s flagging x e o =
      moved_service x _ s _ leaving _ e refl
        (record {
          stored = tt;
          flagged = subst (λ t. Stored t x.service.error_ptr) e o.service_reports.stored;
        })
        o
  move_service-Kept s finished x e o = tt
