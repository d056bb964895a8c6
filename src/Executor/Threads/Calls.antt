-- ===== src/Executor/Threads/Calls.antt =====
-- The steps of `spin` and `stop` (include/duatic_ethercat_interface/executor.hpp) keep the executor's
-- order.
use duatic_ethercat_interfac.Prelude.{◌≡◌, refl, sym, Bool-cases, inl, inr, ◌∙◌}
use duatic_ethercat_interfac.Executor.{
  Executor, Thread, absent, present, finished, Caller, idle, starting_service, stopping_rt,
  joining_rt, stopping_service, joining_service, ending, shutting, Platform,
}
use duatic_ethercat_interfac.Executor.Jthread.{joinable, join}
use duatic_ethercat_interfac.Executor.Threads.{
  Request, spin, stop, call, move_caller, begin, joined_rt, joined_service,
}
use duatic_ethercat_interfac.Executor.Threads.Order.{
  Staffed, IsOrderly, same_errors, requested, Stored-request_stop, Kept,
}

module _ {W F : Type 0} (platform : Platform W F) where
  -- Only a thread that has finished is joined.
  joined_rt_lem :
      (x : Executor W F) (t : Thread)
      → Staffed joining_rt x.spinning t x.service.thread
      → IsOrderly x
      → Kept (joined_rt platform x (join t))
  joined_rt_lem x (present s finished) h o = record {
    staffed = (h.0, refl, h.2);
    rt_reports = same_errors x.rt _ _ tt o.rt_reports;
    service_reports = o.service_reports;
  }
  joined_rt_lem x absent h o = tt
  joined_rt_lem x (present s p) h o = tt

  joined_service_lem :
      (x : Executor W F) (t : Thread)
      → Staffed joining_service x.spinning x.rt.thread t
      → IsOrderly x
      → Kept (joined_service platform x (join t))
  joined_service_lem x (present s finished) h o = record {
    staffed = (h.0, h.1, refl);
    rt_reports = o.rt_reports;
    service_reports = same_errors x.service _ _ tt o.service_reports;
  }
  joined_service_lem x absent h o = tt
  joined_service_lem x (present s p) h o = tt

  begin-IsOrderly :
      (request : Request) (x : Executor W F)
      → (joinable x.rt.thread ≡ x.spinning) × (joinable x.service.thread ≡ x.spinning)
      → IsOrderly x
      → IsOrderly (begin platform request x)
  unfolding begin
  begin-IsOrderly spin x h o = elim (Bool-cases x.spinning) [
    | inl spinning ↦ rw spinning (record {
      staffed = (h.0 ∙ spinning, h.1 ∙ spinning);
      rt_reports = o.rt_reports;
      service_reports = o.service_reports;
    })
    | inr resting ↦ rw resting (record {
      staffed = (refl, refl, h.1 ∙ resting);
      rt_reports = same_errors x.rt _ _ tt o.rt_reports;
      service_reports = o.service_reports;
    })
  ]
  begin-IsOrderly stop x h o = elim (Bool-cases x.spinning) [
    | inl spinning ↦ rw spinning (record {
      staffed = (refl, h.0 ∙ spinning, h.1 ∙ spinning);
      rt_reports = o.rt_reports;
      service_reports = o.service_reports;
    })
    | inr resting ↦ rw resting (record {
      staffed = (h.0 ∙ resting, h.1 ∙ resting);
      rt_reports = o.rt_reports;
      service_reports = o.service_reports;
    })
  ]
  begin-IsOrderly (call request) x h o = record {
    staffed = o.staffed;
    rt_reports = o.rt_reports;
    service_reports = o.service_reports;
  }

  pub move_caller-Kept :
      (request : Request) (c : Caller) (x : Executor W F)
      → Staffed c x.spinning x.rt.thread x.service.thread
      → IsOrderly x
      → Kept (move_caller platform request c x)
  unfolding move_caller
  move_caller-Kept request (idle last) x h o = begin-IsOrderly request x h o
  move_caller-Kept request starting_service x h o = record {
    staffed = (h.1 ∙ sym h.0, sym h.0);
    rt_reports = o.rt_reports;
    service_reports = same_errors x.service _ _ tt o.service_reports;
  }
  move_caller-Kept request stopping_rt x h o = rw (h.1) (record {
    staffed = (h.0, requested x.rt.thread h.1, h.2);
    rt_reports =
        same_errors x.rt _ _ (Stored-request_stop x.rt.thread _ o.rt_reports.stored) o.rt_reports;
    service_reports = o.service_reports;
  })
  move_caller-Kept request joining_rt x h o = joined_rt_lem x x.rt.thread h o
  move_caller-Kept request stopping_service x h o = rw (h.2) (record {
    staffed = (h.0, h.1, requested x.service.thread h.2);
    rt_reports = o.rt_reports;
    service_reports =
        same_errors x.service _ _ (Stored-request_stop x.service.thread _ o.service_reports.stored)
          o.service_reports;
  })
  move_caller-Kept request joining_service x h o = joined_service_lem x x.service.thread h o
  move_caller-Kept request ending x h o = record {
    staffed = (refl, h.1, h.2);
    rt_reports = o.rt_reports;
    service_reports = o.service_reports;
  }
  move_caller-Kept request shutting x h o = record {
    staffed = (h.1 ∙ sym h.0, h.2 ∙ sym h.0);
    rt_reports = o.rt_reports;
    service_reports = o.service_reports;
  }
