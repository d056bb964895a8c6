-- ===== src/Executor/Threads/Nearing.antt =====
-- That no turn of the two loops takes `stop` (include/duatic_ethercat_interface/executor.hpp) further
-- from its end.
use duatic_ethercat_interfac.Prelude.{
  ℕ, ◌≤◌, ◌<◌, ◌≡◌, refl, sym, subst, Bool, true, Option, none, some, List, [], ◌∷◌, map, arith,
  ◌∙◌, ◌⊎◌, inl, inr,
}
use duatic_ethercat_interfac.Types.{BusState}
use duatic_ethercat_interfac.Executor.{
  Executor, Thread, absent, present, Position, Caller, idle, starting_service, stopping_rt,
  joining_rt, stopping_service, joining_service, ending, shutting, Platform,
}
use duatic_ethercat_interfac.Executor.Jthread.{joinable}
use duatic_ethercat_interfac.Executor.Threads.{
  rt_turn, service_turn, rt_moves, service_moves, take_turn, or_stay, run,
}
use duatic_ethercat_interfac.Executor.Threads.Order.{Staffed, Kept}
use duatic_ethercat_interfac.Executor.Threads.Orderly.{take_turn-Kept}
use duatic_ethercat_interfac.Executor.Threads.Stopping.{
  steps_left, thread_steps, stop_steps, steps_of, LoopTurn, rt_loop, service_loop, loop_turn,
  Winding, IsStopping, RtFacts, move_rt-RtFacts, ServiceFacts, move_service-ServiceFacts,
}

stop_steps-rt :
    (c : Caller) (spinning s : Bool) (p : Position) (rt' service : Thread)
    → Staffed c spinning (present s p) service
    → (s ≡ true → thread_steps rt' < steps_left p)
    → stop_steps c rt' service ≤ stop_steps c (present s p) service
stop_steps-rt joining_rt spinning s p rt' service h nearer = omega (arith, nearer h.1)
stop_steps-rt (idle last) spinning s p rt' service h nearer = omega arith
stop_steps-rt starting_service spinning s p rt' service h nearer = omega arith
stop_steps-rt stopping_rt spinning s p rt' service h nearer = omega arith
stop_steps-rt stopping_service spinning s p rt' service h nearer = omega arith
stop_steps-rt joining_service spinning s p rt' service h nearer = omega arith
stop_steps-rt ending spinning s p rt' service h nearer = omega arith
stop_steps-rt shutting spinning s p rt' service h nearer = omega arith

stop_steps-service :
    (c : Caller) (spinning s : Bool) (p : Position) (rt service' : Thread)
    → Staffed c spinning rt (present s p)
    → (s ≡ true → thread_steps service' < steps_left p)
    → stop_steps c rt service' ≤ stop_steps c rt (present s p)
stop_steps-service joining_service spinning s p rt service' h nearer = omega (arith, nearer h.2)
stop_steps-service (idle last) spinning s p rt service' h nearer = omega arith
stop_steps-service starting_service spinning s p rt service' h nearer = omega arith
stop_steps-service stopping_rt spinning s p rt service' h nearer = omega arith
stop_steps-service joining_rt spinning s p rt service' h nearer = omega arith
stop_steps-service stopping_service spinning s p rt service' h nearer = omega arith
stop_steps-service ending spinning s p rt service' h nearer = omega arith
stop_steps-service shutting spinning s p rt service' h nearer = omega arith

-- While a thread is there, the owner has not come to the end of `stop`.
Winding-on :
    (c : Caller) (spinning : Bool) (rt service : Thread) (state state' : BusState)
    → (joinable rt ≡ true) ⊎ (joinable service ≡ true)
    → Staffed c spinning rt service
    → Winding c spinning state
    → Winding c spinning state'
Winding-on (idle last) spinning rt service state state' (inl there) h w =
    absurd (cc (sym there ∙ h.0 ∙ w.0))
Winding-on (idle last) spinning rt service state state' (inr there) h w =
    absurd (cc (sym there ∙ h.1 ∙ w.0))
Winding-on starting_service spinning rt service state state' there h w = w
Winding-on stopping_rt spinning rt service state state' there h w = tt
Winding-on joining_rt spinning rt service state state' there h w = tt
Winding-on stopping_service spinning rt service state state' there h w = tt
Winding-on joining_service spinning rt service state state' there h w = tt
Winding-on ending spinning rt service state state' there h w = tt
Winding-on shutting spinning rt service state state' there h w = tt

module _ {W F : Type 0} (platform : Platform W F) where
  -- A turn after which `stop` is no further from its end.
  pub record Closer (x y : Executor W F) : Type 0 where
    pub stopping : IsStopping y
    pub steps : steps_of y ≤ steps_of x

  pub rt-Closer :
      (x : Executor W F) (s : Bool) (p : Position) (o : Option (Executor W F))
      → x.rt.thread ≡ present s p
      → IsStopping x
      → Kept o
      → RtFacts platform x s p o
      → Closer x (or_stay platform x o)
  rt-Closer x s p none e st k f = record { stopping = st; steps = omega arith }
  rt-Closer x s p (some y) e st k f =
      let h : Staffed x.caller x.spinning (present s p) x.service.thread =
        subst (λ t. Staffed x.caller x.spinning t x.service.thread) e st.orderly.staffed in
      record {
        stopping = record {
          orderly = k;
          winding =
              rw (f.0, f.1)
                (Winding-on x.caller x.spinning (present s p) x.service.thread x.bus.state
                  y.bus.state (inl refl) h st.winding);
        };
        steps =
            rw (f.0, f.2, e)
              (stop_steps-rt x.caller x.spinning s p y.rt.thread x.service.thread h (f.3));
      }

  pub service-Closer :
      (x : Executor W F) (s : Bool) (p : Position) (o : Option (Executor W F))
      → x.service.thread ≡ present s p
      → IsStopping x
      → Kept o
      → ServiceFacts platform x s p o
      → Closer x (or_stay platform x o)
  service-Closer x s p none e st k f = record { stopping = st; steps = omega arith }
  service-Closer x s p (some y) e st k f =
      let h : Staffed x.caller x.spinning x.rt.thread (present s p) =
        subst (λ t. Staffed x.caller x.spinning x.rt.thread t) e st.orderly.staffed in
      record {
        stopping = record {
          orderly = k;
          winding =
              rw (f.0, f.1)
                (Winding-on x.caller x.spinning x.rt.thread (present s p) x.bus.state y.bus.state
                  (inr refl) h st.winding);
        };
        steps =
            rw (f.0, f.2, e)
              (stop_steps-service x.caller x.spinning s p x.rt.thread y.service.thread h (f.3));
      }

  rt_moves-Closer :
      (fuel : ℕ) (t : Thread) (x : Executor W F)
      → x.rt.thread ≡ t
      → IsStopping x
      → Kept (rt_moves platform fuel t x)
      → Closer x (or_stay platform x (rt_moves platform fuel t x))
  unfolding rt_moves
  rt_moves-Closer fuel absent x e st k = record { stopping = st; steps = omega arith }
  rt_moves-Closer fuel (present s p) x e st k =
      rt-Closer x s p _ e st k (move_rt-RtFacts platform fuel s p x)

  service_moves-Closer :
      (t : Thread) (x : Executor W F)
      → x.service.thread ≡ t
      → IsStopping x
      → Kept (service_moves platform t x)
      → Closer x (or_stay platform x (service_moves platform t x))
  unfolding service_moves
  service_moves-Closer absent x e st k = record { stopping = st; steps = omega arith }
  service_moves-Closer (present s p) x e st k =
      service-Closer x s p _ e st k (move_service-ServiceFacts platform s p x)

  loop_turn-Closer :
      (t : LoopTurn) (x : Executor W F)
      → IsStopping x
      → Closer x (or_stay platform x (take_turn platform (loop_turn t) x))
  unfolding take_turn
  loop_turn-Closer (rt_loop fuel) x st =
      rt_moves-Closer fuel x.rt.thread x refl st
        (take_turn-Kept platform (rt_turn fuel) x st.orderly)
  loop_turn-Closer service_loop x st =
      service_moves-Closer x.service.thread x refl st
        (take_turn-Kept platform service_turn x st.orderly)

  pub run-Closer :
      (turns : List LoopTurn) (x : Executor W F)
      → IsStopping x
      → Closer x (run platform (map loop_turn turns) x)
  unfolding run
  run-Closer [] x st = record { stopping = st; steps = omega arith }
  run-Closer (t ∷ ts) x st =
      let first = loop_turn-Closer t x st in
      let rest = run-Closer ts _ first.stopping in
      record { stopping = rest.stopping; steps = omega (arith, first.steps, rest.steps) }
