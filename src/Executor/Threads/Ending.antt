-- ===== src/Executor/Threads/Ending.antt =====
-- That `stop` (include/duatic_ethercat_interface/executor.hpp) comes to an end.
use duatic_ethercat_interfac.Prelude.{
  ℕ, ◌-◌, ◌≤◌, ◌<◌, ◌≡◌, refl, sym, ap, subst, false, some, List, [], ◌∷◌, arith, ◌∙◌, inl, inr,
  length, ◌≢◌,
}
use duatic_ethercat_interfac.Types.{shut_down, Result}
use duatic_ethercat_interfac.Bus.Keeps.{Ends}
use duatic_ethercat_interfac.Bus.StateMachine.Moves.{At}
use duatic_ethercat_interfac.Executor.{
  Executor, Thread, absent, present, Caller, idle, starting_service, stopping_rt, joining_rt,
  stopping_service, joining_service, ending, shutting, Platform,
}
use duatic_ethercat_interfac.Executor.Jthread.{joinable}
use duatic_ethercat_interfac.Executor.Threads.{
  stop, rt_turn, service_turn, caller_turn, take_turn, or_stay,
}
use duatic_ethercat_interfac.Executor.Threads.Order.{IsOrderly, stop_requested}
use duatic_ethercat_interfac.Bus.Keeps.Hooks.{Quiet}
use duatic_ethercat_interfac.Executor.Threads.Stopping.{
  stop_steps, steps_of, turn_of_joined, awaited, take_awaited, LoopTurn, rounds, Winding,
  IsStopping,
}
use duatic_ethercat_interfac.Executor.Threads.Nearing.{run-Closer}
use native.Mathlib.Decide.{dec_lt}
use duatic_ethercat_interfac.Executor.Threads.Joined.{Paces, Nearer, steps_at, Staffed-at}
use duatic_ethercat_interfac.Executor.Threads.Awaited.{
  finished_or_not, moves-Nearer, own_turn, joins_rt, joins_service, rt_turn-Nearer,
  service_turn-Nearer,
}

module _ {W F : Type 0} (platform : Platform W F) (quiet : Quiet platform.env) (fuel : ℕ)
    (paces : Paces platform fuel) where
  awaits_rt :
      (x : Executor W F) (t : Thread)
      → x.rt.thread ≡ t
      → x.caller ≡ joining_rt
      → IsStopping x
      → Nearer x (take_awaited platform (some (turn_of_joined (rt_turn fuel) t)) x)
  awaits_rt x absent e c st =
      absurd (cc (sym (Staffed-at x joining_rt c st).1 ∙ ap stop_requested e))
  awaits_rt x (present s p) e c st = elim (finished_or_not p) [
    | inl done ↦ rw done (
        own_turn platform quiet joining_rt x c st
          (joins_rt platform quiet x s (e ∙ ap (present s) done) c))
    | inr (more, own) ↦
        rw (own (rt_turn fuel) s) (rt_turn-Nearer platform fuel paces x s p e c st more)
  ]

  awaits_service :
      (x : Executor W F) (t : Thread)
      → x.service.thread ≡ t
      → x.caller ≡ joining_service
      → IsStopping x
      → Nearer x (take_awaited platform (some (turn_of_joined service_turn t)) x)
  awaits_service x absent e c st =
      absurd (cc (sym (Staffed-at x joining_service c st).2 ∙ ap stop_requested e))
  awaits_service x (present s p) e c st = elim (finished_or_not p) [
    | inl done ↦ rw done (
        own_turn platform quiet joining_service x c st
          (joins_service platform quiet x s (e ∙ ap (present s) done) c))
    | inr (more, own) ↦
        rw (own service_turn s) (service_turn-Nearer platform fuel paces x s p e c st more)
  ]

  own :
      (c : Caller) (x : Executor W F)
      → x.caller ≡ c
      → IsStopping x
      → 0 < stop_steps c absent absent
      → c ≢ joining_rt
      → c ≢ joining_service
      → Nearer x (or_stay platform x (take_turn platform (caller_turn stop) x))
  own c x e st h j k = own_turn platform quiet c x e st (moves-Nearer platform quiet c x e st h j k)

  awaited-Nearer :
      (c : Caller) (x : Executor W F)
      → x.caller ≡ c
      → IsStopping x
      → 0 < steps_of x
      → Nearer x (take_awaited platform (awaited fuel c x.rt.thread x.service.thread) x)
  awaited-Nearer (idle last) x e st h = absurd (omega (arith, steps_at x (idle last) e))
  awaited-Nearer starting_service x e st h = absurd (omega (arith, steps_at x starting_service e))
  awaited-Nearer joining_rt x e st h = awaits_rt x x.rt.thread refl e st
  awaited-Nearer joining_service x e st h = awaits_service x x.service.thread refl e st
  awaited-Nearer stopping_rt x e st h = own stopping_rt x e st (omega arith) (cc) (cc)
  awaited-Nearer stopping_service x e st h = own stopping_service x e st (omega arith) (cc) (cc)
  awaited-Nearer ending x e st h = own ending x e st (omega arith) (cc) (cc)
  awaited-Nearer shutting x e st h = own shutting x e st (omega arith) (cc) (cc)

  -- A state at the end of `stop` stays as it is.
  rests :
      (c : Caller) (x : Executor W F)
      → x.caller ≡ c
      → IsStopping x
      → steps_of x ≡ 0
      → take_awaited platform (awaited fuel c x.rt.thread x.service.thread) x ≡ x
  rests (idle last) x e st h = refl
  rests starting_service x e st h = refl
  rests joining_rt x e st h = absurd (omega (arith, steps_at x joining_rt e))
  rests joining_service x e st h = absurd (omega (arith, steps_at x joining_service e))
  rests stopping_rt x e st h = absurd (omega (arith, steps_at x stopping_rt e))
  rests stopping_service x e st h = absurd (omega (arith, steps_at x stopping_service e))
  rests ending x e st h = absurd (omega (arith, steps_at x ending e))
  rests shutting x e st h = absurd (omega (arith, steps_at x shutting e))

  -- One round gets nearer to the end, or is there.
  record Round (x y : Executor W F) : Type 0 where
    stopping : IsStopping y
    steps : steps_of y ≤ steps_of x - 1

  round_lem :
      (x : Executor W F)
      → IsStopping x
      → Round x (take_awaited platform (awaited fuel x.caller x.rt.thread x.service.thread) x)
  round_lem x st = elim (dec_lt 0 (steps_of x)) [
    | yes more ↦
        let n = awaited-Nearer x.caller x refl st more in
        record { stopping = n.stopping; steps = omega (arith, n.steps) }
    | no none_left ↦
        let z : steps_of x ≡ 0 = omega (arith, none_left) in
        subst (Round x) (sym (rests x.caller x refl st z))
          (record { stopping = st; steps = omega (arith, z) })
  ]

  rounds_lem :
      (turns : List (List LoopTurn)) (x : Executor W F)
      → IsStopping x
      → IsStopping (rounds platform fuel turns x)
        × (steps_of (rounds platform fuel turns x) ≤ steps_of x - length turns)
  unfolding rounds
  rounds_lem [] x st = (st, omega arith)
  rounds_lem (ts ∷ more) x st =
      let first = run-Closer platform ts x st in
      let then_awaited = round_lem _ first.stopping in
      let rest = rounds_lem more _ then_awaited.stopping in
      (rest.0, omega (arith, first.steps, then_awaited.steps, rest.1))

-- What is left once `stop` has come to its end.
abbrev pub Stopped : {W F : Type 0} → Executor W F → Type 0
Stopped x =
    (last : Result (Unit {0})) × (x.caller ≡ idle last)
    × (x.spinning ≡ false)
    × (joinable x.rt.thread ≡ false)
    × (joinable x.service.thread ≡ false)
    × Ends (At shut_down) (λ s. Unit) last x.bus.state

module _ {W F : Type 0} where
  at_the_end :
      (c : Caller) (x : Executor W F) → x.caller ≡ c → IsStopping x → steps_of x ≡ 0 → Stopped x
  at_the_end (idle last) x e st z =
      let h = Staffed-at x (idle last) e st in
      let w : Winding (idle last) x.spinning x.bus.state =
        subst (λ d. Winding d x.spinning x.bus.state) e st.winding in
      (last, e, w.0, h.0 ∙ w.0, h.1 ∙ w.0, w.1)
  at_the_end starting_service x e st z =
      absurd (subst (λ d. Winding d x.spinning x.bus.state) e st.winding)
  at_the_end joining_rt x e st z = absurd (omega (arith, steps_at x joining_rt e))
  at_the_end joining_service x e st z = absurd (omega (arith, steps_at x joining_service e))
  at_the_end stopping_rt x e st z = absurd (omega (arith, steps_at x stopping_rt e))
  at_the_end stopping_service x e st z = absurd (omega (arith, steps_at x stopping_service e))
  at_the_end ending x e st z = absurd (omega (arith, steps_at x ending e))
  at_the_end shutting x e st z = absurd (omega (arith, steps_at x shutting e))

module _ {W F : Type 0} (platform : Platform W F) (quiet : Quiet platform.env) (fuel : ℕ)
    (paces : Paces platform fuel) where
  -- Once `stop` has been called on an executor that spins, wherever its two threads stand and
  -- whatever they throw, sixteen rounds bring it to its end, where a round is any number of turns of
  -- the two threads and then one turn of the thread that `stop` waits for. Then there is no thread,
  -- `is_spinning` is false, and if the shutdown of the bus returned then the bus is shut down. The
  -- busy waits have to end on the fuel, and the registered callbacks to leave the state of the bus
  -- alone.
  pub stop-ends :
      (x : Executor W F) (turns : List (List LoopTurn))
      → IsOrderly x
      → x.caller ≡ stopping_rt
      → 16 ≤ length turns
      → Stopped (rounds platform fuel turns x)
  stop-ends x turns o c enough =
      let st : IsStopping x = record {
        orderly = o;
        winding = subst (λ d. Winding d x.spinning x.bus.state) (sym c) tt;
      } in
      let r = rounds_lem platform quiet fuel paces turns x st in
      at_the_end _ _ refl (r.0) (omega (arith, r.1, steps_at x stopping_rt c))
