-- ===== src/Bus/StateMachine/Stuck.antt =====
-- What is left of a bus whose shutdown is cut short by a callback (`shutdown` of
-- src/internal/soem/soem_backend.cpp).
use duatic_ethercat_interfac.Prelude.{◌≡◌, refl, sym, ap, ◌∙◌, subst, Bool, List, [], ◌∷◌}
use duatic_ethercat_interfac.Types.{BusState, shutting_down, Error, err}
use duatic_ethercat_interfac.Bus.{Bus, Env, ◌>>=◌}
use duatic_ethercat_interfac.Bus.Keeps.Hooks.{Quiet, call_hooks-Keeps}
use duatic_ethercat_interfac.Bus.Lifecycle.{call_hooks, shutdown, shutdown_running}
use duatic_ethercat_interfac.Bus.StateMachine.Moves.{At}
use duatic_ethercat_interfac.Bus.Update.{all_in_operational}
use duatic_ethercat_interfac.Bus.StateMachine.Runs.{Call, run, perform}
use duatic_ethercat_interfac.Bus.StateMachine.Transitions.{
  Transition, stays, shutdown_stops, shutdown_ends, perform-moves,
}

module _ {W F : Type 0} (env : Env W F) where
  cut_short :
      (e : Error) (b b' : Bus W F)
      → At BusState.operational b.state
      → call_hooks env (λ h. h.on_pre_shutdown) (record b { state = shutting_down }) ≡ (err e, b')
      → shutdown env b ≡ (err e, b')
  unfolding shutdown shutdown_running ◌>>=◌
  cut_short e b b' operating thrown = rw (operating, thrown) refl

-- A stopping bus is left by no call.
stopping_stays :
    {c : Call} {all : Bool} {t : BusState} → Transition c all shutting_down t → t ≡ shutting_down
stopping_stays (stays n) = refl
stopping_stays (shutdown_stops r) = refl
stopping_stays (shutdown_ends n) = absurd (cc n)

module _ {W F : Type 0} (env : Env W F) (quiet : Quiet env) where
  run-stuck :
      (calls : List Call) (b : Bus W F)
      → b.state ≡ shutting_down
      → (run env calls b).state ≡ shutting_down
  unfolding run
  run-stuck [] b h = h
  run-stuck (c ∷ cs) b h =
      let b' = perform env c b in
      run-stuck cs b' (
        stopping_stays (
          subst (λ s. Transition c (all_in_operational env b'.devices b') s b'.state) h
            (perform-moves env quiet c b)))

  -- If a callback before the shutdown of an operational bus throws, and callbacks leave the state
  -- alone, then the shutdown ends there with the same exception, and whatever calls are made on the bus
  -- afterwards, shutdowns among them, it stays in the state that is shutting down.
  pub shutdown-stuck :
      (e : Error) (calls : List Call) (b b' : Bus W F)
      → At BusState.operational b.state
      → call_hooks env (λ h. h.on_pre_shutdown) (record b { state = shutting_down }) ≡ (err e, b')
      → (shutdown env b ≡ (err e, b')) × ((run env calls (shutdown env b).1).state ≡ shutting_down)
  shutdown-stuck e calls b b' operating thrown =
      let cut = cut_short env e b b' operating thrown in
      let here : b'.state ≡ shutting_down =
        sym (ap (λ p. p.1.state) thrown)
        ∙ (call_hooks-Keeps env quiet _).at (record b { state = shutting_down }) in
      (cut, run-stuck calls _ (ap (λ p. p.1.state) cut ∙ here))
