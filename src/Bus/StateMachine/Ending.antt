-- ===== src/Bus/StateMachine/Ending.antt =====
-- That a shutdown comes to an end (`shutdown` of src/internal/soem/soem_backend.cpp).
use duatic_ethercat_interfac.Prelude.{◌≡◌, ◌≢◌, refl, ap, ◌∙◌, true, arith}
use duatic_ethercat_interfac.Types.{
  BusState, pre_init, initialized, configured, activated, shutting_down, shut_down, Result, ok, err,
}
use duatic_ethercat_interfac.Bus.{Bus, Env, ◌>>=◌}
use duatic_ethercat_interfac.Bus.Keeps.{Ends}
use duatic_ethercat_interfac.Bus.Keeps.Hooks.{Quiet}
use duatic_ethercat_interfac.Bus.Returns.{is_ok, Calm, shutdown_running-Returns}
use duatic_ethercat_interfac.Bus.Lifecycle.{shutdown, shutdown_running}
use duatic_ethercat_interfac.Bus.StateMachine.Moves.{At, shutdown-Ensures}

ended :
    {A : Type 0} (Q E : BusState → Type 0) (r : Result A) (s : BusState)
    → is_ok r ≡ true
    → Ends Q E r s
    → Q s
ended Q E (ok a) s h q = q
ended Q E (err e) s h q = absurd (ground (arith, h))

module _ {W F : Type 0} (env : Env W F) (calm : Calm env) where
  shutdown-Returns :
      (s : BusState) (b : Bus W F)
      → At s b.state
      → s ≢ shutting_down
      → is_ok (shutdown env b).0 ≡ true
  unfolding shutdown ◌>>=◌
  shutdown-Returns pre_init b e h = ground (arith, e)
  shutdown-Returns initialized b e h = ground (arith, e)
  shutdown-Returns configured b e h =
      let same : shutdown env b ≡ shutdown_running env b = ground (arith, e) in
      ap (λ p. is_ok p.0) same ∙ (shutdown_running-Returns env calm).at b
  shutdown-Returns activated b e h =
      let same : shutdown env b ≡ shutdown_running env b = ground (arith, e) in
      ap (λ p. is_ok p.0) same ∙ (shutdown_running-Returns env calm).at b
  shutdown-Returns BusState.operational b e h =
      let same : shutdown env b ≡ shutdown_running env b = ground (arith, e) in
      ap (λ p. is_ok p.0) same ∙ (shutdown_running-Returns env calm).at b
  shutdown-Returns shutting_down b e h = absurd (h refl)
  shutdown-Returns shut_down b e h = ground (arith, e)

module _ {W F : Type 0} (env : Env W F) (quiet : Quiet env) (calm : Calm env) where
  -- If the registered callbacks neither throw nor change the state of the bus, then a shutdown from
  -- any state but the one that is shutting down returns, and leaves the bus shut down.
  pub shutdown-ends :
      (b : Bus W F)
      → b.state ≢ shutting_down
      → (is_ok (shutdown env b).0 ≡ true) × ((shutdown env b).1.state ≡ shut_down)
  shutdown-ends b h =
      let returns = shutdown-Returns env calm b.state b refl h in
      (
        returns,
        ended _ _ (shutdown env b).0 _ returns ((shutdown-Ensures env quiet b.state).at b refl),
      )
