-- ===== src/Tests/StateMachine.antt =====
-- Runs of the state machine's theorems.
use duatic_ethercat_interfac.Prelude.{◌≡◌, refl, some, ltb, leb, ◌&&◌, arith, List, [], ◌∷◌, true}
use duatic_ethercat_interfac.Types.{
  BusState, initialized, configured, activated, shutting_down, shut_down, ok, err, foreign,
}
use duatic_ethercat_interfac.Prelude.Int.{ℤ, pos}
use duatic_ethercat_interfac.Soem.{EcError}
use duatic_ethercat_interfac.Device.{no_hooks}
use duatic_ethercat_interfac.Bus.{Bus, Env, has_device, for_each, ◌>>=◌}
use duatic_ethercat_interfac.Bus.Returns.{is_ok, Calm}
use duatic_ethercat_interfac.Bus.Lifecycle.Devices.{Finds, initialize_lem}
use duatic_ethercat_interfac.Bus.Owner.{destroy}
use duatic_ethercat_interfac.Bus.Owner.Dangling.{destroy-shutdown_dangling}
use duatic_ethercat_interfac.Bus.StateMachine.Ending.{shutdown-ends}
use duatic_ethercat_interfac.Bus.Keeps.Hooks.{Quiet}
use duatic_ethercat_interfac.Bus.Pdo.{call_hook}
use duatic_ethercat_interfac.Bus.StateMachine.Stuck.{shutdown-stuck}
use duatic_ethercat_interfac.Bus.Keeps.{Ensures}
use duatic_ethercat_interfac.Bus.Lifecycle.{initialize, shutdown, call_hooks}
use duatic_ethercat_interfac.Bus.Startup.{startup, activate}
use duatic_ethercat_interfac.Bus.Update.{bring_operational}
use duatic_ethercat_interfac.Bus.StateMachine.{Reach}
use duatic_ethercat_interfac.Bus.StateMachine.Moves.{
  At, startup-Ensures, activate-Ensures, shutdown-Ensures,
}
use duatic_ethercat_interfac.Bus.StateMachine.Service.{Halted, Brought, bring_operational-Brought}
use duatic_ethercat_interfac.Bus.StateMachine.Runs.{
  run, perform, call_update_service, call_shutdown, call_diagnostics,
}
use duatic_ethercat_interfac.Bus.StateMachine.Transitions.{Moves, perform-moves}
use duatic_ethercat_interfac.Bus.Startup.Sizes.{KeepsSizes, AllSized, Post, startup-AllSized}
use duatic_ethercat_interfac.Tests.World.{env, quiet, fresh_bus, bus_in, device}

-- A service update of an activated bus.
perform-moves_example :
    let b = bus_in activated [] in
    Moves env call_update_service b (perform env call_update_service b)
perform-moves_example = perform-moves env quiet call_update_service (bus_in activated [])

startup-Ensures_example : Ensures (At initialized) (At configured) (Reach initialized) (startup env)
startup-Ensures_example = startup-Ensures env quiet

activate-Ensures_example : Ensures (At configured) (At activated) (Reach configured) (activate env)
activate-Ensures_example = activate-Ensures env quiet

shutdown-Ensures_example :
    Ensures (At BusState.operational) (At shut_down) (Reach BusState.operational) (shutdown env)
shutdown-Ensures_example = shutdown-Ensures env quiet BusState.operational

bring_operational-Brought_example :
    Brought env (Halted activated) (bring_operational env (bus_in activated []))
bring_operational-Brought_example = bring_operational-Brought env quiet (bus_in activated []) refl

-- Every callback throws.
abbrev throwing : Env (List EcError) ℤ
throwing = record env { callback = λ f b. (err (foreign f), b) }

abbrev throwing_quiet : Quiet throwing
throwing_quiet = record { callback-state = λ f b. refl }

-- The devices have a callback before the shutdown.
abbrev hooked : Bus (List EcError) ℤ
hooked = record (bus_in BusState.operational []) {
  store = λ i. record (device i) { hooks = record no_hooks { on_pre_shutdown = some 5 } };
}

abbrev stopped : Bus (List EcError) ℤ
stopped = record hooked { state = shutting_down }

thrown : call_hooks throwing (λ h. h.on_pre_shutdown) stopped ≡ (err (foreign 5), stopped)
unfolding call_hooks call_hook for_each ◌>>=◌
thrown = refl

shutdown-stuck_example :
    (shutdown throwing hooked ≡ (err (foreign 5), stopped))
    × ((run throwing
          (call_shutdown ∷ call_diagnostics true ∷ [])
          (shutdown throwing hooked).1).state
        ≡ shutting_down)
shutdown-stuck_example =
    shutdown-stuck throwing throwing_quiet (foreign 5) (call_shutdown ∷ call_diagnostics true ∷ [])
      hooked stopped refl thrown

abbrev calm : Calm env
calm = record { callback-returns = λ f b. refl }

shutdown-ends_example :
    let b = bus_in BusState.operational [] in
    (is_ok (shutdown env b).0 ≡ true) × ((shutdown env b).1.state ≡ shut_down)
shutdown-ends_example =
    shutdown-ends env quiet calm (bus_in BusState.operational []) λ e. ground (arith, e)

abbrev finds : Finds env (fresh_bus []) 2
finds = record {
  opens = refl;
  returned = refl;
  left = refl;
  some_device = omega arith;
  ids_fit = omega arith;
}

initialize_lem_example :
    let b' = (initialize env (fresh_bus [])).1 in
    ((initialize env (fresh_bus [])).0 ≡ ok (pos 2))
    × (b'.state ≡ initialized)
    × (has_device 2 b' ≡ (ltb 0 2 && leb 2 2))
initialize_lem_example = initialize_lem env 2 2 (fresh_bus []) refl refl finds

destroy-shutdown_dangling_example :
    let b = bus_in initialized [] in ((destroy env (shutdown env b).1).1.store 1).has_bus ≡ true
destroy-shutdown_dangling_example = destroy-shutdown_dangling env 1 (bus_in initialized []) refl

keeps_sizes : KeepsSizes env
keeps_sizes = record { same_devices = λ f b. refl; sized_on = λ f id b h. h }

startup-AllSized_example : Post (λ b'. AllSized b'.devices b') (startup env (bus_in initialized []))
startup-AllSized_example = startup-AllSized env keeps_sizes (bus_in initialized [])
