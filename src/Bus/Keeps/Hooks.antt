-- ===== src/Bus/Keeps/Hooks.antt =====
-- Hooks of the devices, and the parts of `startup`, `activate`, `shutdown` and the service update
-- (src/internal/soem/soem_backend.cpp) that leave the state of the bus alone.
use duatic_ethercat_interfac.Prelude.{ℕ, ◌≡◌, Option, none, some, arith}
use duatic_ethercat_interfac.Device.{Hooks}
use duatic_ethercat_interfac.Bus.{Bus, Env, ◌>>=◌}
use duatic_ethercat_interfac.Bus.Keeps.{Keeps, keeps_rules, Keeps-pure}
use duatic_ethercat_interfac.Bus.Keeps.Calls.{
  time_now-Keeps, update_device_states-Keeps, update_diagnostics_fast-Keeps,
  update_diagnostics_slow-Keeps,
}
use duatic_ethercat_interfac.Bus.Keeps.Access.{
  scan_device-Keeps, update_write-Keeps, update_read-Keeps,
}
use duatic_ethercat_interfac.Bus.Pdo.{call_hook, on_pdo_configured}
use duatic_ethercat_interfac.Bus.Lifecycle.{call_hooks, add_device}
use duatic_ethercat_interfac.Bus.Startup.{notify_configured, sync_slave}
use duatic_ethercat_interfac.Bus.Update.{
  exchange_processdata, correct_rate, internal_pdo_update, update_rt, diagnose_service,
}

-- The callbacks that users register leave the state of the bus alone.
pub record Quiet {W F : Type 0} (env : Env W F) : Type 0 where
  pub callback-state : (f : ℕ) (b : Bus W F) → (env.callback f b).1.state ≡ b.state

module _ {W F : Type 0} (env : Env W F) where
  pub add_device-Keeps : (i : ℕ) → Keeps (add_device env i)
  unfolding add_device
  add_device-Keeps i = search (keeps_rules, scan_device-Keeps) depth 14

  pub sync_slave-Keeps : (i : ℕ) → Keeps (sync_slave env i)
  unfolding sync_slave
  sync_slave-Keeps i = search keeps_rules depth 14

  exchange_processdata-Keeps : Keeps (exchange_processdata env)
  unfolding exchange_processdata ◌>>=◌
  exchange_processdata-Keeps = record { at = λ b. ground arith }

  correct_rate-Keeps : Keeps (correct_rate env)
  unfolding correct_rate
  correct_rate-Keeps = record { at = λ b. ground arith }

  internal_pdo_update-Keeps : Keeps (internal_pdo_update env)
  unfolding internal_pdo_update
  internal_pdo_update-Keeps =
      search
        (
          keeps_rules, time_now-Keeps, update_write-Keeps, update_read-Keeps,
          exchange_processdata-Keeps, correct_rate-Keeps, update_diagnostics_fast-Keeps,
        )
        depth 24

  pub update_rt-Keeps : Keeps (update_rt env)
  unfolding update_rt
  update_rt-Keeps = search (keeps_rules, internal_pdo_update-Keeps) depth 14

  pub diagnose_service-Keeps : Keeps (diagnose_service env)
  unfolding diagnose_service
  diagnose_service-Keeps =
      search (keeps_rules, update_device_states-Keeps, update_diagnostics_slow-Keeps) depth 16

module _ {W F : Type 0} (env : Env W F) (quiet : Quiet env) where
  call_hook-Keeps : (hook : Option ℕ) → Keeps (call_hook env hook)
  unfolding call_hook
  call_hook-Keeps none = Keeps-pure tt
  call_hook-Keeps (some f) = record { at = quiet.callback-state f }

  pub call_hooks-Keeps : (hook : Hooks → Option ℕ) → Keeps (call_hooks env hook)
  unfolding call_hooks
  call_hooks-Keeps hook = search (keeps_rules, call_hook-Keeps) depth 14

  on_pdo_configured-Keeps : (id rx tx : ℕ) → Keeps (on_pdo_configured env id rx tx)
  unfolding on_pdo_configured
  on_pdo_configured-Keeps id rx tx = search (keeps_rules, time_now-Keeps, call_hook-Keeps) depth 16

  pub notify_configured-Keeps : (id : ℕ) → Keeps (notify_configured env id)
  unfolding notify_configured
  notify_configured-Keeps id = search (keeps_rules, on_pdo_configured-Keeps) depth 14
