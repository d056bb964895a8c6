-- ===== src/Bus/Update.antt =====
-- The cyclic part: `update_rt`, `internal_pdo_update`, `update_service` and
-- `internal_service_update` of src/internal/soem/soem_backend.cpp. Log output is left out.
use duatic_ethercat_interfac.Prelude.{
  ℕ, ◌+◌, ◌*◌, ◌%◌, Bool, true, not, ◌&&◌, ◌||◌, Option, none, some, List, [], ◌∷◌, ltb, ◌==◌,
  if◌then◌else◌,
}
use duatic_ethercat_interfac.Prelude.Int.{ℤ, pos}
use duatic_ethercat_interfac.Types.{
  pre_init, activated, shutting_down, shut_down, BusState, Backend, literal, ok,
}
use duatic_ethercat_interfac.Diagnostics.{is_diagnostics_enabled}
use duatic_ethercat_interfac.DcSync.{update_dc_sync}
use duatic_ethercat_interfac.Bus.{
  Bus, Env, Action, pure, throw_if, gets, modify, on_context, set_state, when, for_each, ◌>>=◌,
  ◌>>◌, soem_error, is_in,
}
use duatic_ethercat_interfac.Bus.MailboxAccess.{drain_all_mailbox_events}
use duatic_ethercat_interfac.Bus.DeviceStates.{set_device_target_state, update_device_states}
use duatic_ethercat_interfac.Bus.Diagnosing.{
  time_now, try_lock, update_diagnostics_fast, update_diagnostics_slow,
}
use duatic_ethercat_interfac.Bus.Pdo.{update_write, update_read}
use duatic_ethercat_interfac.Bus.Lifecycle.{abort}

module _ {W F : Type 0} (env : Env W F) where
  -- One exchange of process data; the result is the working counter.
  unfoldable pub exchange_processdata : Action W F ℤ
  exchange_processdata = do
    b ← gets λ b. b
    on_context (env.soem.ecx_send_processdata b.io_map)
    λ b.
        let (wkc, io_map, c) = env.soem.ecx_receive_processdata b.io_map b.context in
        (ok wkc, record b { io_map = io_map; context = c })

  -- The correction of the update rate, if distributed clocks are used.
  unfoldable pub correct_rate : Action W F (Option ℤ)
  correct_rate b =
      if b.params.dc_enabled && (b.context.slavelist 0).hasdc
      then (let (offset, dc_sync) = update_dc_sync env.double b.dc_sync b.context.dc_time in
          (ok (some offset), record b { dc_sync = dc_sync }))
      else (ok none, b)

  unfoldable pub internal_pdo_update : Action W F (Option ℤ)
  unfolding exchange_processdata correct_rate
  internal_pdo_update = do
    tp ← time_now env
    devices ← gets λ b. b.devices
    for_each devices (update_write tp)
    wkc ← exchange_processdata
    expected_wkc ← gets λ b. pos (b.context.outputs_wkc * 2 + b.context.inputs_wkc)
    correction ← correct_rate
    for_each devices (update_read tp)
    enabled ← gets λ b. is_diagnostics_enabled b.params.diagnostics.pdo_diagnostics
    when enabled (update_diagnostics_fast env wkc expected_wkc)
    pure correction

  unfoldable pub update_rt : Action W F (Option ℤ)
  update_rt = do
    running ← gets λ b. is_in activated b || is_in BusState.operational b
    throw_if (not running)
        (soem_error "The bus object can only be spun in 'Activated' or 'Operational' state")
    internal_pdo_update

  -- `activation_start_tp_`, set at the first round.
  unfoldable pub activation_start : Action W F ℕ
  activation_start = do
    start ← gets λ b. b.activation_start_tp
    elim start [
      | some t ↦ pure t
      | none ↦ (do t ← time_now env; modify λ b. record b { activation_start_tp = some t }; pure t)
    ]

  -- Gives up once the devices have had their time; a timeout of 0 waits for ever.
  unfoldable pub check_transition_timeout : Action W F (Unit {0})
  unfolding activation_start
  check_transition_timeout = do
    start ← activation_start
    timeout ← gets λ b. b.params.timeout_transition_operational
    when (ltb 0 timeout) (do
      t ← time_now env
      when (ltb (start + timeout) t) (
          abort env
            (literal
              "Could not bring all devices into state 'Operational' within the given timeframe")
            Backend.soem))

  unfoldable pub all_in_operational : List ℕ → Bus W F → Bool
  all_in_operational [] b = true
  all_in_operational (id ∷ ids) b =
      (b.context.slavelist id).state % 16 == env.soem.ec_state.operational
      && all_in_operational ids b

  unfoldable pub request_operational : ℕ → Action W F (Unit {0})
  request_operational id = do set_device_target_state env id env.soem.ec_state.operational; pure tt

  -- `update_service` while the bus is activated.
  unfoldable pub bring_operational : Action W F Bool
  unfolding check_transition_timeout
  bring_operational = do
    check_transition_timeout
    devices ← gets λ b. b.devices
    for_each devices request_operational
    update_device_states env
    reached ← gets (all_in_operational devices)
    when reached (set_state BusState.operational)
    pure true

  -- `update_service` in any other state.
  unfoldable pub diagnose_service : Action W F Bool
  diagnose_service = do
    options ← gets λ b. b.params.diagnostics
    when (is_diagnostics_enabled options.esc_diagnostics) (do
      update_device_states env
      when (is_diagnostics_enabled options.esc_port_diagnostics) (update_diagnostics_slow env))
    pure (
        is_diagnostics_enabled options.mailbox_diagnostics
        || is_diagnostics_enabled options.esc_diagnostics
        || is_diagnostics_enabled options.esc_port_diagnostics)

  unfoldable pub internal_service_update : Action W F Bool
  internal_service_update = do
    interface ← gets λ b. b.params.interface
    link_up ←
        on_context
          λ c. let (up, w) = env.soem.is_up interface c.world in (up, record c { world = w })
    modify λ b. record b {
      latest_diagnostics = record b.latest_diagnostics {
        bus = record b.latest_diagnostics.bus { link_up = link_up };
      };
    }
    locked ← try_lock env
    when locked (modify (drain_all_mailbox_events env.soem))
    rising ← gets (is_in activated)
    if rising then bring_operational else diagnose_service

  unfoldable pub update_service : Action W F Bool
  update_service = do
    stopped ← gets λ b. is_in pre_init b || is_in shut_down b || is_in shutting_down b
    throw_if stopped
        (soem_error "The bus object can only be spun in 'Activated' or 'Operational' state")
    internal_service_update
