-- ===== src/Bus/Startup.antt =====
-- `startup` and `activate` of src/internal/soem/soem_backend.cpp. Log output is left out.
pub mod Sizes
use duatic_ethercat_interfac.Prelude.{ℕ, ◌%◌, ◌^◌, not, ◌&&◌, none, [], ◌∷◌, if◌then◌else◌, resize}
use duatic_ethercat_interfac.Prelude.Int.{ℤ, pos, ltb_ℤ}
use duatic_ethercat_interfac.Types.{
  initialized, configured, activated, Backend, Text, str, num, literal, ok,
}
use duatic_ethercat_interfac.Bus.{
  Env, Action, throw_if, gets, modify, on_context, set_state, when, for_each, ◌>>=◌, ◌>>◌,
  soem_error, is_in, slave_ids,
}
use duatic_ethercat_interfac.Bus.DeviceStates.{
  set_device_target_state, wait_for_device_target_state,
}
use duatic_ethercat_interfac.Bus.Pdo.{on_pdo_configured}
use duatic_ethercat_interfac.Bus.Lifecycle.{
  to_int32, capture_clocks, capture_topology, with_slaves, call_hooks, abort,
}

-- The message of a PDO map that is larger than the configured buffer.
abbrev pdo_too_large : ℤ → ℕ → Text
pdo_too_large size configured_size =
    str "Calculated pdo size is: "
    ∷ num size
    ∷ str " whereas the configured buffer size is: "
    ∷ num (pos configured_size)
    ∷ []

module _ {W F : Type 0} (env : Env W F) where
  -- The PDO mapping: the IO map is resized, then SOEM lays the process data out in it.
  unfoldable pub map_pdos : Action W F (Unit {0})
  map_pdos = do
    modify λ b. record b { io_map = resize b.params.pdo_buffer_size 0 b.io_map }
    size ← λ b.
        let (size, io_map, c) = env.soem.ecx_config_map_group b.io_map b.context in
        (ok size, record b { io_map = io_map; context = c })
    buffer ← gets λ b. b.params.pdo_buffer_size
    when (ltb_ℤ (to_int32 (pos buffer)) size)
        (abort env (pdo_too_large size buffer) Backend.unknown)

  -- Switches sync0 on for a slave that has a distributed clock.
  unfoldable pub sync_slave : ℕ → Action W F (Unit {0})
  sync_slave i = do
    hasdc ← gets λ b. (b.context.slavelist i).hasdc
    when hasdc (
        modify λ b. record b {
          context =
              env.soem.ecx_dcsync0 i (b.params.dc_cycle_time % 2 ^ 32)
                (to_int32 b.params.dc_sync0_shift) b.context;
        })

  -- The distributed clocks: the topology that they measured, and sync0 where it is enabled.
  unfoldable pub configure_clocks : Action W F (Unit {0})
  configure_clocks = do
    found ← on_context env.soem.ecx_configdc
    enabled ← gets λ b. b.params.dc_enabled
    when (not found && enabled) (
        abort env (literal "No devices wiht DC support found on the bus but DC sync is enabled")
          Backend.unknown)
    modify (
        with_slaves
          λ b. capture_topology capture_clocks b.context (slave_ids b) b.latest_diagnostics.slaves)
    ids ← gets slave_ids
    when enabled (for_each ids sync_slave)

  -- `device->on_pdo_configured(Obytes, Ibytes)`
  unfoldable pub notify_configured : ℕ → Action W F (Unit {0})
  notify_configured id = do
    rx ← gets λ b. (b.context.slavelist id).obytes
    tx ← gets λ b. (b.context.slavelist id).ibytes
    on_pdo_configured env id rx tx

  unfoldable pub startup : Action W F (Unit {0})
  startup = do
    throw_if (not (← gets (is_in initialized)))
        (soem_error "Cannot perform startup - bus needs to be in 'Initialized' state")
    call_hooks env λ h. h.on_startup
    modify λ b. record b {
      context = record b.context { block_lrw = if b.params.block_lrw then 1 else 0 };
    }
    map_pdos
    configure_clocks
    set_state configured
    devices ← gets λ b. b.devices
    for_each devices notify_configured

  -- One round of the loop that requests SAFE_OP.
  unfoldable pub request_safe_op : ℕ → Action W F (Unit {0})
  request_safe_op id = do
    done ← set_device_target_state env id env.soem.ec_state.safe_op
    when (not done)
        (abort env (literal "Could set target state for device - aborting activation") Backend.soem)

  -- One round of the loop that waits for SAFE_OP.
  unfoldable pub await_safe_op : ℕ → Action W F (Unit {0})
  await_safe_op id = do
    reached ← wait_for_device_target_state env id env.soem.ec_state.safe_op
    when (not reached) (
        abort env (literal "Device did not reach 'SAFE_OP' state - aborting activation")
          Backend.soem)

  unfoldable pub activate : Action W F (Unit {0})
  activate = do
    throw_if (not (← gets (is_in configured)))
        (soem_error "Cannot perform activate - bus needs to be in 'Configured' state")
    call_hooks env λ h. h.on_pre_activate
    modify λ b. record b { activation_start_tp = none }
    devices ← gets λ b. b.devices
    for_each devices request_safe_op
    for_each devices await_safe_op
    set_state activated
    call_hooks env λ h. h.on_post_activate
