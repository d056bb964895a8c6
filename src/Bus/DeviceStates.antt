-- ===== src/Bus/DeviceStates.antt =====
-- EtherCAT states of the devices: `set_device_target_state`, `wait_for_device_target_state`,
-- `get_device_state`, `update_device_states` and `EthercatBus::change_device_state` of
-- src/internal/soem/soem_backend.cpp. Timeouts are constants and are left out.
use duatic_ethercat_interfac.Prelude.{ℕ, ◌%◌, Bool, false, not, ◌&&◌, ◌||◌, ◌==◌, if◌then◌else◌}
use duatic_ethercat_interfac.Prelude.Int.{pos, ltb_ℤ}
use duatic_ethercat_interfac.Types.{EthercatDeviceState}
use duatic_ethercat_interfac.Soem.{set_slave}
use duatic_ethercat_interfac.Soem.States.{map_to_soem_device_state}
use duatic_ethercat_interfac.Bus.{
  Env, Action, pure, gets, modify, on_context, ◌>>=◌, ◌>>◌, has_device_on_bus,
}

module _ {W F : Type 0} (env : Env W F) where
  unfoldable pub write_target_state : ℕ → ℕ → Action W F Bool
  write_target_state device_id target_state = do
    modify λ b.
        let slave = record (b.context.slavelist device_id) { state = target_state } in
        record b { context = set_slave device_id slave b.context }
    wkc ← on_context (env.soem.ecx_writestate device_id)
    pure (ltb_ℤ (pos 0) wkc)

  unfoldable pub set_device_target_state : ℕ → ℕ → Action W F Bool
  set_device_target_state device_id target_state = do
    on_bus ← gets (has_device_on_bus device_id)
    if not (device_id == 0) && not on_bus
        then pure false
        else write_target_state device_id target_state

  unfoldable pub wait_for_device_target_state : ℕ → ℕ → Action W F Bool
  wait_for_device_target_state device_id target_state = do
    state ← on_context (env.soem.ecx_statecheck device_id target_state)
    pure (state == target_state)

  -- `state & 0x0F`
  unfoldable pub get_device_state : ℕ → Action W F ℕ
  get_device_state device_id = gets λ b. (b.context.slavelist device_id).state % 16

  unfoldable pub update_device_states : Action W F (Unit {0})
  update_device_states = modify λ b. record b { context = env.soem.ecx_readstate b.context }

  unfoldable pub change_device_state : ℕ → EthercatDeviceState → Bool → Action W F Bool
  change_device_state device_id target_state blocking = do
    let soem_state = map_to_soem_device_state env.soem.ec_state target_state
    res ← set_device_target_state device_id soem_state
    if not blocking || not res then pure res else wait_for_device_target_state device_id soem_state
