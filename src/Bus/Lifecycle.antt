-- ===== src/Bus/Lifecycle.antt =====
-- The life of the bus: `initialize`, `startup`, `activate` and `shutdown` of
-- src/internal/soem/soem_backend.cpp. Log output is left out.
pub mod Devices
use duatic_ethercat_interfac.Prelude.{
  ℕ, ◌+◌, ◌-◌, ◌/◌, ◌%◌, ◌^◌, not, Option, none, some, List, [], ◌∷◌, map, ◌++◌, ltb, ◌==◌,
  if◌then◌else◌, modify_at, range_from, resize,
}
use duatic_ethercat_interfac.Prelude.Int.{ℤ, pos, negsuc, pos_part, neg_part, leb_ℤ}
use duatic_ethercat_interfac.Types.{
  pre_init, initialized, shutting_down, shut_down, Backend, backend_error, soem, str, literal, Text,
}
use duatic_ethercat_interfac.Soem.{Slave, Context}
use duatic_ethercat_interfac.Diagnostics.{EscStatus, DeviceTopology, default_esc_status}
use duatic_ethercat_interfac.Device.{Hooks, make_device}
use duatic_ethercat_interfac.Bus.{
  Bus, Env, Action, pure, throw, throw_if, gets, modify, on_context, set_state, for_each, ◌>>=◌,
  ◌>>◌, soem_error, is_in, slave_ids,
}
use duatic_ethercat_interfac.Bus.Slaves.{scan_device}
use duatic_ethercat_interfac.Bus.DeviceStates.{
  set_device_target_state, wait_for_device_target_state,
}
use duatic_ethercat_interfac.Bus.Pdo.{update_device, call_hook}

-- `static_cast<int32_t>` of an integer.
abbrev pub to_int32 : ℤ → ℤ
to_int32 a =
    let w = (pos_part a % 2 ^ 32 + (2 ^ 32 - neg_part a % 2 ^ 32)) % 2 ^ 32 in
    if ltb w (2 ^ 31) then pos w else negsuc (2 ^ 32 - w - 1)

-- What `initialize` captures of a slave's topology.
unfoldable pub capture_links : Slave → DeviceTopology → DeviceTopology
capture_links s t = record t {
  parent = s.parent % 2 ^ 16;
  active_ports = map (λ port. not (s.activeports / 2 ^ port % 2 == 0)) (range_from 0 4);
}

-- What `startup` captures of it once the distributed clocks are configured.
unfoldable pub capture_clocks : Slave → DeviceTopology → DeviceTopology
capture_clocks s t = record t {
  parent_port = s.parentport;
  entry_port = s.entryport;
  propagation_delay_ns = s.pdelay;
  dc_next = s.dc_next % 2 ^ 16;
  dc_previous = s.dc_previous % 2 ^ 16;
  dc_port_receive_time_ns = s.dcrt_a ∷ s.dcrt_b ∷ s.dcrt_c ∷ s.dcrt_d ∷ [];
}

-- `for (uint16_t i = 1; …) slaves[i - 1].topology = f(slave i, …)`, over the ids listed.
unfoldable pub capture_topology :
    {W : Type 0}
    → (Slave → DeviceTopology → DeviceTopology)
    → Context W
    → List ℕ
    → List EscStatus
    → List EscStatus
capture_topology f c [] slaves = slaves
capture_topology f c (i ∷ is) slaves =
    capture_topology f c is
      (modify_at (i - 1) (λ s. record s { topology = f (c.slavelist i) s.topology }) slaves)

abbrev pub with_slaves : {W F : Type 0} → (Bus W F → List EscStatus) → Bus W F → Bus W F
with_slaves f b = record b { latest_diagnostics = record b.latest_diagnostics { slaves = f b } }

module _ {W F : Type 0} (env : Env W F) where
  -- Calls one hook of every device.
  unfoldable pub call_hooks : (Hooks → Option ℕ) → Action W F (Unit {0})
  call_hooks hook = do
    devices ← gets λ b. b.devices
    for_each devices λ id. do call_hook env (← gets λ b. hook (b.store id).hooks)

  unfoldable pub shutdown_running : Action W F (Unit {0})
  shutdown_running = do
    set_state shutting_down
    call_hooks λ h. h.on_pre_shutdown
    set_device_target_state env 0 env.soem.ec_state.pre_op
    wait_for_device_target_state env 0 env.soem.ec_state.pre_op
    modify λ b. record b { context = env.soem.ecx_close b.context }
    set_state shut_down
    call_hooks λ h. h.on_post_shutdown
    modify λ b. record b { devices = [] }

  unfoldable pub shutdown : Action W F (Unit {0})
  shutdown b = elim b.state [
    | shut_down ↦ pure tt b
    | pre_init ↦ set_state shut_down b
    | initialized ↦
        pure tt
          (record b { devices = []; state = shut_down; context = env.soem.ecx_close b.context })
    | shutting_down ↦ throw (soem_error "Invalid BusState in shutdown - dont know what to do") b
    | _ ↦ shutdown_running b
  ]

  -- `devices_.emplace_back(std::make_shared<EthercatDevice>(owner_, scan(i)))`
  unfoldable pub add_device : ℕ → Action W F (Unit {0})
  add_device i = do
    info ← scan_device (i % 2 ^ 16)
    modify λ b. record (update_device info.id (λ d. make_device info) b) {
      devices = b.devices ++ info.id ∷ [];
    }

  unfoldable pub initialize : Action W F ℤ
  initialize = do
    throw_if (not (← gets (is_in pre_init))) (soem_error "Bus is already initialized")
    interface ← gets λ b. b.params.interface
    ec ← on_context (env.soem.ecx_init interface)
    throw_if (leb_ℤ ec (pos 0)) (
        backend_error (str "Failed to open interface: " ∷ str interface ∷ str " Run as root!" ∷ [])
          soem (some ec))
    device_count ← on_context env.soem.ecx_config_init
    throw_if (leb_ℤ device_count (pos 0))
        (backend_error (literal "No devices found on the bus") soem (some device_count))
    modify (
        with_slaves λ b. resize b.context.slavecount default_esc_status b.latest_diagnostics.slaves)
    modify (
        with_slaves
          λ b. capture_topology capture_links b.context (slave_ids b) b.latest_diagnostics.slaves)
    link_up ←
        on_context
          λ c. let (up, w) = env.soem.is_up interface c.world in (up, record c { world = w })
    modify λ b. record b {
      latest_diagnostics = record b.latest_diagnostics {
        bus = record b.latest_diagnostics.bus { link_up = link_up };
      };
    }
    set_state initialized
    for_each (range_from 1 (pos_part device_count)) add_device
    pure device_count

  -- `shutdown(); throw …;`
  unfoldable pub abort : {A : Type 0} → Text → Backend → Action W F A
  abort message backend = do shutdown; throw (backend_error message backend none)
