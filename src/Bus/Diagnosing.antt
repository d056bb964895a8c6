-- ===== src/Bus/Diagnosing.antt =====
-- Bus diagnostics: `update_diagnostics_fast`, `update_diagnostics_slow`,
-- `read_slave_port_diagnostics` and `diagnostics` of src/internal/soem/soem_backend.cpp.
pub mod Counters
pub mod Selection
pub mod Publishing
use duatic_ethercat_interfac.Prelude.{
  ℕ, ◌+◌, ◌*◌, ◌/◌, ◌%◌, ◌^◌, Bool, not, ◌&&◌, ◌||◌, none, some, List, [], ◌∷◌, map, leb, ◌==◌,
  if◌then◌else◌, get_elem?, modify_at, range_from, replicate,
}
use duatic_ethercat_interfac.Prelude.Int.{ℤ, pos, ltb_ℤ, leb_ℤ, eqb_ℤ}
use duatic_ethercat_interfac.Types.{pre_init, configured, activated, shut_down, BusState}
use duatic_ethercat_interfac.Soem.{Soem, Context}
use duatic_ethercat_interfac.Soem.States.{map_from_soem_device_state}
use duatic_ethercat_interfac.Diagnostics.{
  DiagnosticsSnapshot, EscStatus, EscPortHealth, is_diagnostics_enabled, bump,
}
use duatic_ethercat_interfac.Bus.{
  Bus, Env, Action, pure, throw_if, gets, modify, on_context, when, ◌>>=◌, ◌>>◌, soem_error, is_in,
}

-- `HighPrecisionClock::now()` as an action.
unfoldable pub time_now : {W F : Type 0} → Env W F → Action W F ℕ
time_now env = on_context λ c. let (t, w) = env.soem.now c.world in (t, record c { world = w })

-- `lock(mutex, std::try_to_lock)`: whether the mutex was free.
unfoldable pub try_lock : {W F : Type 0} → Env W F → Action W F Bool
try_lock env = on_context λ c. let (t, w) = env.soem.try_lock c.world in (t, record c { world = w })

-- Byte `i` of a buffer that the bus filled; a buffer that is too short reads as 0.
abbrev pub byte : List ℕ → ℕ → ℕ
byte [] i = 0
byte (x ∷ xs) i = elim (get_elem? (x ∷ xs) i) [ none ↦ 0 | some b ↦ b ]

-- Port `p` from the DL status word, the eight error counters and the four lost link counters.
unfoldable pub port_health : ℕ → List ℕ → List ℕ → ℕ → EscPortHealth
port_health dl_status rx_err lost_link p = record {
  link_up = not (dl_status / 2 ^ (4 + p) % 2 == 0);
  invalid_frames = byte rx_err (p * 2);
  rx_errors = byte rx_err (p * 2 + 1);
  lost_links = byte lost_link p;
}

-- What `update_diagnostics_fast` publishes of slave `i`, counted from 0.
unfoldable pub refresh_slave : {W : Type 0} → Soem W → Context W → ℕ → EscStatus → EscStatus
refresh_slave soem c i s =
    let slave = c.slavelist (i + 1) in
    record s {
      position = (i + 1) % 2 ^ 16;
      al_status = slave.al_statuscode;
      state = map_from_soem_device_state soem.ec_state (slave.state % 16);
      online = not slave.islost;
    }

-- `for (i = 0; i < count; i++) slaves[i] = f(i, slaves[i])`, over the indices listed.
unfoldable pub for_slaves : (ℕ → EscStatus → EscStatus) → List ℕ → List EscStatus → List EscStatus
for_slaves f [] slaves = slaves
for_slaves f (i ∷ is) slaves = for_slaves f is (modify_at i (f i) slaves)

-- The counters of `update_diagnostics_fast`.
unfoldable pub count_cycle : ℤ → ℤ → DiagnosticsSnapshot → DiagnosticsSnapshot
count_cycle wkc expected_wkc d = record d {
  bus = record d.bus {
    wkc_mismatches =
        if leb_ℤ (pos 0) wkc && not (eqb_ℤ wkc expected_wkc)
        then bump d.bus.wkc_mismatches
        else d.bus.wkc_mismatches;
    frames_lost = if ltb_ℤ wkc (pos 0) then bump d.bus.frames_lost else d.bus.frames_lost;
    frames_sent = bump d.bus.frames_sent;
  };
}

-- The slave whose turn it is, counted from 0.
unfoldable pub selected_slave : {W F : Type 0} → Bus W F → ℕ
selected_slave b =
    if leb b.context.slavecount b.current_selected_diagnostics_slave
    then 0
    else b.current_selected_diagnostics_slave

module _ {W F : Type 0} (env : Env W F) where
  -- The tail of `update_diagnostics_fast`, once the mutex is held.
  unfoldable pub publish_slaves : Action W F (Unit {0})
  publish_slaves = modify λ b. record b {
    latest_diagnostics = record b.latest_diagnostics {
      slaves =
          for_slaves (refresh_slave env.soem b.context)
            (range_from 0 (b.context.slavecount % 2 ^ 16)) b.latest_diagnostics.slaves;
    };
  }

  unfoldable pub update_diagnostics_fast : ℤ → ℤ → Action W F (Unit {0})
  update_diagnostics_fast wkc expected_wkc = do
    t ← time_now env
    modify λ b. record b {
      latest_diagnostics =
          count_cycle wkc expected_wkc (record b.latest_diagnostics { timestamp = t });
    }
    enabled ← gets λ b. is_diagnostics_enabled b.params.diagnostics.esc_diagnostics
    when enabled (do locked ← try_lock env; when locked publish_slaves)

  -- `ecx_FPRD` into a zeroed buffer; the working counter is ignored.
  unfoldable pub read_register_block : ℕ → ℕ → List ℕ → Action W F (List ℕ)
  read_register_block config_adr address buffer =
      on_context
        λ c. let (wkc, bytes, c') = env.soem.ecx_fprd config_adr address buffer c in (bytes, c')

  unfoldable pub read_slave_port_diagnostics : ℕ → Action W F (List EscPortHealth)
  read_slave_port_diagnostics config_adr = do
    dl ← read_register_block config_adr 0x0110 (replicate 2 0)
    rx_err ← read_register_block config_adr 0x0300 (replicate 8 0)
    lost_link ← read_register_block config_adr 0x0310 (replicate 4 0)
    pure (map (port_health (byte dl 0 + 256 * byte dl 1) rx_err lost_link) (range_from 0 4))

  unfoldable pub update_diagnostics_slow : Action W F (Unit {0})
  update_diagnostics_slow = do
    selected ← gets selected_slave
    config_adr ← gets λ b. (b.context.slavelist (selected + 1)).configadr
    ports ← read_slave_port_diagnostics config_adr
    t ← time_now env
    modify λ b. record b {
      latest_diagnostics = record b.latest_diagnostics {
        slaves =
            modify_at selected (λ s. record s { ports = ports; ports_update_timestamp = t })
              b.latest_diagnostics.slaves;
      };
      current_selected_diagnostics_slave = selected + 1;
    }

  unfoldable pub diagnostics : Bool → Action W F DiagnosticsSnapshot
  diagnostics force_update = do
    throw_if (← gets λ b. is_in pre_init b || is_in shut_down b)
        (soem_error "Cannot access 'BusDiagnostics' on a not initialized bus")
    running ← gets λ b. is_in BusState.operational b || is_in activated b || is_in configured b
    throw_if (force_update && running) (
        soem_error
          "Bus diagnostics force update may not be used when the bus is either in 'Operational' or 'Activated' state !")
    when force_update (update_diagnostics_fast (pos 0) (pos 0) >> update_diagnostics_slow)
    gets λ b. record b.latest_diagnostics { mailbox = b.mailbox_status }
