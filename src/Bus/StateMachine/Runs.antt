-- ===== src/Bus/StateMachine/Runs.antt =====
-- Histories of calls on a bus: the methods of `EthercatBus`
-- (include/duatic_ethercat_interface/ethercat_bus.hpp), which all end in
-- src/internal/soem/soem_backend.cpp. An exception ends the call and not the history.
use Prim.Native.String.{String}
use duatic_ethercat_interfac.Prelude.{ℕ, Bool, List, [], ◌∷◌}
use duatic_ethercat_interfac.Types.{EthercatDeviceState}
use duatic_ethercat_interfac.Bus.{Bus, Env}
use duatic_ethercat_interfac.Bus.ReadOd.{read_od}
use duatic_ethercat_interfac.Bus.Slaves.{scan, scan_device, acquire_device}
use duatic_ethercat_interfac.Bus.DeviceStates.{change_device_state}
use duatic_ethercat_interfac.Bus.Diagnosing.{diagnostics}
use duatic_ethercat_interfac.Bus.Pdo.{read_rx_pdo, write_rx_pdo, read_tx_pdo}
use duatic_ethercat_interfac.Bus.Lifecycle.{initialize, shutdown}
use duatic_ethercat_interfac.Bus.Startup.{startup, activate}
use duatic_ethercat_interfac.Bus.Update.{update_rt, update_service}
use duatic_ethercat_interfac.Bus.Sdo.{sdo_read, sdo_read_string, write_sdo_untyped}
use duatic_ethercat_interfac.Bus.Foe.{foe_read, foe_write}
use duatic_ethercat_interfac.Bus.Registers.{register_read, register_write}

pub data Call : Type 0 where
  call_initialize call_startup call_activate call_update_rt call_update_service call_shutdown : Call
  call_scan : Call
  call_scan_device call_acquire_device : (device_id : ℕ) → Call
  call_read_rx_pdo : (device_id : ℕ) → Call
  call_write_rx_pdo : (device_id : ℕ) (data_bytes : List ℕ) → Call
  call_read_tx_pdo : (device_id size : ℕ) → Call
  call_sdo_read : (size device_id index sub_index : ℕ) → Call
  call_sdo_read_string : (device_id index sub_index : ℕ) → Call
  call_sdo_write : (data_bytes : List ℕ) (device_id index sub_index : ℕ) → Call
  call_foe_read : (device_id : ℕ) (file_name : String) (buffer : List ℕ) → Call
  call_foe_write : (device_id : ℕ) (file_name : String) (data_bytes : List ℕ) → Call
  call_register_read : (size device_id address : ℕ) → Call
  call_register_write : (device_id address : ℕ) (data_bytes : List ℕ) → Call
  call_read_od : (device_id : ℕ) (full_read : Bool) → Call
  call_change_device_state : (device_id : ℕ) (target : EthercatDeviceState) (blocking : Bool) → Call
  call_diagnostics : (force_update : Bool) → Call

module _ {W F : Type 0} (env : Env W F) where
  -- The bus after one call.
  unfoldable pub perform : Call → Bus W F → Bus W F
  perform call_initialize b = (initialize env b).1
  perform call_startup b = (startup env b).1
  perform call_activate b = (activate env b).1
  perform call_update_rt b = (update_rt env b).1
  perform call_update_service b = (update_service env b).1
  perform call_shutdown b = (shutdown env b).1
  perform call_scan b = (scan b).1
  perform (call_scan_device i) b = (scan_device i b).1
  perform (call_acquire_device i) b = (acquire_device i b).1
  perform (call_read_rx_pdo i) b = (read_rx_pdo i b).1
  perform (call_write_rx_pdo i bytes) b = (write_rx_pdo i bytes b).1
  perform (call_read_tx_pdo i n) b = (read_tx_pdo i n b).1
  perform (call_sdo_read n i x s) b = (sdo_read env n i x s b).1
  perform (call_sdo_read_string i x s) b = (sdo_read_string env i x s b).1
  perform (call_sdo_write bytes i x s) b = (write_sdo_untyped env bytes i x s b).1
  perform (call_foe_read i f buffer) b = (foe_read env i f buffer b).1
  perform (call_foe_write i f bytes) b = (foe_write env i f bytes b).1
  perform (call_register_read n i a) b = (register_read env n i a b).1
  perform (call_register_write i a bytes) b = (register_write env i a bytes b).1
  perform (call_read_od i full) b = (read_od env i full b).1
  perform (call_change_device_state i t blocking) b = (change_device_state env i t blocking b).1
  perform (call_diagnostics force) b = (diagnostics env force b).1

  unfoldable pub run : List Call → Bus W F → Bus W F
  run [] b = b
  run (c ∷ cs) b = run cs (perform c b)
