-- ===== src/Bus/Keeps/Access.antt =====
-- The accesses to devices (src/internal/soem/soem_backend.cpp) never change the state of the bus:
-- scans, process data, SDOs, files, registers, diagnostics and device state changes.
use Prim.Native.String.{String}
use duatic_ethercat_interfac.Prelude.{ℕ, Bool, List}
use duatic_ethercat_interfac.Prelude.Int.{ℤ}
use duatic_ethercat_interfac.Types.{EthercatDeviceState}
use duatic_ethercat_interfac.Bus.{Env}
use duatic_ethercat_interfac.Bus.Keeps.{Keeps, keeps_rules}
use duatic_ethercat_interfac.Bus.Keeps.Calls.{
  drain_all-state, finish_mailbox_access-state, finish_foe_access-state,
  set_device_target_state-Keeps, wait_for_device_target_state-Keeps, update_diagnostics_fast-Keeps,
  update_diagnostics_slow-Keeps,
}
use duatic_ethercat_interfac.Bus.Slaves.{scan, scan_device, acquire_device}
use duatic_ethercat_interfac.Bus.DeviceStates.{change_device_state}
use duatic_ethercat_interfac.Bus.Diagnosing.{diagnostics}
use duatic_ethercat_interfac.Bus.Pdo.{
  check_pdo_access, read_rx_pdo, write_rx_pdo, read_tx_pdo, update_write, update_read,
}
use duatic_ethercat_interfac.Bus.Sdo.{
  check_access, finish_sdo, read_sdo_untyped, write_sdo_untyped, sdo_read, sdo_read_string,
}
use duatic_ethercat_interfac.Bus.Foe.{finish_foe, foe_write, foe_read}
use duatic_ethercat_interfac.Bus.Registers.{
  check_register, read_register_untyped, write_register_untyped, register_read, register_write,
}

module _ {W F : Type 0} where
  pub scan-Keeps : Keeps {W = W} {F = F} scan
  unfolding scan
  scan-Keeps = search keeps_rules depth 14

  pub scan_device-Keeps : (id : ℕ) → Keeps {W = W} {F = F} (scan_device id)
  unfolding scan_device
  scan_device-Keeps id = search keeps_rules depth 14

  pub acquire_device-Keeps : (id : ℕ) → Keeps {W = W} {F = F} (acquire_device id)
  unfolding acquire_device
  acquire_device-Keeps id = search keeps_rules depth 14

  check_pdo_access-Keeps : (id : ℕ) → Keeps {W = W} {F = F} (check_pdo_access id)
  unfolding check_pdo_access
  check_pdo_access-Keeps id = search keeps_rules depth 14

  pub read_rx_pdo-Keeps : (id : ℕ) → Keeps {W = W} {F = F} (read_rx_pdo id)
  unfolding read_rx_pdo
  read_rx_pdo-Keeps id = search (keeps_rules, check_pdo_access-Keeps) depth 14

  pub write_rx_pdo-Keeps : (id : ℕ) (bytes : List ℕ) → Keeps {W = W} {F = F} (write_rx_pdo id bytes)
  unfolding write_rx_pdo
  write_rx_pdo-Keeps id bytes = search (keeps_rules, check_pdo_access-Keeps) depth 14

  pub read_tx_pdo-Keeps : (id size : ℕ) → Keeps {W = W} {F = F} (read_tx_pdo id size)
  unfolding read_tx_pdo
  read_tx_pdo-Keeps id size = search (keeps_rules, check_pdo_access-Keeps) depth 14

  pub update_write-Keeps : (tp id : ℕ) → Keeps {W = W} {F = F} (update_write tp id)
  unfolding update_write
  update_write-Keeps tp id = search (keeps_rules, write_rx_pdo-Keeps) depth 14

  pub update_read-Keeps : (tp id : ℕ) → Keeps {W = W} {F = F} (update_read tp id)
  unfolding update_read
  update_read-Keeps tp id = search (keeps_rules, read_tx_pdo-Keeps) depth 14

  check_access-Keeps : (refusal : String) (id : ℕ) → Keeps {W = W} {F = F} (check_access refusal id)
  unfolding check_access
  check_access-Keeps refusal id = search keeps_rules depth 14

module _ {W F : Type 0} (env : Env W F) where
  finish_sdo-Keeps :
      (id index sub_index : ℕ) (wkc : ℤ) → Keeps (finish_sdo env id index sub_index wkc)
  unfolding finish_sdo
  finish_sdo-Keeps id index sub_index wkc = record {
    at = λ b. finish_mailbox_access-state env _ wkc b;
  }

  pub read_sdo_untyped-Keeps :
      (buffer : List ℕ) (id index sub_index : ℕ) (check_size : Bool)
      → Keeps (read_sdo_untyped env buffer id index sub_index check_size)
  unfolding read_sdo_untyped
  read_sdo_untyped-Keeps buffer id index sub_index check_size =
      search (keeps_rules, check_access-Keeps, finish_sdo-Keeps, drain_all-state) depth 16

  pub write_sdo_untyped-Keeps :
      (bytes : List ℕ) (id index sub_index : ℕ)
      → Keeps (write_sdo_untyped env bytes id index sub_index)
  unfolding write_sdo_untyped
  write_sdo_untyped-Keeps bytes id index sub_index =
      search (keeps_rules, check_access-Keeps, finish_sdo-Keeps, drain_all-state) depth 16

  pub sdo_read-Keeps : (size id index sub_index : ℕ) → Keeps (sdo_read env size id index sub_index)
  unfolding sdo_read
  sdo_read-Keeps size id index sub_index = search (keeps_rules, read_sdo_untyped-Keeps) depth 14

  pub sdo_read_string-Keeps :
      (id index sub_index : ℕ) → Keeps (sdo_read_string env id index sub_index)
  unfolding sdo_read_string
  sdo_read_string-Keeps id index sub_index = search (keeps_rules, read_sdo_untyped-Keeps) depth 14

  finish_foe-Keeps : (id : ℕ) (wkc : ℤ) → Keeps (finish_foe env id wkc)
  unfolding finish_foe
  finish_foe-Keeps id wkc = record { at = λ b. finish_foe_access-state env _ wkc b }

  pub foe_write-Keeps :
      (id : ℕ) (file_name : String) (bytes : List ℕ) → Keeps (foe_write env id file_name bytes)
  unfolding foe_write
  foe_write-Keeps id file_name bytes =
      search (keeps_rules, check_access-Keeps, finish_foe-Keeps, drain_all-state) depth 16

  pub foe_read-Keeps :
      (id : ℕ) (file_name : String) (buffer : List ℕ) → Keeps (foe_read env id file_name buffer)
  unfolding foe_read
  foe_read-Keeps id file_name buffer =
      search (keeps_rules, check_access-Keeps, finish_foe-Keeps, drain_all-state) depth 16

  check_register-Keeps : (id : ℕ) (bytes : List ℕ) → Keeps (check_register env id bytes)
  unfolding check_register
  check_register-Keeps id bytes = search (keeps_rules, check_access-Keeps) depth 14

  pub read_register_untyped-Keeps :
      (buffer : List ℕ) (id address : ℕ) → Keeps (read_register_untyped env buffer id address)
  unfolding read_register_untyped
  read_register_untyped-Keeps buffer id address =
      search (keeps_rules, check_register-Keeps) depth 14

  pub write_register_untyped-Keeps :
      (bytes : List ℕ) (id address : ℕ) → Keeps (write_register_untyped env bytes id address)
  unfolding write_register_untyped
  write_register_untyped-Keeps bytes id address =
      search (keeps_rules, check_register-Keeps) depth 14

  pub register_read-Keeps : (size id address : ℕ) → Keeps (register_read env size id address)
  unfolding register_read
  register_read-Keeps size id address = search (keeps_rules, read_register_untyped-Keeps) depth 14

  pub register_write-Keeps :
      (id address : ℕ) (bytes : List ℕ) → Keeps (register_write env id address bytes)
  unfolding register_write
  register_write-Keeps id address bytes =
      search (keeps_rules, write_register_untyped-Keeps) depth 14

  pub change_device_state-Keeps :
      (id : ℕ) (target : EthercatDeviceState) (blocking : Bool)
      → Keeps (change_device_state env id target blocking)
  unfolding change_device_state
  change_device_state-Keeps id target blocking =
      search (keeps_rules, set_device_target_state-Keeps, wait_for_device_target_state-Keeps) depth
        14

  pub diagnostics-Keeps : (force_update : Bool) → Keeps (diagnostics env force_update)
  unfolding diagnostics
  diagnostics-Keeps force_update =
      search (keeps_rules, update_diagnostics_fast-Keeps, update_diagnostics_slow-Keeps) depth 16
