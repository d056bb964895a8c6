-- ===== src/Device.antt =====
-- The state of an `EthercatDevice`, of include/duatic_ethercat_interface/ethercat_device.hpp.
use duatic_ethercat_interfac.Prelude.{ℕ, Bool, false, true, Option, none, List, []}
use duatic_ethercat_interfac.Types.{DeviceInfo}

-- `Hooks`: a registered function is known by a number, a null function is `none`.
pub record Hooks : Type 0 where
  pub on_startup : Option ℕ
  pub on_pdo_configured : Option ℕ
  pub on_pre_activate : Option ℕ
  pub on_post_activate : Option ℕ
  pub on_pre_shutdown : Option ℕ
  pub on_post_shutdown : Option ℕ

-- `Hooks{}`.
abbrev pub no_hooks : Hooks
no_hooks = record {
  on_startup = none;
  on_pdo_configured = none;
  on_pre_activate = none;
  on_post_activate = none;
  on_pre_shutdown = none;
  on_post_shutdown = none;
}

-- `has_bus` says that `bus_` is not null.
pub record Device : Type 0 where
  pub has_bus : Bool
  pub device_info : DeviceInfo
  pub hooks : Hooks
  pub pdo_initialized : Bool
  pub rx_pdo : List ℕ
  pub rx_pdo_last_write_time : ℕ
  pub tx_pdo : List ℕ
  pub tx_pdo_last_read_time : ℕ

-- The constructor.
abbrev pub make_device : DeviceInfo → Device
make_device info = record {
  has_bus = true;
  device_info = info;
  hooks = no_hooks;
  pdo_initialized = false;
  rx_pdo = [];
  rx_pdo_last_write_time = 0;
  tx_pdo = [];
  tx_pdo_last_read_time = 0;
}

pub register_hooks : Hooks → Device → Device
register_hooks h d = record d { hooks = h }

pub reset_hooks : Device → Device
reset_hooks d = record d { hooks = no_hooks }

unfoldable pub clear_bus : Device → Device
clear_bus d = record d { has_bus = false }
