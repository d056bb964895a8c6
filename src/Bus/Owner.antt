-- ===== src/Bus/Owner.antt =====
-- The owner of the backend, and the devices' way to it: the destructors `~EthercatBus` and
-- `~BackendImpl` of src/internal/soem/soem_backend.cpp, and the calls of `EthercatDevice`
-- (src/ethercat_device.cpp, include/duatic_ethercat_interface/ethercat_device.hpp) that it forwards.
pub mod Dangling
use Prim.Native.String.{String}
use duatic_ethercat_interfac.Wrapper.{ValueDiagnosticsWrapper}
use duatic_ethercat_interfac.Prelude.{ℕ, Bool, not, List, [], ◌∷◌, if◌then◌else◌}
use duatic_ethercat_interfac.Types.{
  EthercatDeviceState, Error, Result, ok, err, is_exception, invalid_argument, literal,
  FoeReadResult, FoeWriteResult, SdoReadResult, SdoWriteResult,
}
use duatic_ethercat_interfac.Device.{clear_bus}
use duatic_ethercat_interfac.ObjectDictionary.{ObjectDictionary}
use duatic_ethercat_interfac.Bus.{Bus, Env, Action, throw_if, gets, ◌>>=◌, ◌>>◌}
use duatic_ethercat_interfac.Bus.DeviceStates.{change_device_state}
use duatic_ethercat_interfac.Bus.Pdo.{update_device}
use duatic_ethercat_interfac.Bus.Lifecycle.{shutdown}
use duatic_ethercat_interfac.Bus.Sdo.{sdo_read, write_sdo_untyped}
use duatic_ethercat_interfac.Bus.Foe.{foe_write, foe_read}
use duatic_ethercat_interfac.Bus.ReadOd.{read_od}

-- `for (auto& device : devices) { device->clear_bus(); }`, over the devices listed.
unfoldable pub clear_all : {W F : Type 0} → List ℕ → Bus W F → Bus W F
clear_all [] b = b
clear_all (id ∷ ids) b = clear_all ids (update_device id clear_bus b)

-- `~BackendImpl` catches the exceptions of its shutdown that derive from `std::exception`. Any other
-- leaves the destructor, which ends the program.
abbrev pub swallow : Result (Unit {0}) → Result (Unit {0})
swallow (ok u) = ok u
swallow (err e) = if is_exception e then ok tt else err e

module _ {W F : Type 0} (env : Env W F) where
  -- `~EthercatBus`, which ends in `~BackendImpl`.
  unfoldable pub destroy : Action W F (Unit {0})
  destroy b = let (r, b') = shutdown env (clear_all b.devices b) in (swallow r, b')

  -- `if (!bus_) { throw …; }`
  unfoldable pub check_bus : ℕ → Action W F (Unit {0})
  check_bus id = do
    throw_if (not (← gets λ b. (b.store id).has_bus))
        (invalid_argument (literal "Bus had not been initialized yet"))

  unfoldable pub device_read_od : ℕ → Bool → Action W F ObjectDictionary
  device_read_od id full_read = do check_bus id; read_od env id full_read

  unfoldable pub device_change_device_state : ℕ → EthercatDeviceState → Bool → Action W F Bool
  device_change_device_state id target_state blocking = do
    check_bus id
    change_device_state env id target_state blocking

  unfoldable pub device_foe_write : ℕ → String → List ℕ → Action W F FoeWriteResult
  device_foe_write id file_name bytes = do check_bus id; foe_write env id file_name bytes

  unfoldable pub device_foe_read :
      ℕ → String → List ℕ → Action W F (ValueDiagnosticsWrapper (List ℕ) FoeReadResult)
  device_foe_read id file_name buffer = do check_bus id; foe_read env id file_name buffer

  -- `sdo_read<T>` and `sdo_write<T>` for a type of `size` bytes.
  unfoldable pub device_sdo_read :
      ℕ → ℕ → ℕ → ℕ → Action W F (ValueDiagnosticsWrapper (List ℕ) SdoReadResult)
  device_sdo_read size id index sub_index = do check_bus id; sdo_read env size id index sub_index

  unfoldable pub device_sdo_write : ℕ → List ℕ → ℕ → ℕ → Action W F SdoWriteResult
  device_sdo_write id bytes index sub_index = do
    check_bus id
    write_sdo_untyped env bytes id index sub_index
