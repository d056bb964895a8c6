-- ===== src/Bus/Slaves.antt =====
-- Which devices there are: `scan`, `scan(device_id)` and `acquire_device` of
-- src/internal/soem/soem_backend.cpp.
use duatic_ethercat_interfac.Prelude.{ℕ, ◌%◌, ◌^◌, not, List, map, range_from}
use duatic_ethercat_interfac.Types.{
  DeviceInfo, pre_init, initialized, device_not_found, soem, literal,
}
use duatic_ethercat_interfac.Soem.{Slave}
use duatic_ethercat_interfac.Bus.{
  Action, pure, throw_if, gets, ◌>>=◌, ◌>>◌, soem_error, is_in, has_device, has_device_on_bus,
  device_not_on_bus,
}

-- The `DeviceInfo` of a slave.
abbrev pub device_info : ℕ → Slave → DeviceInfo
device_info id s = record {
  id = id % 2 ^ 16;
  name = s.name;
  vendor_id = s.eep_man;
  product_id = s.eep_id;
  revision = s.eep_rev;
  has_dc = s.hasdc;
}

module _ {W F : Type 0} where
  unfoldable pub scan : Action W F (List DeviceInfo)
  scan = do
    throw_if (← gets (is_in pre_init)) (soem_error "Need to initialize bus first for a scan")
    gets λ b. map (λ i. device_info i (b.context.slavelist i)) (range_from 1 b.context.slavecount)

  unfoldable pub scan_device : ℕ → Action W F DeviceInfo
  scan_device device_id = do
    throw_if (← gets (is_in pre_init)) (soem_error "Need to initialize bus first for a scan")
    throw_if (not (← gets (has_device_on_bus device_id)))
        (device_not_found (literal "Cannot scan for device - it is not on the bus") soem)
    gets λ b. device_info device_id (b.context.slavelist device_id)

  -- The shared pointer to the device object, which the model names by the device's id.
  unfoldable pub acquire_device : ℕ → Action W F ℕ
  acquire_device device_id = do
    throw_if (not (← gets (is_in initialized)))
        (soem_error "You may only aquire devices in the bus state: 'Initialized'")
    throw_if (not (← gets (has_device device_id)))
        (device_not_found (device_not_on_bus device_id) soem)
    pure device_id
