-- ===== src/Bus/Pdo.antt =====
-- Process data: `read_rx_pdo`, `write_rx_pdo` and `read_tx_pdo` of src/internal/soem/soem_backend.cpp,
-- and the device's side of them: `update_write` and `update_read` of src/ethercat_device.cpp, the
-- accessors and `on_pdo_configured` of include/duatic_ethercat_interface/ethercat_device.hpp.
pub mod RoundTrip
pub mod Cycle
pub mod Inputs
pub mod Typed
use duatic_ethercat_interfac.Prelude.{
  ℕ, true, not, ◌||◌, Option, none, some, List, ◌==◌, if◌then◌else◌, length, slice, write_at,
  resize,
}
use duatic_ethercat_interfac.Types.{
  pre_init, initialized, Error, backend_error, device_configuration_error, Backend, literal,
}
use duatic_ethercat_interfac.Device.{Device}
use duatic_ethercat_interfac.Bus.{
  Bus, Env, Action, pure, throw_if, gets, modify, ◌>>=◌, ◌>>◌, soem_error, is_in, has_device_on_bus,
}
use duatic_ethercat_interfac.Bus.Diagnosing.{time_now}

abbrev pdo_not_configured : Error
pdo_not_configured =
    backend_error (literal "Cannot access pdo for device - pdo needs to be configured first")
      Backend.unknown none

-- `store[id] = f(store[id])`.
abbrev pub update_device : {W F : Type 0} → ℕ → (Device → Device) → Bus W F → Bus W F
update_device id f b = record b { store = λ j. if j == id then f (b.store id) else b.store j }

module _ {W F : Type 0} where
  -- The checks that the three calls begin with.
  unfoldable pub check_pdo_access : ℕ → Action W F (Unit {0})
  check_pdo_access device_id = do
    throw_if (← gets λ b. is_in pre_init b || is_in initialized b) pdo_not_configured
    throw_if (not (← gets (has_device_on_bus device_id)))
        (soem_error "Cannot access pdo for device - it is not on the bus")

  unfoldable pub read_rx_pdo : ℕ → Action W F (List ℕ)
  unfolding check_pdo_access
  read_rx_pdo device_id = do
    check_pdo_access device_id
    gets λ b. let s = b.context.slavelist device_id in slice s.outputs s.obytes b.io_map

  unfoldable pub write_rx_pdo : ℕ → List ℕ → Action W F (Unit {0})
  unfolding check_pdo_access
  write_rx_pdo device_id bytes = do
    check_pdo_access device_id
    size ← gets λ b. (b.context.slavelist device_id).obytes
    throw_if (not (length bytes == size)) (soem_error "PDO size mismatch - cannot assign")
    modify
        λ b. record b { io_map = write_at (b.context.slavelist device_id).outputs bytes b.io_map }

  -- `size` is the size of the caller's buffer; the result is what is copied into it.
  unfoldable pub read_tx_pdo : ℕ → ℕ → Action W F (List ℕ)
  unfolding check_pdo_access
  read_tx_pdo device_id size = do
    check_pdo_access device_id
    ibytes ← gets λ b. (b.context.slavelist device_id).ibytes
    throw_if (not (size == ibytes)) (soem_error "Critical array size mismatch when reading tx pdo")
    gets λ b. let s = b.context.slavelist device_id in slice s.inputs s.ibytes b.io_map

  unfoldable pub update_write : ℕ → ℕ → Action W F (Unit {0})
  update_write tp id = do
    write_rx_pdo id (← gets λ b. (b.store id).rx_pdo)
    modify (update_device id λ d. record d { rx_pdo_last_write_time = tp })

  unfoldable pub update_read : ℕ → ℕ → Action W F (Unit {0})
  update_read tp id = do
    tx ← read_tx_pdo id (← gets λ b. length (b.store id).tx_pdo)
    modify (update_device id λ d. record d { tx_pdo = tx; tx_pdo_last_read_time = tp })

  -- `EthercatDevice::get_generic_rx_pdo`, for a buffer of `size` bytes.
  unfoldable pub get_generic_rx_pdo : ℕ → ℕ → Action W F (List ℕ)
  get_generic_rx_pdo id size = do
    throw_if (not (← gets λ b. (b.store id).pdo_initialized)) (
        device_configuration_error
          (literal "Cannot access rx pdo - PDOs have not been configured yet"))
    throw_if (not (size == (← gets λ b. length (b.store id).rx_pdo)))
        (device_configuration_error (literal "Size mismatch"))
    gets λ b. (b.store id).rx_pdo

  -- `EthercatDevice::set_generic_rx_pdo`.
  unfoldable pub set_generic_rx_pdo : ℕ → List ℕ → Action W F (Unit {0})
  set_generic_rx_pdo id rx = do
    throw_if (not (← gets λ b. (b.store id).pdo_initialized)) (
        device_configuration_error
          (literal "Cannot access rx pdo - PDOs have not been configured yet"))
    throw_if (not (length rx == (← gets λ b. length (b.store id).rx_pdo)))
        (device_configuration_error (literal "RX PDO size mismatch"))
    modify (update_device id λ d. record d { rx_pdo = rx })

  -- `EthercatDevice::get_generic_tx_pdo`, for a buffer of `size` bytes.
  unfoldable pub get_generic_tx_pdo : ℕ → ℕ → Action W F (List ℕ)
  get_generic_tx_pdo id size = do
    throw_if (not (← gets λ b. (b.store id).pdo_initialized)) (
        device_configuration_error
          (literal "Cannot access tx pdo - PDOs have not been configured yet"))
    throw_if (not (size == (← gets λ b. length (b.store id).tx_pdo)))
        (device_configuration_error (literal "Size mismatch"))
    gets λ b. (b.store id).tx_pdo

module _ {W F : Type 0} (env : Env W F) where
  -- `if (hooks_.f) { hooks_.f(); }`
  unfoldable pub call_hook : Option ℕ → Action W F (Unit {0})
  call_hook none = pure tt
  call_hook (some f) = env.callback f

  -- `EthercatDevice::on_pdo_configured`.
  unfoldable pub on_pdo_configured : ℕ → ℕ → ℕ → Action W F (Unit {0})
  on_pdo_configured id rx_size tx_size = do
    written ← time_now env
    modify (
        update_device id
          λ d. record d { rx_pdo = resize rx_size 0 d.rx_pdo; rx_pdo_last_write_time = written })
    read ← time_now env
    modify (
        update_device id λ d. record d {
          tx_pdo = resize tx_size 0 d.tx_pdo;
          tx_pdo_last_read_time = read;
          pdo_initialized = true;
        })
    call_hook (← gets λ b. (b.store id).hooks.on_pdo_configured)
