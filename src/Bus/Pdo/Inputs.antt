-- ===== src/Bus/Pdo/Inputs.antt =====
-- The read phase of a cycle: `read_tx_pdo` of src/internal/soem/soem_backend.cpp, `update_read` of
-- src/ethercat_device.cpp and `get_generic_tx_pdo` of
-- include/duatic_ethercat_interface/ethercat_device.hpp.
use duatic_ethercat_interfac.Prelude.{
  ℕ, ◌+◌, ◌≤◌, ◌≡◌, refl, sym, ap, ◌∙◌, true, List, length, slice, drop, length-take, length-drop,
  arith,
}
use duatic_ethercat_interfac.Types.{ok}
use duatic_ethercat_interfac.Device.{Device}
use duatic_ethercat_interfac.Bus.{Bus, ◌>>=◌}
use duatic_ethercat_interfac.Bus.Pdo.{
  check_pdo_access, read_tx_pdo, update_read, update_device, get_generic_tx_pdo,
}
use duatic_ethercat_interfac.Bus.Pdo.RoundTrip.{Accessible, update_device_same}

abbrev received : ℕ → List ℕ → Device → Device
received tp tx d = record d { tx_pdo = tx; tx_pdo_last_read_time = tp }

module _ {W F : Type 0} where
  -- The part of the image that holds the inputs of a slave.
  abbrev pub inputs_of : ℕ → Bus W F → List ℕ
  inputs_of id b = slice (b.context.slavelist id).inputs (b.context.slavelist id).ibytes b.io_map

  abbrev pub InputsFit : ℕ → Bus W F → Type 0
  InputsFit id b =
      (b.context.slavelist id).inputs + (b.context.slavelist id).ibytes ≤ length b.io_map

  read_tx_pdo_accessible :
      (id size : ℕ) (b : Bus W F)
      → Accessible id b
      → size ≡ (b.context.slavelist id).ibytes
      → read_tx_pdo id size b ≡ (ok (inputs_of id b), b)
  unfolding read_tx_pdo check_pdo_access ◌>>=◌
  read_tx_pdo_accessible id size b a h = ground (arith, a.configured_bus, a.on_bus, h)

  update_read_accessible :
      (tp id : ℕ) (b : Bus W F)
      → Accessible id b
      → length (b.store id).tx_pdo ≡ (b.context.slavelist id).ibytes
      → update_read tp id b ≡ (ok tt, update_device id (received tp (inputs_of id b)) b)
  unfolding update_read ◌>>=◌
  update_read_accessible tp id b a h =
      rw (read_tx_pdo_accessible id (length (b.store id).tx_pdo) b a h) refl

  length-inputs_of :
      (id : ℕ) (b : Bus W F)
      → InputsFit id b
      → length (inputs_of id b) ≡ (b.context.slavelist id).ibytes
  length-inputs_of id b h =
      let s = b.context.slavelist id in
      omega (arith, length-take s.ibytes (drop s.inputs b.io_map), length-drop s.inputs b.io_map)

  get_generic_tx_pdo_sized :
      (id size : ℕ) (tx : List ℕ) (b : Bus W F)
      → (b.store id).pdo_initialized ≡ true
      → (b.store id).tx_pdo ≡ tx
      → size ≡ length tx
      → (get_generic_tx_pdo id size b).0 ≡ ok tx
  unfolding get_generic_tx_pdo ◌>>=◌
  get_generic_tx_pdo_sized id size tx b ready e h = ground (arith, ready, e, ap length e, h)

  -- If the process data of a slave can be accessed, its inputs lie inside the image and the device's
  -- buffer has their size, then the read phase of a cycle succeeds, and the device then returns
  -- exactly the inputs that the image holds.
  pub get_generic_tx_pdo-update_read :
      (tp id : ℕ) (b : Bus W F)
      → Accessible id b
      → InputsFit id b
      → (b.store id).pdo_initialized ≡ true
      → length (b.store id).tx_pdo ≡ (b.context.slavelist id).ibytes
      → let b' = (update_read tp id b).1 in
        ((update_read tp id b).0 ≡ ok tt)
        × ((get_generic_tx_pdo id (b.context.slavelist id).ibytes b').0 ≡ ok (inputs_of id b))
  get_generic_tx_pdo-update_read tp id b a fits ready h =
      let given = update_device id (received tp (inputs_of id b)) b in
      let same = update_device_same id (received tp (inputs_of id b)) b in
      rw (update_read_accessible tp id b a h) (
        refl,
        get_generic_tx_pdo_sized id (b.context.slavelist id).ibytes (inputs_of id b) given
            (ap (λ d. d.pdo_initialized) same ∙ ready) (ap (λ d. d.tx_pdo) same)
            (sym (length-inputs_of id b fits)),
      )
