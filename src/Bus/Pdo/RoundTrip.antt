-- ===== src/Bus/Pdo/RoundTrip.antt =====
-- What is written into the process data image is what is read from it: `write_rx_pdo`, `read_rx_pdo`
-- and `read_tx_pdo` of src/internal/soem/soem_backend.cpp, and the device's buffers.
use duatic_ethercat_interfac.Prelude.{
  ℕ, ◌+◌, ◌≤◌, ◌≡◌, refl, sym, ap, ◌∙◌, true, false, ◌||◌, ◌⊎◌, inl, inr, List, length, slice,
  write_at, slice-write_at, slice-write_at_apart, arith,
}
use duatic_ethercat_interfac.Types.{pre_init, initialized, ok}
use duatic_ethercat_interfac.Device.{Device}
use duatic_ethercat_interfac.Bus.{Bus, is_in, has_device_on_bus, ◌>>=◌}
use duatic_ethercat_interfac.Bus.Pdo.{
  update_device, check_pdo_access, read_rx_pdo, write_rx_pdo, update_write, set_generic_rx_pdo,
}

slice_written :
    (size offset : ℕ) (bytes xs : List ℕ)
    → length bytes ≡ size
    → offset + size ≤ length xs
    → slice offset size (write_at offset bytes xs) ≡ bytes
slice_written size offset bytes xs e h =
    ap (λ n. slice offset n (write_at offset bytes xs)) (sym e)
    ∙ slice-write_at offset bytes xs (omega arith)

abbrev pub stamped : ℕ → Device → Device
stamped tp d = record d { rx_pdo_last_write_time = tp }

module _ {W F : Type 0} where
  -- The process data of this slave can be accessed.
  pub record Accessible (id : ℕ) (b : Bus W F) : Type 0 where
    pub configured_bus : (is_in pre_init b || is_in initialized b) ≡ false
    pub on_bus : has_device_on_bus id b ≡ true

  -- The outputs of this slave lie inside the process data image.
  abbrev pub OutputsFit : ℕ → Bus W F → Type 0
  OutputsFit id b =
      (b.context.slavelist id).outputs + (b.context.slavelist id).obytes ≤ length b.io_map

  -- The outputs of two slaves do not overlap.
  abbrev pub OutputsApart : ℕ → ℕ → Bus W F → Type 0
  OutputsApart i j b =
      ((b.context.slavelist i).outputs + (b.context.slavelist i).obytes
        ≤ (b.context.slavelist j).outputs)
      ⊎ ((b.context.slavelist j).outputs + (b.context.slavelist j).obytes
          ≤ (b.context.slavelist i).outputs)

  pub read_rx_pdo_accessible :
      (id : ℕ) (b : Bus W F)
      → Accessible id b
      → read_rx_pdo id b
        ≡ (ok (slice (b.context.slavelist id).outputs (b.context.slavelist id).obytes b.io_map), b)
  unfolding read_rx_pdo check_pdo_access ◌>>=◌
  read_rx_pdo_accessible id b a = ground (arith, a.configured_bus, a.on_bus)

  -- The image once the outputs of this slave are written.
  abbrev pub with_outputs : ℕ → List ℕ → Bus W F → Bus W F
  with_outputs id bytes b = record b {
    io_map = write_at (b.context.slavelist id).outputs bytes b.io_map;
  }

  write_rx_pdo_accessible :
      (id : ℕ) (bytes : List ℕ) (b : Bus W F)
      → Accessible id b
      → length bytes ≡ (b.context.slavelist id).obytes
      → write_rx_pdo id bytes b ≡ (ok tt, with_outputs id bytes b)
  unfolding write_rx_pdo check_pdo_access ◌>>=◌
  write_rx_pdo_accessible id bytes b a h = ground (arith, a.configured_bus, a.on_bus, h)

  reread :
      (id : ℕ) (bytes : List ℕ) (b : Bus W F)
      → Accessible id b
      → OutputsFit id b
      → length bytes ≡ (b.context.slavelist id).obytes
      → read_rx_pdo id (with_outputs id bytes b) ≡ (ok bytes, with_outputs id bytes b)
  reread id bytes b a fits h =
      read_rx_pdo_accessible id (with_outputs id bytes b)
        (record { configured_bus = a.configured_bus; on_bus = a.on_bus })
      ∙ ap (λ l. (ok l, with_outputs id bytes b)) (slice_written _ _ bytes b.io_map h fits)

  -- If the process data of a slave can be accessed, its outputs lie inside the image and the data
  -- has their size, then the write succeeds and a read after it returns exactly that data.
  pub read_rx_pdo-write_rx_pdo :
      (id : ℕ) (bytes : List ℕ) (b : Bus W F)
      → Accessible id b
      → OutputsFit id b
      → length bytes ≡ (b.context.slavelist id).obytes
      → let b' = (write_rx_pdo id bytes b).1 in
        ((write_rx_pdo id bytes b).0 ≡ ok tt) × (read_rx_pdo id b' ≡ (ok bytes, b'))
  read_rx_pdo-write_rx_pdo id bytes b a fits h =
      rw (write_rx_pdo_accessible id bytes b a h) (refl, reread id bytes b a fits h)

  pub slice-with_outputs :
      (i j : ℕ) (bytes : List ℕ) (b : Bus W F)
      → OutputsApart i j b
      → length bytes ≡ (b.context.slavelist i).obytes
      → slice
          (b.context.slavelist j).outputs
          (b.context.slavelist j).obytes
          (with_outputs i bytes b).io_map
        ≡ slice (b.context.slavelist j).outputs (b.context.slavelist j).obytes b.io_map
  slice-with_outputs i j bytes b (inl l) h =
      slice-write_at_apart _ _ _ bytes b.io_map (inr (omega (arith, h)))
  slice-with_outputs i j bytes b (inr l) h = slice-write_at_apart _ _ _ bytes b.io_map (inl l)

  -- If the process data of two slaves can be accessed and their outputs do not overlap, then a write
  -- of data of the right size to the outputs of the first leaves those of the second as they were.
  pub read_rx_pdo-write_rx_pdo_apart :
      (i j : ℕ) (bytes : List ℕ) (b : Bus W F)
      → Accessible i b
      → Accessible j b
      → OutputsApart i j b
      → length bytes ≡ (b.context.slavelist i).obytes
      → (read_rx_pdo j (write_rx_pdo i bytes b).1).0 ≡ (read_rx_pdo j b).0
  read_rx_pdo-write_rx_pdo_apart i j bytes b ai aj apart h =
      rw (write_rx_pdo_accessible i bytes b ai h) (
        ap (λ p. p.0)
          (read_rx_pdo_accessible j (with_outputs i bytes b)
            (record { configured_bus = aj.configured_bus; on_bus = aj.on_bus }))
        ∙ ap ok (slice-with_outputs i j bytes b apart h)
        ∙ sym (ap (λ p. p.0) (read_rx_pdo_accessible j b aj)))

  set_generic_rx_pdo_sized :
      (id : ℕ) (rx : List ℕ) (b : Bus W F)
      → (b.store id).pdo_initialized ≡ true
      → length rx ≡ length (b.store id).rx_pdo
      → set_generic_rx_pdo id rx b ≡ (ok tt, update_device id (λ d. record d { rx_pdo = rx }) b)
  unfolding set_generic_rx_pdo ◌>>=◌
  set_generic_rx_pdo_sized id rx b ready sized = ground (arith, ready, sized)

  pub update_write_accessible :
      (tp id : ℕ) (b : Bus W F)
      → Accessible id b
      → length (b.store id).rx_pdo ≡ (b.context.slavelist id).obytes
      → update_write tp id b
        ≡ (ok tt, update_device id (stamped tp) (with_outputs id (b.store id).rx_pdo b))
  unfolding update_write ◌>>=◌
  update_write_accessible tp id b a h =
      rw (write_rx_pdo_accessible id (b.store id).rx_pdo b a h) refl

  -- The image after the write phase holds the device's buffer.
  pub read_rx_pdo-update_write :
      (tp id : ℕ) (b : Bus W F)
      → Accessible id b
      → OutputsFit id b
      → length (b.store id).rx_pdo ≡ (b.context.slavelist id).obytes
      → ((update_write tp id b).0 ≡ ok tt)
        × ((read_rx_pdo id (update_write tp id b).1).0 ≡ ok (b.store id).rx_pdo)
  read_rx_pdo-update_write tp id b a fits h = rw (update_write_accessible tp id b a h) (
    refl,
    ap (λ p. p.0)
          (read_rx_pdo_accessible id
            (update_device id (stamped tp) (with_outputs id (b.store id).rx_pdo b))
            (record { configured_bus = a.configured_bus; on_bus = a.on_bus }))
        ∙ ap ok (slice_written _ _ (b.store id).rx_pdo b.io_map h fits),
  )

  pub update_device_same :
      (id : ℕ) (f : Device → Device) (b : Bus W F)
      → (update_device id f b).store id ≡ f (b.store id)
  update_device_same id f b = ground arith

  -- If the data given to a device has the size of its buffer and of its slave's outputs, which lie
  -- inside the image and can be accessed, then setting it and the write phase of a cycle both
  -- succeed, and the image then holds exactly that data for the slave.
  pub set_generic_rx_pdo-update_write :
      (tp id : ℕ) (rx : List ℕ) (b : Bus W F)
      → Accessible id b
      → OutputsFit id b
      → (b.store id).pdo_initialized ≡ true
      → length rx ≡ length (b.store id).rx_pdo
      → length rx ≡ (b.context.slavelist id).obytes
      → let b' = (set_generic_rx_pdo id rx b).1 in
        ((set_generic_rx_pdo id rx b).0 ≡ ok tt)
        × ((update_write tp id b').0 ≡ ok tt)
        × ((read_rx_pdo id (update_write tp id b').1).0 ≡ ok rx)
  set_generic_rx_pdo-update_write tp id rx b a fits ready sized h =
      let given = update_device id (λ d. record d { rx_pdo = rx }) b in
      let e : (given.store id).rx_pdo ≡ rx =
        ap (λ d. d.rx_pdo) (update_device_same id (λ d. record d { rx_pdo = rx }) b) in
      let (w, r) =
        read_rx_pdo-update_write tp id given
          (record { configured_bus = a.configured_bus; on_bus = a.on_bus }) fits
          (ap length e ∙ h) in
      rw (set_generic_rx_pdo_sized id rx b ready sized) (refl, w, r ∙ ap ok e)
