-- ===== src/Bus/Pdo/Cycle.antt =====
-- The write phase of a cycle, the loop over `dispatch_device_update_write` in `internal_pdo_update`
-- (src/internal/soem/soem_backend.cpp).
use duatic_ethercat_interfac.Prelude.{
  ℕ, ◌≡◌, refl, sym, ap, ◌∙◌, List, [], ◌∷◌, length, length-write_at, arith,
}
use duatic_ethercat_interfac.Types.{ok}
use duatic_ethercat_interfac.Bus.{Bus, pure, for_each, ◌>>=◌}
use duatic_ethercat_interfac.Bus.Pdo.{update_device, update_write, read_rx_pdo}
use duatic_ethercat_interfac.Bus.Pdo.RoundTrip.{
  Accessible, OutputsFit, OutputsApart, slice-with_outputs, with_outputs, stamped,
  update_write_accessible, read_rx_pdo_accessible, read_rx_pdo-update_write,
}

module _ {W F : Type 0} where
  -- The write phase can serve this device.
  pub record Ready (id : ℕ) (b : Bus W F) : Type 0 where
    pub accessible : Accessible id b
    pub fits : OutputsFit id b
    pub sized : length (b.store id).rx_pdo ≡ (b.context.slavelist id).obytes

  abbrev pub AllReady : List ℕ → Bus W F → Type 0
  AllReady [] b = Unit {0}
  AllReady (id ∷ ids) b = Ready id b × AllReady ids b

  abbrev ApartFrom : ℕ → List ℕ → Bus W F → Type 0
  ApartFrom i [] b = Unit {0}
  ApartFrom i (j ∷ js) b = OutputsApart j i b × ApartFrom i js b

  -- No two of the slaves share output bytes.
  abbrev pub AllApart : List ℕ → Bus W F → Type 0
  AllApart [] b = Unit {0}
  AllApart (id ∷ ids) b = ApartFrom id ids b × AllApart ids b

  -- The image holds the buffer of each of the devices.
  abbrev pub AllWritten : List ℕ → Bus W F → Type 0
  AllWritten [] b = Unit {0}
  AllWritten (id ∷ ids) b = ((read_rx_pdo id b).0 ≡ ok (b.store id).rx_pdo) × AllWritten ids b

  -- The bus after the write phase has served one device.
  abbrev written : ℕ → ℕ → Bus W F → Bus W F
  written tp i b = update_device i (stamped tp) (with_outputs i (b.store i).rx_pdo b)

  written_rx_pdo :
      (tp i j : ℕ) (b : Bus W F) → ((written tp i b).store j).rx_pdo ≡ (b.store j).rx_pdo
  written_rx_pdo tp i j b = ground arith

  written-Ready : (tp i j : ℕ) (b : Bus W F) → Ready j b → Ready j (written tp i b)
  written-Ready tp i j b r = record {
    accessible = record {
      configured_bus = r.accessible.configured_bus;
      on_bus = r.accessible.on_bus;
    };
    fits = omega (
      arith,
      r.fits,
      length-write_at (b.context.slavelist i).outputs (b.store i).rx_pdo b.io_map,
    );
    sized = ap length (written_rx_pdo tp i j b) ∙ r.sized;
  }

  written-AllReady :
      (tp i : ℕ) (ids : List ℕ) (b : Bus W F) → AllReady ids b → AllReady ids (written tp i b)
  written-AllReady tp i [] b r = tt
  written-AllReady tp i (j ∷ js) b (r, rs) =
      (written-Ready tp i j b r, written-AllReady tp i js b rs)

  written-ApartFrom :
      (tp i j : ℕ) (ids : List ℕ) (b : Bus W F)
      → ApartFrom j ids b
      → ApartFrom j ids (written tp i b)
  written-ApartFrom tp i j [] b a = tt
  written-ApartFrom tp i j (k ∷ ks) b (a, rest) = (a, written-ApartFrom tp i j ks b rest)

  written-AllApart :
      (tp i : ℕ) (ids : List ℕ) (b : Bus W F) → AllApart ids b → AllApart ids (written tp i b)
  written-AllApart tp i [] b a = tt
  written-AllApart tp i (j ∷ js) b (a, rest) =
      (written-ApartFrom tp i j js b a, written-AllApart tp i js b rest)

  write_next :
      (tp i : ℕ) (ids : List ℕ) (b : Bus W F)
      → Ready i b
      → for_each (i ∷ ids) (update_write tp) b ≡ for_each ids (update_write tp) (written tp i b)
  unfolding for_each ◌>>=◌
  write_next tp i ids b r = rw (update_write_accessible tp i b r.accessible r.sized) refl

  -- A write to a slave that is apart leaves this one's part of the image, and its buffer.
  holds-written :
      (tp i j : ℕ) (b : Bus W F)
      → Ready i b
      → Ready j b
      → OutputsApart i j b
      → (read_rx_pdo j b).0 ≡ ok (b.store j).rx_pdo
      → (read_rx_pdo j (written tp i b)).0 ≡ ok ((written tp i b).store j).rx_pdo
  holds-written tp i j b ri rj apart h =
      ap (λ p. p.0)
        (read_rx_pdo_accessible j (written tp i b) (written-Ready tp i j b rj).accessible)
      ∙ ap ok (slice-with_outputs i j (b.store i).rx_pdo b apart ri.sized)
      ∙ sym (ap (λ p. p.0) (read_rx_pdo_accessible j b rj.accessible))
      ∙ h
      ∙ ap ok (sym (written_rx_pdo tp i j b))

  -- The rest of the phase leaves a device's part alone once it is written.
  still_holds :
      (tp i : ℕ) (ids : List ℕ) (b : Bus W F)
      → Ready i b
      → AllReady ids b
      → ApartFrom i ids b
      → (read_rx_pdo i b).0 ≡ ok (b.store i).rx_pdo
      → let b' = (for_each ids (update_write tp) b).1 in
        (read_rx_pdo i b').0 ≡ ok (b'.store i).rx_pdo
  unfolding for_each pure
  still_holds tp i [] b r rs apart h = h
  still_holds tp i (j ∷ js) b r (rj, rs) (a, apart) h = rw (write_next tp j js b rj) (
      still_holds tp i js (written tp j b) (written-Ready tp j i b r)
        (written-AllReady tp j js b rs) (written-ApartFrom tp j i js b apart)
        (holds-written tp j i b rj r a h))

  first_holds :
      (tp i : ℕ) (b : Bus W F)
      → Ready i b
      → (read_rx_pdo i (written tp i b)).0 ≡ ok ((written tp i b).store i).rx_pdo
  first_holds tp i b r =
      ap (λ p. (read_rx_pdo i p.1).0) (sym (update_write_accessible tp i b r.accessible r.sized))
      ∙ (read_rx_pdo-update_write tp i b r.accessible r.fits r.sized).1
      ∙ ap ok (sym (written_rx_pdo tp i i b))

  -- If every device is ready, that is its slave can be accessed, the outputs lie inside the image
  -- and the buffer has their size, and no two slaves share output bytes, then the write phase
  -- returns, and after it the image holds the buffer of every one of the devices.
  pub write_phase_lem :
      (tp : ℕ) (ids : List ℕ) (b : Bus W F)
      → AllReady ids b
      → AllApart ids b
      → ((for_each ids (update_write tp) b).0 ≡ ok tt)
        × AllWritten ids (for_each ids (update_write tp) b).1
  unfolding for_each pure
  write_phase_lem tp [] b r a = (refl, tt)
  write_phase_lem tp (i ∷ is) b (r, rs) (a, apart) =
      let (returns, holds) =
        write_phase_lem tp is (written tp i b) (written-AllReady tp i is b rs)
          (written-AllApart tp i is b apart) in
      rw (write_next tp i is b r) (
        returns,
        (
          still_holds tp i is (written tp i b) (written-Ready tp i i b r)
              (written-AllReady tp i is b rs) (written-ApartFrom tp i i is b a)
              (first_holds tp i b r),
          holds,
        ),
      )
