-- ===== src/Bus/Registers/Sizes.antt =====
-- Sizes of register accesses (src/internal/soem/soem_backend.cpp): the size is a `uint16_t` there.
use duatic_ethercat_interfac.Prelude.{
  ℕ, ◌<◌, ◌≤◌, ◌≡◌, refl, sym, subst, List, length, arith, ltb, Bool-cases, inl, inr,
}
use duatic_ethercat_interfac.Types.{Result, ok, err, logic_error, literal, RegisterReadResult}
use duatic_ethercat_interfac.Bus.{Bus, Env, ◌>>=◌}
use duatic_ethercat_interfac.Bus.Sdo.{check_access}
use duatic_ethercat_interfac.Bus.Sdo.Values.{Reachable}
use duatic_ethercat_interfac.Bus.Registers.{
  check_register, read_register_untyped, write_register_untyped,
}

module _ {W F : Type 0} (env : Env W F) where
  -- A register access of a slave that can be reached, with more than 65535 bytes, throws before
  -- anything is sent: the bus stays as it was.
  pub registers-too_large :
      (bytes : List ℕ) (id address : ℕ) (b : Bus W F)
      → Reachable id b
      → 65535 < length bytes
      → (read_register_untyped env bytes id address b
          ≡ (err (logic_error (literal "Requested data size too large")), b))
        × (write_register_untyped env bytes id address b
            ≡ (err (logic_error (literal "Requested data size too large")), b))
  unfolding read_register_untyped write_register_untyped check_register check_access ◌>>=◌
  registers-too_large bytes id address b r h =
      (ground (arith, r.usable, r.on_bus, h), ground (arith, r.usable, r.on_bus, h))

  -- A read that returns reports the whole size of the buffer, which fits 16 bits; one that throws was
  -- asked for more than that, and has left the bus as it was.
  abbrev pub Sized : List ℕ → Bus W F → Result RegisterReadResult × Bus W F → Type 0
  Sized buffer b (ok r, b') = (r.actual_size_read ≡ length buffer) × (length buffer ≤ 65535)
  Sized buffer b (err e, b') =
      (e ≡ logic_error (literal "Requested data size too large"))
      × (65535 < length buffer)
      × (b' ≡ b)

  -- A register read of a slave that can be reached returns exactly if its buffer has at most 65535
  -- bytes, and the size that it reports is then the buffer's, never cut to 16 bits. With a larger
  -- buffer it throws, and nothing is sent: the bus stays as it was.
  pub read_register_untyped-sized :
      (buffer : List ℕ) (id address : ℕ) (b : Bus W F)
      → Reachable id b
      → Sized buffer b (read_register_untyped env buffer id address b)
  unfolding read_register_untyped check_register check_access ◌>>=◌
  read_register_untyped-sized buffer id address b r =
      elim (Bool-cases (ltb 65535 (length buffer))) [
        | inl large ↦
            subst (Sized buffer b)
              (sym (registers-too_large buffer id address b r (ground (arith, large))).0)
              (refl, ground (arith, large), refl)
        | inr fits ↦ rw (r.usable, r.on_bus, fits) (ground (arith, fits), ground (arith, fits))
      ]
