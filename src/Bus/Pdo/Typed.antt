-- ===== src/Bus/Pdo/Typed.antt =====
-- The typed process data accessors `get_rx_pdo`, `set_rx_pdo` and `get_tx_pdo` of
-- include/duatic_ethercat_interface/ethercat_device.hpp. A trivially copyable value is its bytes.
use Prim.Native.String.{String}
use duatic_ethercat_interfac.Prelude.{
  ℕ, ◌≡◌, refl, sym, subst, Bool, true, false, not, List, [], ◌∷◌, ◌==◌, ◌⊎◌, inl, inr, length,
  arith, Bool-cases, if◌then◌else◌,
}
use duatic_ethercat_interfac.Prelude.Int.{pos}
use duatic_ethercat_interfac.Types.{
  str, num, Error, device_configuration_error, literal, Result, ok, err,
}
use duatic_ethercat_interfac.Bus.{Bus, Action, throw_if, gets, ◌>>=◌, ◌>>◌}
use duatic_ethercat_interfac.Bus.Pdo.{
  update_device, get_generic_rx_pdo, set_generic_rx_pdo, get_generic_tx_pdo,
}

-- The error of a type whose size is not the configured one.
abbrev size_mismatch : String → ℕ → ℕ → Error
size_mismatch name size configured_size = device_configuration_error (
    str name
    ∷ num (pos size)
    ∷ str ") does not match configured size ("
    ∷ num (pos configured_size)
    ∷ str ")"
    ∷ [])

module _ {W F : Type 0} where
  -- For a type of `size` bytes.
  unfoldable pub get_rx_pdo : ℕ → ℕ → Action W F (List ℕ)
  unfolding get_generic_rx_pdo
  get_rx_pdo id size = do
    configured ← gets λ b. length (b.store id).rx_pdo
    throw_if (not (size == configured)) (size_mismatch "RXPDO size (" size configured)
    get_generic_rx_pdo id size

  unfoldable pub set_rx_pdo : ℕ → List ℕ → Action W F (Unit {0})
  unfolding set_generic_rx_pdo
  set_rx_pdo id rx = do
    configured ← gets λ b. length (b.store id).rx_pdo
    throw_if (not (length rx == configured)) (size_mismatch "RXPDO size (" (length rx) configured)
    set_generic_rx_pdo id rx

  unfoldable pub get_tx_pdo : ℕ → ℕ → Action W F (List ℕ)
  unfolding get_generic_tx_pdo
  get_tx_pdo id size = do
    configured ← gets λ b. length (b.store id).tx_pdo
    throw_if (not (size == configured)) (size_mismatch "TXPDO size (" size configured)
    get_generic_tx_pdo id size

  -- Whether a value of a type can be stored: the process data is configured, for this size.
  abbrev pub fits_rx : ℕ → ℕ → Bus W F → Bool
  fits_rx id size b =
      if (b.store id).pdo_initialized then size == length (b.store id).rx_pdo else false

  set_rx_pdo_fits :
      (id : ℕ) (rx : List ℕ) (b : Bus W F)
      → (b.store id).pdo_initialized ≡ true
      → (length rx == length (b.store id).rx_pdo) ≡ true
      → set_rx_pdo id rx b ≡ (ok tt, update_device id (λ d. record d { rx_pdo = rx }) b)
  unfolding set_rx_pdo ◌>>=◌
  set_rx_pdo_fits id rx b i e = ground (arith, i, e)

  set_rx_pdo_mismatch :
      (id : ℕ) (rx : List ℕ) (b : Bus W F)
      → (length rx == length (b.store id).rx_pdo) ≡ false
      → set_rx_pdo id rx b
        ≡ (err (size_mismatch "RXPDO size (" (length rx) (length (b.store id).rx_pdo)), b)
  unfolding set_rx_pdo ◌>>=◌
  set_rx_pdo_mismatch id rx b e = ground (arith, e)

  set_rx_pdo_unconfigured :
      (id : ℕ) (rx : List ℕ) (b : Bus W F)
      → (b.store id).pdo_initialized ≡ false
      → (length rx == length (b.store id).rx_pdo) ≡ true
      → set_rx_pdo id rx b ≡ (
        err (
            device_configuration_error
              (literal "Cannot access rx pdo - PDOs have not been configured yet")),
        b,
      )
  unfolding set_rx_pdo ◌>>=◌
  set_rx_pdo_unconfigured id rx b i e = ground (arith, i, e)

  get_rx_pdo_set :
      (id : ℕ) (rx : List ℕ) (b : Bus W F)
      → (b.store id).pdo_initialized ≡ true
      → (get_rx_pdo id (length rx) (update_device id (λ d. record d { rx_pdo = rx }) b)).0 ≡ ok rx
  unfolding get_rx_pdo ◌>>=◌
  get_rx_pdo_set id rx b i = ground (arith, i)

  abbrev pub SetAndGot : ℕ → List ℕ → Bus W F → Result (Unit {0}) × Bus W F → Type 0
  SetAndGot id rx b (r, b') =
      ((fits_rx id (length rx) b ≡ true) × (r ≡ ok tt) × ((get_rx_pdo id (length rx) b').0 ≡ ok rx))
      ⊎ ((fits_rx id (length rx) b ≡ false) × ((e : Error) × (r ≡ err e)) × (b' ≡ b))

  -- A typed value that is set either fits, that is the process data is configured for its size, and
  -- then it is what any type of this size gets back; or it does not fit, and the call throws and
  -- changes nothing.
  pub get_rx_pdo-set_rx_pdo :
      (id : ℕ) (rx : List ℕ) (b : Bus W F) → SetAndGot id rx b (set_rx_pdo id rx b)
  get_rx_pdo-set_rx_pdo id rx b = elim (Bool-cases (length rx == length (b.store id).rx_pdo)) [
    | inl e ↦ elim (Bool-cases (b.store id).pdo_initialized) [
      | inl i ↦
          subst (SetAndGot id rx b) (sym (set_rx_pdo_fits id rx b i e))
            (inl (ground (arith, i, e), refl, get_rx_pdo_set id rx b i))
      | inr i ↦
          subst (SetAndGot id rx b) (sym (set_rx_pdo_unconfigured id rx b i e))
            (inr (ground (arith, i), (_, refl), refl))
    ]
    | inr e ↦
        subst (SetAndGot id rx b) (sym (set_rx_pdo_mismatch id rx b e))
          (inr (ground (arith, e), (_, refl), refl))
  ]
