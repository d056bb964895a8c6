-- ===== src/SdoPrint/Returning.antt =====
-- What `sdo_print_helper` (include/duatic_ethercat_interface/internal/tools/sdo_print_helper.hpp) does
-- with exceptions.
use duatic_ethercat_interfac.Prelude.{
  ℕ, ◌≡◌, refl, true, Option, none, some, leb, ◌&&◌, Bool-cases, inl, inr,
}
use duatic_ethercat_interfac.Types.{Text, Result, ok, err}
use duatic_ethercat_interfac.Bus.{Bus, Env}
use duatic_ethercat_interfac.Bus.Returns.{is_ok}
use duatic_ethercat_interfac.Bus.Throws.{
  RuntimeOnly, Throws, Throws-pure, Throws-bind, throws_rules, Throws-read_sdo_untyped,
  Throws-sdo_read, Throws-sdo_read_string,
}
use duatic_ethercat_interfac.SdoPrint.{
  Texts, Reading, read_as, read_as_string, read_odd_int, sdo_read_bits, read_case, caught,
  sdo_print_helper,
}

module _ {W F : Type 0} (env : Env W F) (texts : Texts) where
  Throws-sdo_read_bits :
      (id index sub_index bits : ℕ) → Throws (sdo_read_bits env texts id index sub_index bits)
  unfolding sdo_read_bits
  Throws-sdo_read_bits id index sub_index bits =
      search (throws_rules, Throws-read_sdo_untyped) depth 14

  Throws-read_case :
      (id index sub_index : ℕ) (reading : Option Reading)
      → Throws (read_case env texts id index sub_index reading)
  unfolding read_case
  Throws-read_case id index sub_index none = Throws-pure _
  Throws-read_case id index sub_index (some (read_as number)) =
      Throws-bind _ _ (Throws-sdo_read env _ id index sub_index) λ _. Throws-pure _
  Throws-read_case id index sub_index (some read_as_string) =
      Throws-bind _ _ (Throws-sdo_read_string env id index sub_index) λ _. Throws-pure _
  Throws-read_case id index sub_index (some (read_odd_int bytes is_signed)) =
      Throws-bind _ _ (Throws-read_sdo_untyped env _ id index sub_index true) λ _. Throws-pure _

  caught-returns :
      (r : Result Text × Bus W F) → RuntimeOnly r.0 → is_ok (caught env texts r).0 ≡ true
  caught-returns (ok text, b) h = refl
  caught-returns (err e, b) h = rw h refl

  -- Whatever the state of the bus, the device and the data type, and whatever SOEM reports, a value
  -- is turned into a text and nothing is thrown.
  pub sdo_print_helper-returns :
      (id index sub_index sdo_data_type : ℕ) (b : Bus W F)
      → is_ok (sdo_print_helper env texts id index sub_index sdo_data_type b).0 ≡ true
  unfolding sdo_print_helper
  sdo_print_helper-returns id index sub_index sdo_data_type b =
      elim (Bool-cases (leb 0x30 sdo_data_type && leb sdo_data_type 0x37)) [
        | inl bits ↦ rw bits (caught-returns _ ((Throws-sdo_read_bits id index sub_index _).at b))
        | inr other ↦ rw other (caught-returns _ ((Throws-read_case id index sub_index _).at b))
      ]
