-- ===== src/SdoPrint.antt =====
-- The values of SDOs as text: include/duatic_ethercat_interface/internal/tools/sdo_print_helper.hpp.
-- A data type is its code, a value is its bytes in the order of the wire, which is the order of the
-- machines that the library runs on. The digits of a number are a piece of text, and the text of a
-- floating-point value is a parameter.
pub mod Integers
pub mod Returning
pub mod Printing
use Prim.Native.Nat.{bit_and, bit_or, bit_xor}
use duatic_ethercat_interfac.Prelude.{
  ℕ, suc, ◌+◌, ◌-◌, ◌*◌, ◌%◌, ◌^◌, Bool, true, false, ◌&&◌, Option, none, some, List, [], ◌∷◌, ◌++◌,
  ltb, leb, ◌==◌, if◌then◌else◌, take, replicate,
}
use duatic_ethercat_interfac.Prelude.Int.{ℤ, pos, negsuc}
use duatic_ethercat_interfac.Types.{
  Text, literal, str, num, Backend, Error, backend_error, device_not_found,
  device_configuration_error, executor_error, runtime_error, invalid_argument, logic_error, foreign,
  is_runtime_error, Result, ok, err,
}
use duatic_ethercat_interfac.Types.Names.{backend_to_string, find_code}
use duatic_ethercat_interfac.Bus.{Bus, Env, Action, pure, ◌>>=◌}
use duatic_ethercat_interfac.Bus.Sdo.{read_sdo_untyped, sdo_read, sdo_read_string}

-- `buf[i] |= … << (8U * i)` over the bytes from position `i` on.
unfoldable pub assemble : ℕ → ℕ → List ℕ → ℕ
assemble v i [] = v
assemble v i (b ∷ bs) = assemble (bit_or v (b * 2 ^ (8 * i) % 2 ^ 64)) (suc i) bs

-- `static_cast<int64_t>` of a `uint64_t`.
abbrev pub to_int64 : ℕ → ℤ
to_int64 v = if ltb v (2 ^ 63) then pos v else negsuc (2 ^ 64 - v - 1)

-- The number that `sdo_read_odd_int` prints, of this many bytes.
unfoldable pub odd_int : ℕ → Bool → List ℕ → ℤ
unfolding assemble
odd_int bytes is_signed buf =
    let v = assemble 0 0 (take bytes buf) in
    let sign_bit = 2 ^ (bytes * 8 - 1) in
    if is_signed then to_int64 ((bit_xor v sign_bit + 2 ^ 64 - sign_bit) % 2 ^ 64) else pos v

-- A native integer by its bytes.
unfoldable pub little_endian : List ℕ → ℕ
little_endian [] = 0
little_endian (b ∷ bs) = b + 256 * little_endian bs

unfoldable pub native_int : ℕ → Bool → List ℕ → ℤ
unfolding little_endian
native_int bytes is_signed buf =
    let v = little_endian buf in
    if is_signed && leb (2 ^ (bytes * 8 - 1)) v then negsuc (2 ^ (bytes * 8) - v - 1) else pos v

-- A type `T` of `sdo_read<T>` that is a number, by its size.
pub data Number : Type 0 where
  bool_type : Number
  int_type : (bytes : ℕ) (is_signed : Bool) → Number
  real_type : (bytes : ℕ) → Number

abbrev pub size_of : Number → ℕ
size_of bool_type = 1
size_of (int_type bytes is_signed) = bytes
size_of (real_type bytes) = bytes

-- How the switch of `sdo_print_helper` reads a value.
pub data Reading : Type 0 where
  read_as : Number → Reading
  read_as_string : Reading
  read_odd_int : (bytes : ℕ) (is_signed : Bool) → Reading

abbrev pub switch_table : List (ℕ × Reading)
switch_table =
    (0x01, read_as bool_type)
    ∷ (0x02, read_as (int_type 1 true))
    ∷ (0x03, read_as (int_type 2 true))
    ∷ (0x04, read_as (int_type 4 true))
    ∷ (0x15, read_as (int_type 8 true))
    ∷ (0x05, read_as (int_type 1 false))
    ∷ (0x06, read_as (int_type 2 false))
    ∷ (0x07, read_as (int_type 4 false))
    ∷ (0x1b, read_as (int_type 8 false))
    ∷ (0x08, read_as (real_type 4))
    ∷ (0x11, read_as (real_type 8))
    ∷ (0x09, read_as_string)
    ∷ (0x10, read_odd_int 3 true)
    ∷ (0x12, read_odd_int 5 true)
    ∷ (0x13, read_odd_int 6 true)
    ∷ (0x14, read_odd_int 7 true)
    ∷ (0x16, read_odd_int 3 false)
    ∷ (0x18, read_odd_int 5 false)
    ∷ (0x19, read_odd_int 6 false)
    ∷ (0x1a, read_odd_int 7 false)
    ∷ []

abbrev pub ec_text : Option ℤ → Text
ec_text none = []
ec_text (some ec) = str " (ec: " ∷ num ec ∷ str ")" ∷ []

-- `what()`.
abbrev pub what : Error → Text
what (backend_error message backend ec) =
    str "[" ∷ str (backend_to_string backend) ∷ str "] " ∷ message ++ ec_text ec
what (device_not_found message backend) =
    str "[" ∷ str (backend_to_string backend) ∷ str "] " ∷ message
what (device_configuration_error message) = message
what (executor_error message) = message
what (runtime_error message) = message
what (invalid_argument message) = message
what (logic_error message) = message
what (foreign f) = []

-- A text that was read off the bus, and the texts of floating-point values of 4 and of 8 bytes.
pub record Texts : Type 0 where
  pub of_chars : List ℕ → Text
  pub of_real : List ℕ → Text

module _ {W F : Type 0} (env : Env W F) (texts : Texts) where
  abbrev print_number : Number → List ℕ → Text
  print_number bool_type [] = literal "false"
  print_number bool_type (b ∷ bs) = if b == 0 then literal "false" else literal "true"
  print_number (int_type bytes is_signed) buf = num (native_int bytes is_signed buf) ∷ []
  print_number (real_type bytes) buf = texts.of_real buf

  abbrev print_value : (List ℕ → Text) → Option (List ℕ) → Text
  print_value print none = literal "error"
  print_value print (some bytes) = print bytes

  unfoldable pub sdo_read_as : Number → ℕ → ℕ → ℕ → Action W F Text
  unfolding native_int
  sdo_read_as number device_id index sub_index = do
    read ← sdo_read env (size_of number) device_id index sub_index
    pure (print_value (print_number number) read.value)

  unfoldable pub sdo_read_as_string : ℕ → ℕ → ℕ → Action W F Text
  sdo_read_as_string device_id index sub_index = do
    read ← sdo_read_string env device_id index sub_index
    pure (print_value texts.of_chars read.value)

  unfoldable pub sdo_read_odd_int : ℕ → ℕ → ℕ → ℕ → Bool → Action W F Text
  unfolding odd_int
  sdo_read_odd_int device_id index sub_index bytes is_signed = do
    (result, buf) ← read_sdo_untyped env (replicate bytes 0) device_id index sub_index true
    pure (if result.success then num (odd_int bytes is_signed buf) ∷ [] else literal "error")

  -- The first byte with only its lowest bits.
  abbrev pub low_bits : ℕ → List ℕ → ℕ
  low_bits bits [] = 0
  low_bits bits (b ∷ bs) = bit_and b (2 ^ bits - 1)

  unfoldable pub sdo_read_bits : ℕ → ℕ → ℕ → ℕ → Action W F Text
  sdo_read_bits device_id index sub_index bits = do
    (result, buf) ← read_sdo_untyped env (replicate 1 0) device_id index sub_index true
    pure (if result.success then num (pos (low_bits bits buf)) ∷ [] else literal "error")

  unfoldable pub read_case : ℕ → ℕ → ℕ → Option Reading → Action W F Text
  unfolding sdo_read_as sdo_read_as_string sdo_read_odd_int
  read_case device_id index sub_index none = pure (literal "error")
  read_case device_id index sub_index (some (read_as number)) =
      sdo_read_as number device_id index sub_index
  read_case device_id index sub_index (some read_as_string) =
      sdo_read_as_string device_id index sub_index
  read_case device_id index sub_index (some (read_odd_int bytes is_signed)) =
      sdo_read_odd_int device_id index sub_index bytes is_signed

  -- `catch (const std::runtime_error& ex) { … }`
  abbrev pub caught : Result Text × Bus W F → Result Text × Bus W F
  caught (ok text, b) = (ok text, b)
  caught (err e, b) = if is_runtime_error e then (ok (str "error: " ∷ what e), b) else (err e, b)

  unfoldable pub sdo_print_helper : ℕ → ℕ → ℕ → ℕ → Action W F Text
  unfolding read_case sdo_read_bits
  sdo_print_helper device_id index sub_index sdo_data_type b = caught (
      if leb 0x30 sdo_data_type && leb sdo_data_type 0x37
      then sdo_read_bits device_id index sub_index (sdo_data_type - 0x30 + 1) b
      else read_case device_id index sub_index (find_code sdo_data_type switch_table) b)
