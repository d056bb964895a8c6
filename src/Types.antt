-- ===== src/Types.antt =====
-- The types of include/duatic_ethercat_interface/types.hpp, backend.hpp, exceptions.hpp and
-- internal/soem/bus_state.hpp. A `uint16_t`, `uint8_t` or `uint32_t` is a number, an `int` an
-- integer, a time point the nanoseconds since the clock's epoch, a byte span a list of numbers.
pub mod Names
use Prim.Native.String.{String}
use duatic_ethercat_interfac.Prelude.{
  ℕ, Bool, false, true, Option, none, some, List, [], ◌∷◌, ◌&&◌, not, ◌==◌,
}
use duatic_ethercat_interfac.Prelude.Int.{ℤ}

-- A text that the source puts together: literals, numbers in decimal or, as `std::hex` prints them, with
-- lower or upper case letters, and what is filled up to a width: numbers with spaces, hexadecimal ones
-- with zeros, texts with spaces on their right.
pub data Piece : Type 0 where
  str : String → Piece
  num : ℤ → Piece
  hex upper_hex : ℕ → Piece
  padded padded_hex : (width value : ℕ) → Piece
  padded_str : (width : ℕ) → String → Piece

abbrev pub Text : Type 0
Text = List Piece

abbrev pub literal : String → Text
literal s = str s ∷ []

pub record DeviceInfo : Type 0 where
  pub id : ℕ
  pub name : String
  pub vendor_id : ℕ
  pub product_id : ℕ
  pub revision : ℕ
  pub has_dc : Bool

pub data EthercatDeviceState : Type 0 where
  none_state init pre_op boot safe_op operational : EthercatDeviceState

pub data BusState : Type 0 where
  pre_init initialized configured activated operational shutting_down shut_down : BusState

-- `canopen` is CoE, CANopen over EtherCAT.
pub data MailboxProtocol : Type 0 where
  unknown canopen foe soe eoe voe : MailboxProtocol

pub data MailboxEventKind : Type 0 where
  unknown abort emergency protocol_violation mailbox_layer_error : MailboxEventKind
  timeout buffer_too_small not_found : MailboxEventKind

pub data MailboxEventSeverity : Type 0 where
  info warning error : MailboxEventSeverity

pub record EmergencyInfo : Type 0 where
  pub code : ℕ
  pub error_register : ℕ
  pub bytes : List ℕ

abbrev pub is_reset : EmergencyInfo → Bool
is_reset e = e.code == 0

pub record MailboxEvent : Type 0 where
  pub timestamp : ℕ
  pub device_id : ℕ
  pub protocol : MailboxProtocol
  pub kind : MailboxEventKind
  pub severity : MailboxEventSeverity
  pub code : ℕ
  pub index : Option ℕ
  pub sub_index : Option ℕ
  pub emergency : Option EmergencyInfo
  pub description : Text

abbrev pub is_emergency : MailboxEventKind → Bool
is_emergency MailboxEventKind.emergency = true
is_emergency _ = false

abbrev carries_fault : Option EmergencyInfo → Bool
carries_fault none = false
carries_fault (some e) = not (is_reset e)

unfoldable pub is_device_fault : MailboxEvent → Bool
is_device_fault ev = is_emergency ev.kind && carries_fault ev.emergency

pub record SdoReadResult : Type 0 where
  pub success : Bool
  pub actual_size_read : ℤ
  pub working_counter : ℤ
  pub mailbox_diagnostics : Option MailboxEvent

pub record SdoWriteResult : Type 0 where
  pub success : Bool
  pub working_counter : ℤ
  pub mailbox_diagnostics : Option MailboxEvent

pub record FoeWriteResult : Type 0 where
  pub success : Bool
  pub working_counter : ℤ
  pub mailbox_diagnostics : Option MailboxEvent

pub record FoeReadResult : Type 0 where
  pub success : Bool
  pub working_counter : ℤ
  pub actual_read_size : ℕ
  pub mailbox_diagnostics : Option MailboxEvent

pub record RegisterWriteResult : Type 0 where
  pub success : Bool
  pub working_counter : ℤ

pub record RegisterReadResult : Type 0 where
  pub success : Bool
  pub working_counter : ℤ
  pub actual_size_read : ℕ
  pub bytes : List ℕ

pub data Backend : Type 0 where
  unknown soem etherlab : Backend

-- What the code throws. `runtime_error` is a `std::runtime_error` itself, `foreign` an exception of a
-- callback that the user registered.
pub data Error : Type 0 where
  backend_error : Text → Backend → Option ℤ → Error
  device_not_found : Text → Backend → Error
  device_configuration_error : Text → Error
  executor_error : Text → Error
  runtime_error : Text → Error
  invalid_argument : Text → Error
  logic_error : Text → Error
  foreign : ℕ → Error

-- `std::runtime_error` and what derives from it.
abbrev pub is_runtime_error : Error → Bool
is_runtime_error (backend_error message backend ec) = true
is_runtime_error (device_not_found message backend) = true
is_runtime_error (device_configuration_error message) = true
is_runtime_error (executor_error message) = true
is_runtime_error (runtime_error message) = true
is_runtime_error (invalid_argument message) = false
is_runtime_error (logic_error message) = false
is_runtime_error (foreign f) = false

pub data Result {ℓ} (A : Type ℓ) : Type ℓ where
  ok : A → Result A
  err : Error → Result A

-- A call that returned a value with this property; one that threw has none.
abbrev pub Returned : {A : Type 0} → (A → Type 0) → Result A → Type 0
Returned P (ok a) = P a
Returned P (err e) = ⊥

-- `std::exception` and what derives from it.
abbrev pub is_exception : Error → Bool
is_exception (foreign f) = false
is_exception _ = true
