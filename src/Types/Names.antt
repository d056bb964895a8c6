-- ===== src/Types/Names.antt =====
-- The texts of the enumerations, and of a `DeviceInfo`, of include/duatic_ethercat_interface/types.hpp, backend.hpp and
-- internal/soem/bus_state.hpp. An `SDOObjectCode` or a `DataType` that was read off a device can be any
-- code.
pub mod Distinct
use Prim.Native.String.{String}
use duatic_ethercat_interfac.Prelude.{
  ℕ, Bool, true, false, Option, none, some, List, [], ◌∷◌, ◌==◌, if◌then◌else◌,
}
use duatic_ethercat_interfac.Prelude.Int.{pos}
use duatic_ethercat_interfac.Types.{
  Text, literal, str, num, upper_hex, DeviceInfo, Backend, unknown, soem, etherlab,
  EthercatDeviceState, none_state, init, pre_op, boot, safe_op, BusState, pre_init, initialized,
  configured, activated, shutting_down, shut_down,
}

-- `switch (code)`, as a table of its cases.
unfoldable pub find_code {ℓ} : {A : Type ℓ} → ℕ → List (ℕ × A) → Option A
find_code code [] = none
find_code code ((c, a) ∷ cases) = if code == c then some a else find_code code cases

abbrev pub backend_to_string : Backend → String
backend_to_string Backend.unknown = "Unknown"
backend_to_string soem = "SOEM"
backend_to_string etherlab = "Etherlab"

abbrev pub device_state_to_string : EthercatDeviceState → String
device_state_to_string none_state = "None"
device_state_to_string init = "Init"
device_state_to_string pre_op = "PreOp"
device_state_to_string boot = "Boot"
device_state_to_string safe_op = "SafeOp"
device_state_to_string EthercatDeviceState.operational = "Operational"

-- `operator<<` of a bus state.
abbrev pub bus_state_to_string : BusState → String
bus_state_to_string pre_init = "PreInit"
bus_state_to_string initialized = "Initialized"
bus_state_to_string configured = "Configured"
bus_state_to_string activated = "Activated"
bus_state_to_string BusState.operational = "Operational"
bus_state_to_string shutting_down = "ShuttingDown"
bus_state_to_string shut_down = "Shutdown"

-- `std::boolalpha`
abbrev pub bool_to_string : Bool → String
bool_to_string true = "true"
bool_to_string false = "false"

abbrev pub device_info_to_string : DeviceInfo → Text
device_info_to_string device =
    str "DeviceInfo{\n  id: "
    ∷ num (pos device.id)
    ∷ str ",\n  name: \""
    ∷ str device.name
    ∷ str "\",\n  vendor_id: 0x"
    ∷ upper_hex device.vendor_id
    ∷ str ",\n  product_id: 0x"
    ∷ upper_hex device.product_id
    ∷ str ",\n  revision: 0x"
    ∷ upper_hex device.revision
    ∷ str ",\n  has_dc: "
    ∷ str (bool_to_string device.has_dc)
    ∷ str "\n}"
    ∷ []

-- The name of a code, or the code itself.
abbrev pub name_or_code : ℕ → Option String → Text
name_or_code code none = str "Invalid (" ∷ num (pos code) ∷ str ")" ∷ []
name_or_code code (some name) = literal name

abbrev pub object_code_names : List (ℕ × String)
object_code_names = (0x07, "Var") ∷ (0x08, "Array") ∷ (0x09, "Record") ∷ []

unfoldable pub object_code_to_string : ℕ → Text
unfolding find_code
object_code_to_string code = name_or_code code (find_code code object_code_names)

abbrev pub data_type_names : List (ℕ × String)
data_type_names =
    (0x00, "UNKNOWN")
    ∷ (0x01, "BOOLEAN")
    ∷ (0x02, "INTEGER8")
    ∷ (0x03, "INTEGER16")
    ∷ (0x04, "INTEGER32")
    ∷ (0x05, "UNSIGNED8")
    ∷ (0x06, "UNSIGNED16")
    ∷ (0x07, "UNSIGNED32")
    ∷ (0x08, "REAL32")
    ∷ (0x09, "VISIBLE_STRING")
    ∷ (0x0a, "OCTET_STRING")
    ∷ (0x0b, "UNICODE_STRING")
    ∷ (0x0c, "TIME_OF_DAY")
    ∷ (0x0d, "TIME_DIFFERENCE")
    ∷ (0x0f, "DOMAIN")
    ∷ (0x10, "INTEGER24")
    ∷ (0x11, "REAL64")
    ∷ (0x12, "INTEGER40")
    ∷ (0x13, "INTEGER48")
    ∷ (0x14, "INTEGER56")
    ∷ (0x15, "INTEGER64")
    ∷ (0x16, "UNSIGNED24")
    ∷ (0x18, "UNSIGNED40")
    ∷ (0x19, "UNSIGNED48")
    ∷ (0x1a, "UNSIGNED56")
    ∷ (0x1b, "UNSIGNED64")
    ∷ (0x30, "BIT1")
    ∷ (0x31, "BIT2")
    ∷ (0x32, "BIT3")
    ∷ (0x33, "BIT4")
    ∷ (0x34, "BIT5")
    ∷ (0x35, "BIT6")
    ∷ (0x36, "BIT7")
    ∷ (0x37, "BIT8")
    ∷ []

unfoldable pub data_type_to_string : ℕ → Text
unfolding find_code
data_type_to_string code = name_or_code code (find_code code data_type_names)
