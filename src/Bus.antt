-- ===== src/Bus.antt =====
-- The state of `EthercatBus::BackendImpl` (src/internal/soem/soem_backend.cpp), and the actions on it:
-- a call either returns a value or throws, and leaves the state that it has made so far.
-- Locks are not part of the state: each call runs as if alone, and a `try_lock` asks the parameter.
pub mod Keeps
pub mod Returns
pub mod StateMachine
pub mod MailboxAccess
pub mod Slaves
pub mod DeviceStates
pub mod Diagnosing
pub mod Pdo
pub mod Lifecycle
pub mod Startup
pub mod Update
pub mod Sdo
pub mod Foe
pub mod Registers
pub mod ReadOd
pub mod Throws
pub mod Interfaces
pub mod Owner
use Prim.Native.String.{String}
use duatic_ethercat_interfac.Prelude.{
  ℕ, ◌%◌, ◌^◌, Bool, false, Option, none, List, [], ◌∷◌, ◌==◌, ◌&&◌, ◌||◌, ltb, leb, if◌then◌else◌,
  range_from,
}
use duatic_ethercat_interfac.Prelude.Int.{ℤ, pos}
use duatic_ethercat_interfac.Types.{
  BusState, pre_init, initialized, configured, activated, shutting_down, shut_down, Error,
  backend_error, soem, Result, ok, err, Text, literal, str, num,
}
use duatic_ethercat_interfac.Soem.{Soem, Context}
use duatic_ethercat_interfac.Diagnostics.{
  DiagnosticsOptions, DiagnosticsSnapshot, MailboxStatus, empty_snapshot, zero_mailbox_status,
}
use duatic_ethercat_interfac.DcSync.{Double, DcSyncController, make_dc_sync}
use duatic_ethercat_interfac.Device.{Device}

-- `EthercatBus::Parameters`; durations are nanoseconds.
pub record Parameters : Type 0 where
  pub interface : String
  pub pdo_buffer_size : ℕ
  pub block_lrw : Bool
  pub dc_enabled : Bool
  pub dc_cycle_time : ℕ
  pub dc_sync0_shift : ℤ
  pub master_send_offset : ℤ
  pub timeout_transition_operational : ℕ
  pub diagnostics : DiagnosticsOptions

-- The devices are shared with the user, so they live in a store under their ids; `devices` is the
-- list of the shared pointers that the backend holds.
pub record Bus (W F : Type 0) : Type 0 where
  pub params : Parameters
  pub context : Context W
  pub io_map : List ℕ
  pub state : BusState
  pub activation_start_tp : Option ℕ
  pub devices : List ℕ
  pub store : ℕ → Device
  pub mailbox_status : MailboxStatus
  pub dc_sync : DcSyncController F
  pub latest_diagnostics : DiagnosticsSnapshot
  pub current_selected_diagnostics_slave : ℕ

-- The constructor of `BackendImpl`, over an untouched context.
abbrev pub make_bus : {W F : Type 0} → Double F → Parameters → Context W → (ℕ → Device) → Bus W F
make_bus double params context store = record {
  params = params;
  context = context;
  io_map = [];
  state = pre_init;
  activation_start_tp = none;
  devices = [];
  store = store;
  mailbox_status = zero_mailbox_status;
  dc_sync = make_dc_sync double params.dc_cycle_time params.master_send_offset;
  latest_diagnostics = empty_snapshot;
  current_selected_diagnostics_slave = 0;
}

abbrev pub Action : Type 0 → Type 0 → Type 0 → Type 0
Action W F A = Bus W F → Result A × Bus W F

-- What the backend does not implement: SOEM, `double`, and the callbacks that users register.
pub record Env (W F : Type 0) : Type 0 where
  pub soem : Soem W
  pub double : Double F
  pub callback : ℕ → Bus W F → Result (Unit {0}) × Bus W F

-- The combinators are shut; opening `◌>>=◌` opens them all.
module _ {W F : Type 0} where
  unfoldable pub pure : {A : Type 0} → A → Action W F A
  pure a b = (ok a, b)

  unfoldable pub throw : {A : Type 0} → Error → Action W F A
  throw e b = (err e, b)

  unfoldable pub gets : {A : Type 0} → (Bus W F → A) → Action W F A
  gets f b = (ok (f b), b)

  unfoldable pub modify : (Bus W F → Bus W F) → Action W F (Unit {0})
  modify f b = (ok tt, f b)

  unfoldable pub throw_if : Bool → Error → Action W F (Unit {0})
  throw_if c e b = (if c then err e else ok tt, b)

  -- The body of an `if` with no `else`.
  unfoldable pub when : Bool → Action W F (Unit {0}) → Action W F (Unit {0})
  when c m b = if c then m b else (ok tt, b)

  -- A call on the SOEM context.
  unfoldable pub on_context : {A : Type 0} → (Context W → A × Context W) → Action W F A
  on_context f b = let (a, c) = f b.context in (ok a, record b { context = c })

  unfoldable pub set_state : BusState → Action W F (Unit {0})
  set_state s b = (ok tt, record b { state = s })

  abbrev pub continue :
      {A B : Type 0} → Result A → (A → Action W F B) → Bus W F → Result B × Bus W F
  continue (ok a) f b = f a b
  continue (err e) f b = (err e, b)

  infixl 5 ◌>>=◌ ◌>>◌
  unfoldable pub ◌>>=◌ : {A B : Type 0} → Action W F A → (A → Action W F B) → Action W F B
  unfolding pure throw gets modify throw_if when on_context set_state
  ◌>>=◌ m f b = let (r, b') = m b in continue r f b'

  abbrev pub ◌>>◌ : {A B : Type 0} → Action W F A → Action W F B → Action W F B
  m >> k = m >>= λ _. k

  -- `for (auto& x : xs)`.
  unfoldable pub for_each :
      {A : Type 0} → List A → (A → Action W F (Unit {0})) → Action W F (Unit {0})
  for_each [] f = pure tt
  for_each (x ∷ xs) f = f x >> for_each xs f

abbrev pub soem_error : String → Error
soem_error message = backend_error (literal message) soem none

-- Bus states in the order of the enumeration.
abbrev pub rank : BusState → ℕ
rank pre_init = 0
rank initialized = 1
rank configured = 2
rank activated = 3
rank BusState.operational = 4
rank shutting_down = 5
rank shut_down = 6

-- `get_bus_state() == s`
abbrev pub is_in : {W F : Type 0} → BusState → Bus W F → Bool
is_in s b = rank b.state == rank s

-- `id > 0 && id <= get_device_count()`
abbrev pub has_device_on_bus : {W F : Type 0} → ℕ → Bus W F → Bool
has_device_on_bus id b = ltb 0 id && leb id b.context.slavecount

abbrev pub contains : ℕ → List ℕ → Bool
contains id [] = false
contains id (x ∷ xs) = x == id || contains id xs

-- `has_device`: the backend manages the device.
abbrev pub has_device : {W F : Type 0} → ℕ → Bus W F → Bool
has_device id b = contains id b.devices

-- The message of `DeviceNotFound` for an id.
abbrev pub device_not_on_bus : ℕ → Text
device_not_on_bus id = str "Device with id: " ∷ num (pos id) ∷ str " not found on the bus" ∷ []

-- The slave ids that a loop `for (uint16_t i = 1; i <= uint16_t(count); i++)` visits.
abbrev pub slave_ids : {W F : Type 0} → Bus W F → List ℕ
slave_ids b = range_from 1 (b.context.slavecount % 2 ^ 16)
