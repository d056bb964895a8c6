-- ===== src/Scanner.antt =====
-- The command-line tool: src/tools/bus_scanner.cpp. The parsing of the command line is a library's, so
-- the arguments come parsed; what is printed is a text.
pub mod Console
pub mod Printing
pub mod Sessions
pub mod Closing
pub mod Ending
use Prim.Native.String.{String}
use text.Mathlib.Text.{◌==◌ as str_eq}
use duatic_ethercat_interfac.Prelude.{
  ℕ, Bool, true, false, not, ◌&&◌, ◌||◌, Option, none, some, List, [], ◌∷◌, ◌++◌, if◌then◌else◌,
}
use duatic_ethercat_interfac.Prelude.Int.{ℤ, pos, negsuc}
use duatic_ethercat_interfac.Types.{
  Text, str, num, hex, literal, DeviceInfo, is_exception, Result, ok, err,
}
use duatic_ethercat_interfac.Types.Names.{
  device_info_to_string, object_code_to_string, data_type_to_string,
}
use duatic_ethercat_interfac.Soem.{Context}
use duatic_ethercat_interfac.Diagnostics.{DiagnosticsOptions, off, basic}
use duatic_ethercat_interfac.Device.{Device}
use duatic_ethercat_interfac.ObjectDictionary.{SdoEntry, SdoSubEntry}
use duatic_ethercat_interfac.Bus.{Bus, Env, Action, Parameters, make_bus}
use duatic_ethercat_interfac.Bus.Slaves.{scan}
use duatic_ethercat_interfac.Bus.Lifecycle.{initialize}
use duatic_ethercat_interfac.Bus.ReadOd.{read_od}
use duatic_ethercat_interfac.Bus.Interfaces.{Adapters, list_interfaces}
use duatic_ethercat_interfac.Bus.Owner.{destroy}
use duatic_ethercat_interfac.Scanner.Console.{
  Session, print, call, for_all, when_asked, ◌>>=◌, ◌>>◌,
}
use duatic_ethercat_interfac.Scanner.Printing.{print_info, print_device}
use duatic_ethercat_interfac.SdoPrint.{Texts, sdo_print_helper, what}

-- The command line: the number of times that an option was passed is only compared with 0.
pub record Arguments : Type 0 where
  pub help : Bool
  pub verb : Option String
  pub bus : String
  pub read : Bool

-- What the process leaves. `bus` is the bus that it has used, as the destructor has left it.
pub record Exit (W F : Type 0) : Type 0 where
  pub code : Result ℤ
  pub output : Text
  pub error_output : Text
  pub bus : Option (Bus W F)

-- `EthercatBus::Parameters{ .interface = interface }`
abbrev default_parameters : String → Parameters
default_parameters interface = record {
  interface = interface;
  pdo_buffer_size = 8192;
  block_lrw = true;
  dc_enabled = false;
  dc_cycle_time = 0;
  dc_sync0_shift = pos 0;
  master_send_offset = pos 0;
  timeout_transition_operational = 1000000000;
  diagnostics = record {
    pdo_diagnostics = basic;
    mailbox_diagnostics = basic;
    esc_diagnostics = off;
    esc_port_diagnostics = off;
  };
}

-- A function that ends in `r` and destroys its bus, where the destructor may end the program.
abbrev pub after_destroy : Result (Unit {0}) → Result (Unit {0}) → Result (Unit {0})
after_destroy (ok u) r = r
after_destroy (err e) r = err e

module _ {W F : Type 0} (env : Env W F) (texts : Texts) where
  unfoldable pub print_count : ℤ → Session W F (Unit {0})
  print_count device_count =
      print (str "found: " ∷ num device_count ∷ str " devices on the bus\n" ∷ [])

  -- What follows the initialization, with what is done for each device.
  unfoldable pub report_devices : (DeviceInfo → Session W F (Unit {0})) → ℤ → Session W F (Unit {0})
  unfolding print_count
  report_devices report device_count = do
    print_count device_count
    devices ← call scan
    for_all devices report

  -- The body of `handle_scan`, with the bus constructed.
  unfoldable pub scan_session : String → Session W F (Unit {0})
  unfolding report_devices print_info
  scan_session interface = do
    print (str "scanning bus: " ∷ str interface ∷ str " for devices\n" ∷ [])
    device_count ← call (initialize env)
    report_devices print_info device_count

  -- The body of `handle_sdo`.
  unfoldable pub sdo_session : Bool → Session W F (Unit {0})
  unfolding print_device report_devices
  sdo_session read_sdos = do
    device_count ← call (initialize env)
    report_devices (print_device env texts read_sdos) device_count

  -- A function with a bus of its own, which is destroyed however the function ends.
  unfoldable pub with_bus :
      String
      → Context W
      → (ℕ → Device)
      → Session W F (Unit {0})
      → Result (Unit {0}) × (Bus W F × Text)
  with_bus interface context store session =
      let (r, (b, out)) =
        session (make_bus env.double (default_parameters interface) context store, []) in
      let (destroyed, b') = destroy env b in (after_destroy destroyed r, (b', out))

  print_names : List String → Text
  print_names [] = []
  print_names (name ∷ names) = str "  " ∷ str name ∷ str "\n" ∷ print_names names

  unfoldable pub listing : Result (List String) → Result (Unit {0}) × Text
  unfolding print_names
  listing (ok names) = (ok tt, str "Available buses:\n" ∷ print_names names)
  listing (err e) = (err e, literal "Available buses:\n")

  unfoldable pub handle_list_interfaces : Adapters W → W → Result (Unit {0}) × Text
  unfolding list_interfaces listing
  handle_list_interfaces adapters w = let (r, w') = list_interfaces adapters w in listing r

  unfoldable pub handle_scan :
      String → Context W → (ℕ → Device) → Result (Unit {0}) × (Bus W F × Text)
  unfolding with_bus scan_session
  handle_scan interface context store = with_bus interface context store (scan_session interface)

  unfoldable pub handle_sdo :
      String → Bool → Context W → (ℕ → Device) → Result (Unit {0}) × (Bus W F × Text)
  unfolding with_bus sdo_session
  handle_sdo interface read_sdos context store =
      with_bus interface context store (sdo_session read_sdos)

module _ {W F : Type 0} where
  -- `return 0` and the `catch` block.
  abbrev pub exit_code : Result (Unit {0}) → Text → Option (Bus W F) → Exit W F
  exit_code (ok u) out bus = record {
    code = ok (pos 0);
    output = out;
    error_output = [];
    bus = bus;
  }
  exit_code (err e) out bus = record {
    code = if is_exception e then ok (negsuc 1) else err e;
    output = out;
    error_output = if is_exception e then str "Error: " ∷ what e ++ literal "\n" else [];
    bus = bus;
  }

  abbrev pub stop_with : ℤ → Text → Exit W F
  stop_with code out = record { code = ok code; output = out; error_output = []; bus = none }

module _ {W F : Type 0} (env : Env W F) (texts : Texts) (adapters : Adapters W) (help : Text) where
  -- What follows the check of the verb.
  unfoldable pub run_verb : Arguments → String → Context W → (ℕ → Device) → Exit W F
  unfolding handle_list_interfaces handle_scan handle_sdo
  run_verb args verb context store =
      if str_eq verb "list_interfaces"
      then (let (r, out) = handle_list_interfaces env texts adapters context.world in
          exit_code r out none)
      else if str_eq verb "scan"
      then (let (r, (b, out)) = handle_scan env texts args.bus context store in
          exit_code r out (some b))
      else if str_eq verb "sdo"
      then (let (r, (b, out)) = handle_sdo env texts args.bus args.read context store in
          exit_code r out (some b))
      else stop_with (pos 0) []

  abbrev pub is_verb : String → Bool
  is_verb verb = str_eq verb "scan" || str_eq verb "list_interfaces" || str_eq verb "sdo"

  unfoldable pub check_verb : Arguments → Option String → Context W → (ℕ → Device) → Exit W F
  unfolding run_verb
  check_verb args none context store = stop_with (pos 0) (help ++ literal "\n")
  check_verb args (some verb) context store =
      if args.help
      then stop_with (pos 0) (help ++ literal "\n")
      else if is_verb verb
      then run_verb args verb context store
      else stop_with (negsuc 0) (literal "Please pass a valid action\n" ++ help ++ literal "\n")

  -- The parser, which is called outside of the `try` block, returns the arguments or throws.
  unfoldable pub main : Result Arguments → Context W → (ℕ → Device) → Exit W F
  unfolding check_verb
  main (ok args) context store = check_verb args args.verb context store
  main (err e) context store = record { code = err e; output = []; error_output = []; bus = none }
