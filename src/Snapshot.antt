-- ===== src/Snapshot.antt =====
-- The text of a diagnostics snapshot: src/bus_diagnostics.cpp, and the `to_string` of an `AlStatus` in
-- src/internal/soem/soem_backend.cpp. The text of a floating-point value is a parameter.
pub mod Ports
use Prim.Native.String.{String}
use duatic_ethercat_interfac.Prelude.{
  ℕ, suc, Bool, true, false, not, ◌&&◌, ◌||◌, Option, none, some, List, [], ◌∷◌, ◌++◌, length, ◌==◌,
  if◌then◌else◌,
}
use duatic_ethercat_interfac.Prelude.Int.{ℤ, pos, eqb_ℤ}
use duatic_ethercat_interfac.Types.{Text, literal, str, num, padded, padded_hex, padded_str}
use duatic_ethercat_interfac.Types.Names.{device_state_to_string}
use duatic_ethercat_interfac.Diagnostics.{
  EscPortHealth, DeviceTopology, EscStatus, DiagnosticsSnapshot,
}
use duatic_ethercat_interfac.Executor.{ExecutorTimingDiagnostics, ExecutionStatus}

-- SOEM's texts of AL status codes, and `std::fixed` with six digits.
pub record Formats (F : Type 0) : Type 0 where
  pub ec_ALstatuscode2string : ℕ → String
  pub fixed : F → Text

abbrev count : ℕ → Text
count n = num (pos n) ∷ []

abbrev yes_or_no : Bool → String
yes_or_no true = "yes"
yes_or_no false = "no"

abbrev line : String → Text → Text
line label text = str label ∷ text ++ literal "\n"

abbrev missed_line : Option ℕ → Text
missed_line none = []
missed_line (some n) = line "    missed rate steps: " (count n)

abbrev delay_line : Option ℤ → Text
delay_line none = []
delay_line (some d) = line "    accumulated delay: " (num d ∷ str " ns" ∷ [])

-- A port that is down and has no errors.
abbrev pub is_quiet : EscPortHealth → Bool
is_quiet port =
    not port.link_up && port.invalid_frames == 0 && port.rx_errors == 0 && port.lost_links == 0

abbrev pub print_port : ℕ → EscPortHealth → Text
print_port p port =
    str "          port "
    ∷ num (pos p)
    ∷ str ": "
    ∷ str (if port.link_up then "up  " else "down")
    ∷ str "  invalid="
    ∷ num (pos port.invalid_frames)
    ∷ str "  rx_err="
    ∷ num (pos port.rx_errors)
    ∷ str "  lost_links="
    ∷ num (pos port.lost_links)
    ∷ str "\n"
    ∷ []

-- The loop over the ports from `p` on.
unfoldable pub print_ports : ℕ → List EscPortHealth → Text
print_ports p [] = []
print_ports p (port ∷ ports) =
    (if is_quiet port then [] else print_port p port) ++ print_ports (suc p) ports

abbrev pub separator : Text → Text
separator [] = []
separator (x ∷ xs) = literal ","

-- The loop that adds to `active_ports_list`.
unfoldable pub list_active : Text → ℕ → List Bool → Text
list_active active_ports_list p [] = active_ports_list
list_active active_ports_list p (active ∷ ports) =
    list_active
      (if active
        then active_ports_list ++ (separator active_ports_list ++ count p)
        else active_ports_list)
      (suc p) ports

unfoldable pub any_dc_receive_time : List ℤ → Bool
any_dc_receive_time [] = false
any_dc_receive_time (t ∷ ts) = not (eqb_ℤ t (pos 0)) || any_dc_receive_time ts

unfoldable pub print_receive_times : ℕ → List ℤ → Text
print_receive_times p [] = literal "\n"
print_receive_times p (t ∷ ts) =
    str "  port " ∷ num (pos p) ∷ str "=" ∷ num t ∷ print_receive_times (suc p) ts

unfoldable pub print_topology : DeviceTopology → Text
unfolding list_active any_dc_receive_time print_receive_times
print_topology t =
    (str "        topology: parent="
      ∷ num (pos t.parent)
      ∷ str " (port "
      ∷ num (pos t.parent_port)
      ∷ str " -> entry port "
      ∷ num (pos t.entry_port)
      ∷ str ")  active_ports=["
      ∷ list_active [] 0 t.active_ports)
    ++ line "]  propagation_delay=" (num t.propagation_delay_ns ∷ str " ns" ∷ [])
    ++ line "        dc chain: next="
        (num (pos t.dc_next) ∷ str "  previous=" ∷ num (pos t.dc_previous) ∷ [])
    ++ (if any_dc_receive_time t.dc_port_receive_time_ns
        then str "        dc port receive times [ns]:"
          ∷ print_receive_times 0 t.dc_port_receive_time_ns
        else [])

module _ {F : Type 0} (formats : Formats F) where
  unfoldable pub print_timing : String → ExecutorTimingDiagnostics F → Text
  print_timing label t =
      line "  " (str label ∷ str ":" ∷ [])
      ++ line "    last update:       " (num (pos t.last_update_tp) ∷ str " ns (monotonic)" ∷ [])
      ++ line "    last update rate:  " (num t.last_update_rate ∷ str " us" ∷ [])
      ++ line "    last duration:     " (num t.last_update_duration ∷ str " us" ∷ [])
      ++ line "    avg update rate:   " (formats.fixed t.average_update_rate ++ literal " Hz")
      ++ line "    avg duration:      " (formats.fixed t.average_update_duration ++ literal " us")
      ++ line "    running:           " (literal (yes_or_no t.is_running))
      ++ missed_line t.missed_rate_steps
      ++ delay_line t.accumulated_delay

  unfoldable pub print_slave : EscStatus → Text
  unfolding print_ports print_topology
  print_slave s =
      (str "  ["
        ∷ padded 2 s.position
        ∷ str "] "
        ∷ padded_str 11 (device_state_to_string s.state)
        ∷ str " | "
        ∷ str (if s.online then "online " else "OFFLINE")
        ∷ str " | AL 0x"
        ∷ padded_hex 4 s.al_status
        ∷ str " ("
        ∷ str (formats.ec_ALstatuscode2string s.al_status)
        ∷ str ")\n        ports (updated "
        ∷ num (pos s.ports_update_timestamp)
        ∷ str " ns):\n"
        ∷ print_ports 0 s.ports)
      ++ print_topology s.topology

  unfoldable pub print_slaves : List EscStatus → Text
  unfolding print_slave
  print_slaves [] = []
  print_slaves (s ∷ slaves) = print_slave s ++ print_slaves slaves

  unfoldable pub print_executor : Option (ExecutionStatus F) → Text
  unfolding print_timing
  print_executor none = []
  print_executor (some e) =
      literal "\n-- Executor --\n"
      ++ line "  spinning: " (literal (yes_or_no e.is_spinning))
      ++ print_timing "rt thread" e.rt_thread_stats
      ++ print_timing "service thread" e.service_thread_stats

  -- `to_string` of a snapshot and of the executor's share of it.
  unfoldable pub snapshot_to_string : DiagnosticsSnapshot → Option (ExecutionStatus F) → Text
  unfolding print_slaves print_executor
  snapshot_to_string snap executor =
      literal "=== EtherCAT Diagnostics ===\n"
      ++ line "snapshot timestamp: " (num (pos snap.timestamp) ∷ str " ns (monotonic)" ∷ [])
      ++ literal "\n-- Bus --\n"
      ++ line "  master link:    " (literal (if snap.bus.link_up then "up" else "down"))
      ++ line "  frames sent:    " (count snap.bus.frames_sent)
      ++ line "  frames lost:    " (count snap.bus.frames_lost)
      ++ line "  wkc mismatches: " (count snap.bus.wkc_mismatches)
      ++ literal "\n-- Mailbox --\n"
      ++ line "  aborts:      " (count snap.mailbox.mailbox_aborts)
      ++ line "  timeouts:    " (count snap.mailbox.mailbox_timeouts)
      ++ line "  emergencies: " (count snap.mailbox.mailbox_emergencies)
      ++ line "\n-- Slaves (" (num (pos (length snap.slaves)) ∷ str ") --" ∷ [])
      ++ print_slaves snap.slaves
      ++ print_executor executor
