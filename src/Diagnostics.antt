-- ===== src/Diagnostics.antt =====
-- The data of include/duatic_ethercat_interface/bus_diagnostics.hpp. A `uint64_t` counter wraps at
-- 2 ^ 64. The executor's share of a snapshot is added by the executor and is not part of these.
use duatic_ethercat_interfac.Prelude.{ℕ, ◌+◌, ◌%◌, ◌^◌, Bool, false, true, List, [], ◌∷◌}
use duatic_ethercat_interfac.Prelude.Int.{ℤ, pos}
use duatic_ethercat_interfac.Types.{EthercatDeviceState, none_state}

pub data DiagnosticsLevel : Type 0 where
  off basic tracing : DiagnosticsLevel

pub record DiagnosticsOptions : Type 0 where
  pub pdo_diagnostics : DiagnosticsLevel
  pub mailbox_diagnostics : DiagnosticsLevel
  pub esc_diagnostics : DiagnosticsLevel
  pub esc_port_diagnostics : DiagnosticsLevel

abbrev pub is_diagnostics_enabled : DiagnosticsLevel → Bool
is_diagnostics_enabled off = false
is_diagnostics_enabled _ = true

pub record EscPortHealth : Type 0 where
  pub link_up : Bool
  pub invalid_frames : ℕ
  pub rx_errors : ℕ
  pub lost_links : ℕ

abbrev pub quiet_port : EscPortHealth
quiet_port = record { link_up = false; invalid_frames = 0; rx_errors = 0; lost_links = 0 }

pub record DeviceTopology : Type 0 where
  pub parent : ℕ
  pub parent_port : ℕ
  pub entry_port : ℕ
  pub active_ports : List Bool
  pub propagation_delay_ns : ℤ
  pub dc_next : ℕ
  pub dc_previous : ℕ
  pub dc_port_receive_time_ns : List ℤ

pub record EscStatus : Type 0 where
  pub position : ℕ
  pub state : EthercatDeviceState
  pub al_status : ℕ
  pub online : Bool
  pub ports : List EscPortHealth
  pub ports_update_timestamp : ℕ
  pub topology : DeviceTopology

-- `ESCStatus{}`.
abbrev pub default_esc_status : EscStatus
default_esc_status = record {
  position = 0;
  state = none_state;
  al_status = 0;
  online = false;
  ports = quiet_port ∷ quiet_port ∷ quiet_port ∷ quiet_port ∷ [];
  ports_update_timestamp = 0;
  topology = record {
    parent = 0;
    parent_port = 0;
    entry_port = 0;
    active_ports = false ∷ false ∷ false ∷ false ∷ [];
    propagation_delay_ns = pos 0;
    dc_next = 0;
    dc_previous = 0;
    dc_port_receive_time_ns = pos 0 ∷ pos 0 ∷ pos 0 ∷ pos 0 ∷ [];
  };
}

pub record BusStatus : Type 0 where
  pub link_up : Bool
  pub frames_sent : ℕ
  pub frames_lost : ℕ
  pub wkc_mismatches : ℕ

pub record MailboxStatus : Type 0 where
  pub mailbox_aborts : ℕ
  pub mailbox_timeouts : ℕ
  pub mailbox_emergencies : ℕ

pub record DiagnosticsSnapshot : Type 0 where
  pub bus : BusStatus
  pub slaves : List EscStatus
  pub mailbox : MailboxStatus
  pub timestamp : ℕ

abbrev pub zero_mailbox_status : MailboxStatus
zero_mailbox_status = record { mailbox_aborts = 0; mailbox_timeouts = 0; mailbox_emergencies = 0 }

abbrev pub empty_snapshot : DiagnosticsSnapshot
empty_snapshot = record {
  bus = record { link_up = true; frames_sent = 0; frames_lost = 0; wkc_mismatches = 0 };
  slaves = [];
  mailbox = zero_mailbox_status;
  timestamp = 0;
}

-- `counter += 1` on a `uint64_t`.
abbrev pub bump : ℕ → ℕ
bump n = (n + 1) % 2 ^ 64
