-- ===== src/Mailbox.antt =====
-- internal/soem/mailbox.hpp: the event for an entry of SOEM's error list, for a missing answer and
-- for a failed file transfer. `now` is what `HighPrecisionClock::now()` returned.
pub mod Attribution
use duatic_ethercat_interfac.Prelude.{
  ℕ, ◌+◌, ◌-◌, ◌/◌, ◌%◌, ◌^◌, Option, none, some, [], ◌∷◌, ◌==◌, ◌||◌, if◌then◌else◌,
}
use duatic_ethercat_interfac.Prelude.Int.{ℤ, pos, neg, pos_part, neg_part, eqb_ℤ}
use duatic_ethercat_interfac.Types.{
  str, num, literal, MailboxProtocol, canopen, foe, soe, eoe, MailboxEventKind, abort,
  protocol_violation, mailbox_layer_error, timeout, buffer_too_small, not_found,
  MailboxEventSeverity, info, EmergencyInfo, is_reset, MailboxEvent,
}
use duatic_ethercat_interfac.Soem.{EcError, Soem}

pub record MailboxAccess : Type 0 where
  pub device_id : ℕ
  pub protocol : MailboxProtocol
  pub index : Option ℕ
  pub sub_index : Option ℕ

-- `MailboxEvent ev{}` with its device and time.
abbrev pub fresh_event : ℕ → ℕ → MailboxEvent
fresh_event now device_id = record {
  timestamp = now;
  device_id = device_id;
  protocol = MailboxProtocol.unknown;
  kind = MailboxEventKind.unknown;
  severity = MailboxEventSeverity.error;
  code = 0;
  index = none;
  sub_index = none;
  emergency = none;
  description = [];
}

pub emergency_info : EcError → EmergencyInfo
emergency_info e = record {
  code = e.error_code;
  error_register = e.error_reg;
  bytes = e.b1 ∷ (e.w1 % 256) ∷ (e.w1 / 256 % 256) ∷ (e.w2 % 256) ∷ (e.w2 / 256 % 256) ∷ [];
}

module _ {W : Type 0} (soem : Soem W) where
  -- An SDO or SDO information abort.
  pub sdo_abort_event : EcError → MailboxEvent → MailboxEvent
  sdo_abort_event e ev = record ev {
    protocol = canopen;
    kind = abort;
    code = e.abort_code % 2 ^ 32;
    index = some (e.index % 2 ^ 16);
    sub_index = some (e.sub_idx % 2 ^ 8);
    description = literal (soem.ec_sdoerror2string (e.abort_code % 2 ^ 32));
  }

  pub emergency_event : EcError → MailboxEvent → MailboxEvent
  unfolding emergency_info
  emergency_event e ev =
      let emcy = emergency_info e in
      record ev {
        protocol = canopen;
        kind = MailboxEventKind.emergency;
        code = e.error_code;
        severity = if is_reset emcy then info else MailboxEventSeverity.error;
        description = literal (if is_reset emcy then "Emergency cleared" else "Device emergency");
        emergency = some emcy;
      }

  pub soe_event : EcError → MailboxEvent → MailboxEvent
  soe_event e ev = record ev {
    protocol = soe;
    kind = abort;
    code = e.error_code;
    index = some (e.index % 2 ^ 16);
    sub_index = some (e.sub_idx % 2 ^ 8);
    description = literal (soem.ec_soeerror2string e.error_code);
  }

  -- The `switch` over `e.Etype`.
  pub decode_error : EcError → MailboxEvent → MailboxEvent
  unfolding sdo_abort_event emergency_event soe_event
  decode_error e ev =
      let t = soem.err_type in
      if e.etype == t.sdo_error || e.etype == t.sdoinfo_error
      then sdo_abort_event e ev
      else if e.etype == t.emergency
      then emergency_event e ev
      else if e.etype == t.soe_error
      then soe_event e ev
      else if e.etype == t.mbx_error
      then record ev {
        kind = mailbox_layer_error;
        code = e.error_code;
        description = literal (soem.ec_mbxerror2string e.error_code);
      }
      else if e.etype == t.packet_error
      then record ev {
        kind = protocol_violation;
        code = e.error_code;
        description = literal "Malformed mailbox packet";
      }
      else if e.etype == t.foe_error
          || e.etype == t.foe_buf2small
          || e.etype == t.foe_packetnumber
          || e.etype == t.foe_file_notfound
      then record ev {
        protocol = foe;
        kind = MailboxEventKind.unknown;
        description =
            str "Unexpected FoE error on the error list (type " ∷ num (pos e.etype) ∷ str ")" ∷ [];
      }
      else if e.etype == t.eoe_invalid_rx_data
      then record ev {
        protocol = eoe;
        kind = MailboxEventKind.unknown;
        description =
            str "Unexpected EoE error on the error list (type " ∷ num (pos e.etype) ∷ str ")" ∷ [];
      }
      else record ev {
        kind = MailboxEventKind.unknown;
        description = str "Unknown SOEM error type (" ∷ num (pos e.etype) ∷ str ")" ∷ [];
      }

  pub make_mailbox_event : ℕ → EcError → MailboxEvent
  unfolding decode_error
  make_mailbox_event now e = decode_error e (fresh_event now (e.slave % 2 ^ 16))

  -- The `switch` over `-wkc` for a nonzero working counter.
  pub decode_foe : ℤ → MailboxEvent → MailboxEvent
  decode_foe wkc ev =
      let t = soem.err_type in
      if eqb_ℤ (neg wkc) (pos t.foe_file_notfound)
      then record ev { kind = not_found; description = literal "FoE file not found" }
      else if eqb_ℤ (neg wkc) (pos t.foe_buf2small)
      then record ev {
        kind = buffer_too_small;
        description = literal "FoE receive buffer too small";
      }
      else if eqb_ℤ (neg wkc) (pos t.foe_packetnumber)
      then record ev {
        kind = protocol_violation;
        description = literal "FoE packet number mismatch";
      }
      else if eqb_ℤ (neg wkc) (pos t.packet_error)
      then record ev {
        kind = protocol_violation;
        description = literal "Unexpected frame during FoE transfer";
      }
      else if eqb_ℤ (neg wkc) (pos t.foe_error)
      then record ev { kind = abort; description = literal "FoE error reported by device" }
      else if eqb_ℤ (neg wkc) (pos t.eoe_invalid_rx_data)
      then record ev {
        protocol = eoe;
        kind = MailboxEventKind.unknown;
        description = literal "EoE reported by device";
      }
      else record ev {
        kind = MailboxEventKind.unknown;
        description = str "FoE failed with code " ∷ num wkc ∷ [];
      }

  pub make_foe_event : ℕ → ℕ → ℤ → MailboxEvent
  unfolding decode_foe
  make_foe_event now device_id wkc =
      let ev = record (fresh_event now device_id) { protocol = foe } in
      if eqb_ℤ wkc (pos 0)
      then record ev { kind = timeout; description = literal "No FoE response (working counter 0)" }
      else decode_foe wkc
          (record ev { code = (neg_part wkc + (2 ^ 32 - pos_part wkc % 2 ^ 32)) % 2 ^ 32 })

-- `acc` is the access that got no answer.
unfoldable pub make_timeout_event : ℕ → MailboxAccess → MailboxEvent
make_timeout_event now acc = record (fresh_event now acc.device_id) {
  protocol = acc.protocol;
  kind = timeout;
  index = acc.index;
  sub_index = acc.sub_index;
  description = literal "No mailbox response (working counter <= 0)";
}
