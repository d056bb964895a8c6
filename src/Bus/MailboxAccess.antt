-- ===== src/Bus/MailboxAccess.antt =====
-- The mailbox bookkeeping of the backend (src/internal/soem/soem_backend.cpp): `drain_mailbox_events`
-- in both forms, `report_mailbox_event`, `finish_mailbox_access` and `finish_foe_access`.
-- What the source logs on the way is left out.
pub mod Draining
pub mod Finishing
use duatic_ethercat_interfac.Prelude.{
  ℕ, zero, suc, ◌≡◌, Bool, true, false, not, ◌&&◌, ◌||◌, Option, none, some, List, [], ◌∷◌, ◌==◌,
  if◌then◌else◌, is_some, length,
}
use duatic_ethercat_interfac.Prelude.Int.{ℤ, pos, leb_ℤ, ltb_ℤ}
use duatic_ethercat_interfac.Types.{
  MailboxEvent, MailboxEventKind, emergency, timeout, abort, MailboxProtocol, unknown, canopen, foe,
  soe, eoe, voe, MailboxEventSeverity, is_emergency,
}
use duatic_ethercat_interfac.Soem.{Soem, EcError}
use duatic_ethercat_interfac.Diagnostics.{MailboxStatus, bump}
use duatic_ethercat_interfac.Mailbox.{
  MailboxAccess, make_mailbox_event, make_timeout_event, make_foe_event,
}
use duatic_ethercat_interfac.Mailbox.Attribution.{belongs_to_access, has_error}
use duatic_ethercat_interfac.Bus.{Bus}

-- The `switch` of `report_mailbox_event`.
unfoldable pub count_event : MailboxEventKind → MailboxStatus → MailboxStatus
count_event MailboxEventKind.emergency s = record s {
  mailbox_emergencies = bump s.mailbox_emergencies;
}
count_event MailboxEventKind.timeout s = record s { mailbox_timeouts = bump s.mailbox_timeouts }
count_event _ s = record s { mailbox_aborts = bump s.mailbox_aborts }

unfoldable pub report_mailbox_event : {W F : Type 0} → MailboxEvent → Bus W F → Bus W F
report_mailbox_event ev b = record b { mailbox_status = count_event ev.kind b.mailbox_status }

module _ {W F : Type 0} (soem : Soem W) where
  -- `HighPrecisionClock::now()`.
  abbrev pub now : Bus W F → ℕ × Bus W F
  now b =
      let (t, w) = soem.now b.context.world in
      (t, record b { context = record b.context { world = w } })

  -- `ecx_poperror` followed by `make_mailbox_event`.
  unfoldable pub pop_event : Bus W F → Option MailboxEvent × Bus W F
  pop_event b =
      let (popped, c) = soem.ecx_poperror b.context in
      elim popped [
        | none ↦ (none, record b { context = c })
        | some e ↦
            let (t, b') = now (record b { context = c }) in (some (make_mailbox_event soem t e), b')
      ]

  -- One round of the attributing loop for an event that was popped.
  unfoldable pub attribute :
      MailboxAccess → Option MailboxEvent → MailboxEvent → Bus W F → Option MailboxEvent × Bus W F
  attribute acc attributed ev b =
      if not (is_some attributed) && belongs_to_access ev acc
      then (some ev, b)
      else (attributed, report_mailbox_event ev b)

  -- The loop of `drain_mailbox_events(acc)`, with fuel.
  unfoldable pub drain_loop :
      ℕ → MailboxAccess → Option MailboxEvent → Bus W F → Option MailboxEvent × Bus W F
  drain_loop zero acc attributed b = (attributed, b)
  drain_loop (suc fuel) acc attributed b =
      let (popped, b') = pop_event b in
      elim popped [
        | none ↦ (attributed, b')
        | some ev ↦
            let (attributed', b'') = attribute acc attributed ev b' in
            drain_loop fuel acc attributed' b''
      ]

  -- The loop of `drain_mailbox_events()`, with fuel.
  unfoldable pub drain_all_loop : ℕ → Bus W F → Bus W F
  drain_all_loop zero b = b
  drain_all_loop (suc fuel) b =
      let (popped, b') = pop_event b in
      elim popped [ none ↦ b' | some ev ↦ drain_all_loop fuel (report_mailbox_event ev b') ]

  -- One round for each entry of the error list, and one that finds it empty.
  abbrev pub drain_fuel : Bus W F → ℕ
  drain_fuel b = suc (length (soem.pending b.context))

  unfoldable pub drain_mailbox_events : MailboxAccess → Bus W F → Option MailboxEvent × Bus W F
  drain_mailbox_events acc b = drain_loop (drain_fuel b) acc none b

  unfoldable pub drain_all_mailbox_events : Bus W F → Bus W F
  drain_all_mailbox_events b = drain_all_loop (drain_fuel b) b

  abbrev pub report_timeout : MailboxAccess → Bus W F → Option MailboxEvent × Bool × Bus W F
  report_timeout acc b =
      let (t, b') = now b in
      let ev = make_timeout_event t acc in (some ev, true, report_mailbox_event ev b')

  -- The event of the access, and whether the access failed.
  unfoldable pub finish_mailbox_access :
      MailboxAccess → ℤ → Bus W F → Option MailboxEvent × Bool × Bus W F
  finish_mailbox_access acc wkc b =
      let (event, b') = drain_mailbox_events acc b in
      if leb_ℤ wkc (pos 0) && not (is_some event)
      then report_timeout acc b'
      else (event, leb_ℤ wkc (pos 0) || has_error event, b')

  abbrev pub report_optional : Option MailboxEvent → Bus W F → Bus W F
  report_optional none b = b
  report_optional (some ev) b = report_mailbox_event ev b

  abbrev pub report_foe_failure : MailboxAccess → ℤ → Bus W F → Option MailboxEvent × Bool × Bus W F
  report_foe_failure acc wkc b =
      let (t, b') = now b in
      let ev = make_foe_event soem t acc.device_id wkc in
      (some ev, true, report_mailbox_event ev b')

  unfoldable pub finish_foe_access :
      MailboxAccess → ℤ → Bus W F → Option MailboxEvent × Bool × Bus W F
  finish_foe_access acc wkc b =
      let (event, b') = drain_mailbox_events acc b in
      if ltb_ℤ (pos 0) wkc
      then (event, has_error event, b')
      else report_foe_failure acc wkc (report_optional event b')
