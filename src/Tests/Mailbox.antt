-- ===== src/Tests/Mailbox.antt =====
-- Runs of the mailbox theorems: an SDO abort of slave 1 and an emergency of slave 2 wait in SOEM's
-- error list.
use duatic_ethercat_interfac.Prelude.{ℕ, ◌≡◌, refl, true, List, [], ◌∷◌, none, some, not}
use duatic_ethercat_interfac.Prelude.Int.{ℤ, pos, leb_ℤ}
use duatic_ethercat_interfac.Types.{BusState, canopen, foe, Returned}
use duatic_ethercat_interfac.Soem.{EcError}
use duatic_ethercat_interfac.Mailbox.{MailboxAccess, make_foe_event}
use duatic_ethercat_interfac.Bus.{Bus}
use duatic_ethercat_interfac.Bus.MailboxAccess.{
  count_event, drain_mailbox_events, drain_all_mailbox_events, finish_mailbox_access,
  finish_foe_access,
}
use duatic_ethercat_interfac.Bus.MailboxAccess.Draining.{
  tally, first_belonging, others, MadeFrom, drain_mailbox_events_lem, drain_all_mailbox_events_lem,
}
use duatic_ethercat_interfac.Bus.MailboxAccess.Finishing.{
  Finishes, count_optional, finish_mailbox_access_lem, finish_foe_access_failed,
}
use duatic_ethercat_interfac.Bus.Sdo.{sdo_access, write_sdo_untyped}
use duatic_ethercat_interfac.Bus.Sdo.Transfers.{write_sdo_untyped_lem}
use duatic_ethercat_interfac.Tests.World.{soem, env, pops, bus_in, reachable}

abbrev sdo_abort : EcError
sdo_abort = record {
  slave = 1;
  etype = 0;
  index = 0x6041;
  sub_idx = 0;
  abort_code = 0x06020000;
  error_code = 0;
  error_reg = 0;
  b1 = 0;
  w1 = 0;
  w2 = 0;
}

abbrev emergency : EcError
emergency = record sdo_abort { slave = 2; etype = 1; error_code = 0x1000 }

abbrev waiting : List EcError
waiting = emergency ∷ sdo_abort ∷ []

abbrev bus : Bus (List EcError) ℤ
bus = bus_in BusState.operational waiting

abbrev access : MailboxAccess
access = record { device_id = 1; protocol = canopen; index = some 0x6041; sub_index = some 0 }

abbrev transfer : MailboxAccess
transfer = record { device_id = 1; protocol = foe; index = none; sub_index = none }

drain_mailbox_events_lem_example :
    let (ev, b') = drain_mailbox_events soem access bus in
    (soem.pending b'.context ≡ [])
    × MadeFrom soem (first_belonging soem access waiting) ev
    × (b'.mailbox_status ≡ tally soem (others soem access waiting) bus.mailbox_status)
drain_mailbox_events_lem_example = drain_mailbox_events_lem soem pops access bus

drain_all_mailbox_events_lem_example :
    let b' = drain_all_mailbox_events soem bus in
    (soem.pending b'.context ≡ []) × (b'.mailbox_status ≡ tally soem waiting bus.mailbox_status)
drain_all_mailbox_events_lem_example = drain_all_mailbox_events_lem soem pops bus

finish_mailbox_access_lem_example :
    let (ev, failed, b') = finish_mailbox_access soem access (pos 0) bus in
    Finishes soem access waiting bus.mailbox_status
      (first_belonging soem access waiting)
      (leb_ℤ (pos 0) (pos 0))
      ev
      failed
      b'.mailbox_status
finish_mailbox_access_lem_example = finish_mailbox_access_lem soem pops access (pos 0) bus

finish_foe_access_failed_example :
    let (ev, failed, b') = finish_foe_access soem transfer (pos 0) bus in
    (failed ≡ true)
    × (t : ℕ) × (ev ≡ some (make_foe_event soem t 1 (pos 0)))
    × (b'.mailbox_status
        ≡ count_event (make_foe_event soem t 1 (pos 0)).kind (
            count_optional soem
              (first_belonging soem transfer waiting)
              (tally soem (others soem transfer waiting) bus.mailbox_status)))
finish_foe_access_failed_example = finish_foe_access_failed soem pops transfer (pos 0) bus refl

write_sdo_untyped_lem_example :
    let b1 = drain_all_mailbox_events soem bus in
    let (wkc, c2) = soem.ecx_sdo_write 1 0x6040 0 (15 ∷ 0 ∷ []) b1.context in
    let (r, b3) = write_sdo_untyped env (15 ∷ 0 ∷ []) 1 0x6040 0 bus in
    (soem.pending b1.context ≡ [])
    × Returned
        (λ a.
          (a.working_counter ≡ wkc)
          × Finishes soem
              (sdo_access env 1 0x6040 0)
              (soem.pending c2)
              (tally soem waiting bus.mailbox_status)
              (first_belonging soem (sdo_access env 1 0x6040 0) (soem.pending c2))
              (leb_ℤ wkc (pos 0))
              a.mailbox_diagnostics
              (not a.success)
              b3.mailbox_status)
        r
write_sdo_untyped_lem_example =
    write_sdo_untyped_lem env pops (15 ∷ 0 ∷ []) 1 0x6040 0 bus (reachable waiting)
