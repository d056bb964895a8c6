-- ===== src/Bus/MailboxAccess/Finishing.antt =====
-- How a mailbox access ends: `finish_mailbox_access` and `finish_foe_access` of
-- src/internal/soem/soem_backend.cpp, against the entries that waited in SOEM's error list.
use duatic_ethercat_interfac.Prelude.{
  ℕ, ◌≡◌, refl, Bool, true, false, ◌||◌, Option, none, some, List, [], ◌∷◌, arith,
}
use duatic_ethercat_interfac.Prelude.Int.{ℤ, pos, leb_ℤ, ltb_ℤ}
use duatic_ethercat_interfac.Types.{MailboxEvent, MailboxEventKind}
use duatic_ethercat_interfac.Soem.{Soem, EcError, PopsErrors}
use duatic_ethercat_interfac.Diagnostics.{MailboxStatus}
use duatic_ethercat_interfac.Mailbox.{
  MailboxAccess, make_mailbox_event, make_timeout_event, make_foe_event,
}
use duatic_ethercat_interfac.Mailbox.Attribution.{is_error, entry_kind, entry_kind-any}
use duatic_ethercat_interfac.Bus.{Bus}
use duatic_ethercat_interfac.Bus.MailboxAccess.{
  count_event, report_mailbox_event, drain_mailbox_events, finish_mailbox_access, finish_foe_access,
}
use duatic_ethercat_interfac.Bus.MailboxAccess.Draining.{
  tally, first_belonging, others, drain_mailbox_events_lem,
}

module _ {W : Type 0} (soem : Soem W) where
  others-none :
      (acc : MailboxAccess) (es : List EcError)
      → first_belonging soem acc es ≡ none
      → others soem acc es ≡ es
  others-none acc [] h = refl
  others-none acc (e ∷ es) h = ground (arith, others-none acc es)

  -- The outcome of a CoE access by the first entry that belongs to it and by whether the working
  -- counter is 0 or less: the event, whether the access failed, and the counters.
  abbrev pub Finishes :
      MailboxAccess
      → List EcError
      → MailboxStatus
      → Option EcError
      → Bool
      → Option MailboxEvent
      → Bool
      → MailboxStatus
      → Type 0
  Finishes acc es s (some e) unanswered ev failed s' =
      (t : ℕ) × (ev ≡ some (make_mailbox_event soem t e))
      × (failed ≡ (unanswered || is_error (make_mailbox_event soem t e).severity))
      × (s' ≡ tally soem (others soem acc es) s)
  Finishes acc es s none true ev failed s' =
      (t : ℕ) × (ev ≡ some (make_timeout_event t acc))
      × (failed ≡ true)
      × (s' ≡ count_event MailboxEventKind.timeout (tally soem es s))
  Finishes acc es s none false ev failed s' =
      (ev ≡ none) × (failed ≡ false) × (s' ≡ tally soem es s)

  -- The outcome of a file transfer that succeeded.
  abbrev pub FoeSucceeds :
      MailboxAccess
      → List EcError
      → MailboxStatus
      → Option EcError
      → Option MailboxEvent
      → Bool
      → MailboxStatus
      → Type 0
  FoeSucceeds acc es s (some e) ev failed s' =
      (t : ℕ) × (ev ≡ some (make_mailbox_event soem t e))
      × (failed ≡ is_error (make_mailbox_event soem t e).severity)
      × (s' ≡ tally soem (others soem acc es) s)
  FoeSucceeds acc es s none ev failed s' = (ev ≡ none) × (failed ≡ false) × (s' ≡ tally soem es s)

  -- The counters after the event of the entry that belongs to the access, if any.
  abbrev pub count_optional : Option EcError → MailboxStatus → MailboxStatus
  count_optional none s = s
  count_optional (some e) s = count_event (entry_kind soem e) s

module _ {W F : Type 0} (soem : Soem W) (pops : PopsErrors soem) where
  finish_mailbox_access-Finishes :
      (acc : MailboxAccess) (wkc : ℤ) (b : Bus W F) (first : Option EcError) (unanswered : Bool)
      → first_belonging soem acc (soem.pending b.context) ≡ first
      → leb_ℤ wkc (pos 0) ≡ unanswered
      → let (ev, failed, b') = finish_mailbox_access soem acc wkc b in
        Finishes soem acc
          (soem.pending b.context)
          b.mailbox_status
          first
          unanswered
          ev
          failed
          b'.mailbox_status
  unfolding finish_mailbox_access report_mailbox_event make_timeout_event
  finish_mailbox_access-Finishes acc wkc b (some e) unanswered h u =
      let (empty, made, status) = drain_mailbox_events_lem soem pops acc b in
      let (t, made') = rw h at made in
      (t, ground (arith, made'), ground (arith, made'), ground (arith, made', status))
  finish_mailbox_access-Finishes acc wkc b none true h u =
      let (empty, made, status) = drain_mailbox_events_lem soem pops acc b in
      let drained = (drain_mailbox_events soem acc b).1 in
      let made' = rw h at made in
      let status' = rw (others-none soem acc (soem.pending b.context) h) at status in
      (
        (soem.now drained.context.world).0,
        ground (arith, made'),
        ground (arith, made'),
        ground (arith, made', status'),
      )
  finish_mailbox_access-Finishes acc wkc b none false h u =
      let (empty, made, status) = drain_mailbox_events_lem soem pops acc b in
      let made' = rw h at made in
      let status' = rw (others-none soem acc (soem.pending b.context) h) at status in
      ground (arith, made', status')

  -- A CoE access that meets an entry of its own returns that entry's event, uncounted, and fails if
  -- the working counter is 0 or less or the event is an error. With no such entry it fails exactly
  -- if the working counter is 0 or less, with a timeout event that is counted. All other entries are
  -- counted by their kind.
  pub finish_mailbox_access_lem :
      (acc : MailboxAccess) (wkc : ℤ) (b : Bus W F)
      → let es = soem.pending b.context in
        let (ev, failed, b') = finish_mailbox_access soem acc wkc b in
        Finishes soem acc es b.mailbox_status
          (first_belonging soem acc es)
          (leb_ℤ wkc (pos 0))
          ev
          failed
          b'.mailbox_status
  finish_mailbox_access_lem acc wkc b = finish_mailbox_access-Finishes acc wkc b _ _ refl refl

  finish_foe_access-FoeSucceeds :
      (acc : MailboxAccess) (wkc : ℤ) (b : Bus W F) (first : Option EcError)
      → first_belonging soem acc (soem.pending b.context) ≡ first
      → ltb_ℤ (pos 0) wkc ≡ true
      → let (ev, failed, b') = finish_foe_access soem acc wkc b in
        FoeSucceeds soem acc
          (soem.pending b.context)
          b.mailbox_status
          first
          ev
          failed
          b'.mailbox_status
  unfolding finish_foe_access
  finish_foe_access-FoeSucceeds acc wkc b (some e) h u =
      let (empty, made, status) = drain_mailbox_events_lem soem pops acc b in
      let (t, made') = rw h at made in
      (t, ground (arith, made'), ground (arith, made'), ground (arith, made', status))
  finish_foe_access-FoeSucceeds acc wkc b none h u =
      let (empty, made, status) = drain_mailbox_events_lem soem pops acc b in
      let made' = rw h at made in
      let status' = rw (others-none soem acc (soem.pending b.context) h) at status in
      ground (arith, made', status')

  -- A file transfer with a positive working counter returns the event of the first entry that
  -- belongs to it, uncounted, fails exactly if that event is an error, and counts the other entries.
  pub finish_foe_access_answered :
      (acc : MailboxAccess) (wkc : ℤ) (b : Bus W F)
      → ltb_ℤ (pos 0) wkc ≡ true
      → let es = soem.pending b.context in
        let (ev, failed, b') = finish_foe_access soem acc wkc b in
        FoeSucceeds soem acc es b.mailbox_status
          (first_belonging soem acc es)
          ev
          failed
          b'.mailbox_status
  finish_foe_access_answered acc wkc b u = finish_foe_access-FoeSucceeds acc wkc b _ refl u

  finish_foe_access-fails :
      (acc : MailboxAccess) (wkc : ℤ) (b : Bus W F) (first : Option EcError)
      → first_belonging soem acc (soem.pending b.context) ≡ first
      → ltb_ℤ (pos 0) wkc ≡ false
      → let es = soem.pending b.context in
        let (ev, failed, b') = finish_foe_access soem acc wkc b in
        (failed ≡ true)
        × (t : ℕ) × (ev ≡ some (make_foe_event soem t acc.device_id wkc))
        × (b'.mailbox_status
            ≡ count_event
                (make_foe_event soem t acc.device_id wkc).kind
                (count_optional soem first (tally soem (others soem acc es) b.mailbox_status)))
  unfolding finish_foe_access report_mailbox_event
  finish_foe_access-fails acc wkc b (some e) h u =
      let (empty, made, status) = drain_mailbox_events_lem soem pops acc b in
      let (t, made') = rw h at made in
      let drained =
        report_mailbox_event (make_mailbox_event soem t e) (drain_mailbox_events soem acc b).1 in
      (
        ground (arith, made'),
        (soem.now drained.context.world).0,
        ground (arith, made'),
        ground (arith, made', status, entry_kind-any soem t e),
      )
  finish_foe_access-fails acc wkc b none h u =
      let (empty, made, status) = drain_mailbox_events_lem soem pops acc b in
      let made' = rw h at made in
      let drained = (drain_mailbox_events soem acc b).1 in
      (
        ground (arith, made'),
        (soem.now drained.context.world).0,
        ground (arith, made'),
        ground (arith, made', status),
      )

  -- A file transfer with a working counter of 0 or less fails with the event decoded from the
  -- counter. That event is counted, and so is every entry of the error list: an entry that belongs
  -- to the transfer is counted after the others.
  pub finish_foe_access_failed :
      (acc : MailboxAccess) (wkc : ℤ) (b : Bus W F)
      → ltb_ℤ (pos 0) wkc ≡ false
      → let es = soem.pending b.context in
        let (ev, failed, b') = finish_foe_access soem acc wkc b in
        (failed ≡ true)
        × (t : ℕ) × (ev ≡ some (make_foe_event soem t acc.device_id wkc))
        × (b'.mailbox_status
            ≡ count_event (make_foe_event soem t acc.device_id wkc).kind (
                count_optional soem
                  (first_belonging soem acc es)
                  (tally soem (others soem acc es) b.mailbox_status)))
  finish_foe_access_failed acc wkc b u = finish_foe_access-fails acc wkc b _ refl u
