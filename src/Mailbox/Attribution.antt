-- ===== src/Mailbox/Attribution.antt =====
-- Which events belong to the mailbox access in flight: the test in `drain_mailbox_events(acc)` of
-- src/internal/soem/soem_backend.cpp. It reads nothing of an event that depends on the time.
use duatic_ethercat_interfac.Prelude.{
  ℕ, ◌≡◌, refl, Bool, true, false, not, ◌&&◌, Option, none, some, ◌==◌, arith,
}
use duatic_ethercat_interfac.Types.{
  MailboxEvent, MailboxEventKind, MailboxProtocol, canopen, foe, eoe, voe, MailboxEventSeverity,
  is_emergency,
}
use duatic_ethercat_interfac.Soem.{Soem, EcError}
use duatic_ethercat_interfac.Mailbox.{MailboxAccess, make_mailbox_event}

-- `ev.protocol == MailboxProtocol::Unknown || ev.protocol == acc.protocol`
abbrev pub protocol_fits : MailboxProtocol → MailboxProtocol → Bool
protocol_fits MailboxProtocol.unknown p = true
protocol_fits canopen canopen = true
protocol_fits foe foe = true
protocol_fits MailboxProtocol.soe MailboxProtocol.soe = true
protocol_fits eoe eoe = true
protocol_fits voe voe = true
protocol_fits _ _ = false

-- `!a || !b || *a == *b`
abbrev pub agrees : Option ℕ → Option ℕ → Bool
agrees none b = true
agrees (some i) none = true
agrees (some i) (some j) = i == j

pub belongs_to_access : MailboxEvent → MailboxAccess → Bool
belongs_to_access ev acc =
    not (is_emergency ev.kind)
    && ev.device_id == acc.device_id
    && protocol_fits ev.protocol acc.protocol
    && agrees ev.index acc.index
    && agrees ev.sub_index acc.sub_index

abbrev pub is_error : MailboxEventSeverity → Bool
is_error MailboxEventSeverity.error = true
is_error _ = false

-- `event && event->severity == MailboxEventSeverity::Error`
abbrev pub has_error : Option MailboxEvent → Bool
has_error none = false
has_error (some ev) = is_error ev.severity

module _ {W : Type 0} (soem : Soem W) where
  -- The kind of event that an entry of the error list makes, and whether it belongs to an access.
  abbrev pub entry_kind : EcError → MailboxEventKind
  entry_kind e = (make_mailbox_event soem 0 e).kind

  abbrev pub entry_belongs : MailboxAccess → EcError → Bool
  entry_belongs acc e = belongs_to_access (make_mailbox_event soem 0 e) acc

  SameAccess : MailboxEvent → MailboxEvent → Type 0
  SameAccess a b =
      (a.kind ≡ b.kind)
      × (a.device_id ≡ b.device_id)
      × (a.protocol ≡ b.protocol)
      × (a.index ≡ b.index)
      × (a.sub_index ≡ b.sub_index)

  entry-SameAccess :
      (t : ℕ) (e : EcError) → SameAccess (make_mailbox_event soem t e) (make_mailbox_event soem 0 e)
  unfolding SameAccess make_mailbox_event
  entry-SameAccess t e = ground arith

  pub entry_kind-any : (t : ℕ) (e : EcError) → (make_mailbox_event soem t e).kind ≡ entry_kind e
  unfolding SameAccess
  entry_kind-any t e = (entry-SameAccess t e).0

  pub entry_belongs-any :
      (t : ℕ) (acc : MailboxAccess) (e : EcError)
      → belongs_to_access (make_mailbox_event soem t e) acc ≡ entry_belongs acc e
  unfolding SameAccess belongs_to_access
  entry_belongs-any t acc e = let (k, d, p, i, s) = entry-SameAccess t e in rw (k, d, p, i, s) refl
