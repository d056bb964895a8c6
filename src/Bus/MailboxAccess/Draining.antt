-- ===== src/Bus/MailboxAccess/Draining.antt =====
-- What a drain of SOEM's error list does (`drain_mailbox_events`, src/internal/soem/soem_backend.cpp),
-- against a description over the list of its entries.
use duatic_ethercat_interfac.Prelude.{
  ℕ, zero, suc, ◌<◌, ◌≡◌, refl, ap, ◌∙◌, true, false, Option, none, some, List, [], ◌∷◌, arith,
  if◌then◌else◌, length, Bool-cases, Option-cases, true, false, Bool-cases, inl, inr,
}
use duatic_ethercat_interfac.Types.{MailboxEvent}
use duatic_ethercat_interfac.Soem.{Soem, EcError, PopsErrors, Context}
use duatic_ethercat_interfac.Diagnostics.{MailboxStatus}
use duatic_ethercat_interfac.Mailbox.{MailboxAccess, make_mailbox_event}
use duatic_ethercat_interfac.Mailbox.Attribution.{
  belongs_to_access, entry_belongs-any, entry_kind, entry_belongs, entry_kind-any,
  entry_belongs-any,
}
use duatic_ethercat_interfac.Bus.{Bus}
use duatic_ethercat_interfac.Bus.MailboxAccess.{
  count_event, report_mailbox_event, pop_event, attribute, drain_loop, drain_all_loop,
  drain_mailbox_events, drain_all_mailbox_events,
}

module _ {W : Type 0} (soem : Soem W) where
  -- The counters after the events of these entries have been reported.
  abbrev pub tally : List EcError → MailboxStatus → MailboxStatus
  tally [] s = s
  tally (e ∷ es) s = tally es (count_event (entry_kind soem e) s)

  abbrev pub first_belonging : MailboxAccess → List EcError → Option EcError
  first_belonging acc [] = none
  first_belonging acc (e ∷ es) = if entry_belongs soem acc e then some e else first_belonging acc es

  -- The entries but for the first that belongs.
  abbrev pub others : MailboxAccess → List EcError → List EcError
  others acc [] = []
  others acc (e ∷ es) = if entry_belongs soem acc e then es else e ∷ others acc es

  -- An event made from this entry, at some time.
  abbrev pub MadeFrom : Option EcError → Option MailboxEvent → Type 0
  MadeFrom none ev = ev ≡ none
  MadeFrom (some e) ev = (t : ℕ) × (ev ≡ some (make_mailbox_event soem t e))

module _ {W F : Type 0} (soem : Soem W) (pops : PopsErrors soem) where
  -- What a pop of a list that is not empty gives: only the context changes.
  record Popped (b : Bus W F) (e : EcError) (es : List EcError) : Type 0 where
    time : ℕ
    context : Context W
    popped :
        pop_event soem b ≡ (some (make_mailbox_event soem time e), record b { context = context })
    left : soem.pending context ≡ es

  pop_event-Popped :
      (b : Bus W F) (e : EcError) (es : List EcError)
      → soem.pending b.context ≡ e ∷ es
      → Popped b e es
  unfolding pop_event
  pop_event-Popped b e es h =
      let (c, popped, left) = pops.pop_some b.context e es h in
      record {
        time = (soem.now c.world).0;
        context = record c { world = (soem.now c.world).1 };
        popped = ground (arith, popped);
        left = pops.now_keeps c ∙ left;
      }

  pop_event-empty : (b : Bus W F) → soem.pending b.context ≡ [] → pop_event soem b ≡ (none, b)
  unfolding pop_event
  pop_event-empty b h = ground (arith, pops.pop_empty b.context h)

  report-pending :
      (ev : MailboxEvent) (b : Bus W F)
      → soem.pending (report_mailbox_event ev b).context ≡ soem.pending b.context
  unfolding report_mailbox_event
  report-pending ev b = refl

  report-status :
      (t : ℕ) (e : EcError) (b : Bus W F)
      → (report_mailbox_event (make_mailbox_event soem t e) b).mailbox_status
        ≡ count_event (entry_kind soem e) b.mailbox_status
  unfolding report_mailbox_event
  report-status t e b = ap (λ k. count_event k b.mailbox_status) (entry_kind-any soem t e)

  drain_all_loop_lem :
      (fuel : ℕ) (es : List EcError) (b : Bus W F)
      → soem.pending b.context ≡ es
      → length es < fuel
      → (soem.pending (drain_all_loop soem fuel b).context ≡ [])
        × ((drain_all_loop soem fuel b).mailbox_status ≡ tally soem es b.mailbox_status)
  unfolding drain_all_loop
  drain_all_loop_lem zero es b h lt = elim lt [ ]
  drain_all_loop_lem (suc fuel) [] b h lt = ground (arith, pop_event-empty b h)
  drain_all_loop_lem (suc fuel) (e ∷ es) b h lt =
      let p = pop_event-Popped b e es h in
      let b' = record b { context = p.context } in
      let ev = make_mailbox_event soem p.time e in
      ground (
        arith,
        p.popped,
        p.left,
        report-pending ev b',
        report-status p.time e b',
        drain_all_loop_lem fuel es (report_mailbox_event ev b'),
      )

  -- Once an event has been attributed, the rest of the loop reports all the others.
  drain_loop-attributed :
      (fuel : ℕ) (acc : MailboxAccess) (ev : MailboxEvent) (b : Bus W F)
      → drain_loop soem fuel acc (some ev) b ≡ (some ev, drain_all_loop soem fuel b)
  unfolding drain_loop drain_all_loop attribute
  drain_loop-attributed zero acc ev b = refl
  drain_loop-attributed (suc fuel) acc ev b = elim (Option-cases (pop_event soem b).0) [
    | inl e ↦ ground arith
    | inr (new, e) ↦
        ground
          (arith, drain_loop-attributed fuel acc ev (report_mailbox_event new (pop_event soem b).1))
  ]

  -- One round for an entry that belongs to the access.
  drain_loop-mine :
      (fuel : ℕ) (acc : MailboxAccess) (ev : MailboxEvent) (b b' : Bus W F)
      → pop_event soem b ≡ (some ev, b')
      → belongs_to_access ev acc ≡ true
      → drain_loop soem (suc fuel) acc none b ≡ (some ev, drain_all_loop soem fuel b')
  unfolding drain_loop attribute
  drain_loop-mine fuel acc ev b b' popped mine =
      ground (arith, popped, mine, drain_loop-attributed fuel acc ev b')

  -- One round for an entry that does not.
  drain_loop-other :
      (fuel : ℕ) (acc : MailboxAccess) (ev : MailboxEvent) (b b' : Bus W F)
      → pop_event soem b ≡ (some ev, b')
      → belongs_to_access ev acc ≡ false
      → drain_loop soem (suc fuel) acc none b
        ≡ drain_loop soem fuel acc none (report_mailbox_event ev b')
  unfolding drain_loop attribute
  drain_loop-other fuel acc ev b b' popped other = ground (arith, popped, other)

  drain_loop_lem :
      (fuel : ℕ) (es : List EcError) (acc : MailboxAccess) (b : Bus W F)
      → soem.pending b.context ≡ es
      → length es < fuel
      → let (ev, b') = drain_loop soem fuel acc none b in
        (soem.pending b'.context ≡ [])
        × MadeFrom soem (first_belonging soem acc es) ev
        × (b'.mailbox_status ≡ tally soem (others soem acc es) b.mailbox_status)
  unfolding drain_loop attribute
  drain_loop_lem zero es acc b h lt = elim lt [ ]
  drain_loop_lem (suc fuel) [] acc b h lt = ground (arith, pop_event-empty b h)
  drain_loop_lem (suc fuel) (e ∷ es) acc b h lt =
      let p = pop_event-Popped b e es h in
      let b' = record b { context = p.context } in
      let ev = make_mailbox_event soem p.time e in
      let same = entry_belongs-any soem p.time acc e in
      elim (Bool-cases (entry_belongs soem acc e)) [
        | inl mine ↦
            let (empty, status) = drain_all_loop_lem fuel es b' p.left (omega arith) in
            rw (drain_loop-mine fuel acc ev b b' p.popped (same ∙ mine), mine)
              (empty, (p.time, refl), status)
        | inr other ↦
            let next = report_mailbox_event ev b' in
            let (empty, made, status) =
              drain_loop_lem fuel es acc next (report-pending ev b' ∙ p.left) (omega arith) in
            rw (drain_loop-other fuel acc ev b b' p.popped (same ∙ other), other)
              (
                empty,
                made,
                status ∙ ap (tally soem (others soem acc es)) (report-status p.time e b'),
              )
      ]

  -- A drain for an access empties the error list, returns the event of the first entry that belongs
  -- to the access (none if there is no such entry), and counts every other entry once, by its kind.
  pub drain_mailbox_events_lem :
      (acc : MailboxAccess) (b : Bus W F)
      → let es = soem.pending b.context in
        let (ev, b') = drain_mailbox_events soem acc b in
        (soem.pending b'.context ≡ [])
        × MadeFrom soem (first_belonging soem acc es) ev
        × (b'.mailbox_status ≡ tally soem (others soem acc es) b.mailbox_status)
  unfolding drain_mailbox_events
  drain_mailbox_events_lem acc b =
      drain_loop_lem _ (soem.pending b.context) acc b refl (omega arith)

  -- The unattributed drain empties the error list and counts every entry once, by its kind.
  pub drain_all_mailbox_events_lem :
      (b : Bus W F)
      → let b' = drain_all_mailbox_events soem b in
        (soem.pending b'.context ≡ [])
        × (b'.mailbox_status ≡ tally soem (soem.pending b.context) b.mailbox_status)
  unfolding drain_all_mailbox_events
  drain_all_mailbox_events_lem b =
      drain_all_loop_lem _ (soem.pending b.context) b refl (omega arith)
