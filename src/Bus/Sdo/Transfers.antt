-- ===== src/Bus/Sdo/Transfers.antt =====
-- Whole mailbox transfers, `write_sdo_untyped` and `read_sdo_untyped` of
-- src/internal/soem/soem_backend.cpp, against SOEM's error list.
use duatic_ethercat_interfac.Prelude.{ℕ, ◌≡◌, refl, subst, Bool, true, false, not, List, []}
use duatic_ethercat_interfac.Prelude.Int.{pos, leb_ℤ}
use duatic_ethercat_interfac.Types.{Returned}
use duatic_ethercat_interfac.Soem.{PopsErrors}
use duatic_ethercat_interfac.Bus.{Bus, Env, ◌>>=◌}
use duatic_ethercat_interfac.Bus.MailboxAccess.{drain_all_mailbox_events, finish_mailbox_access}
use duatic_ethercat_interfac.Bus.MailboxAccess.Draining.{
  tally, first_belonging, drain_all_mailbox_events_lem,
}
use duatic_ethercat_interfac.Bus.MailboxAccess.Finishing.{Finishes, finish_mailbox_access_lem}
use duatic_ethercat_interfac.Bus.Sdo.{sdo_access, finish_sdo, write_sdo_untyped}
use duatic_ethercat_interfac.Bus.Sdo.Values.{Reachable, check_access_reachable}

not-not : (b : Bool) → not (not b) ≡ b
not-not true = refl
not-not false = refl

module _ {W F : Type 0} (env : Env W F) (pops : PopsErrors env.soem) where
  -- If SOEM's error list behaves as documented, a write to a slave that can be reached always
  -- returns. The entries that waited before it are all counted and taken off the list, so that the
  -- outcome is decided by the working counter and by the entries of the transfer itself alone.
  pub write_sdo_untyped_lem :
      (bytes : List ℕ) (id index sub_index : ℕ) (b : Bus W F)
      → Reachable id b
      → let b1 = drain_all_mailbox_events env.soem b in
        let (wkc, c2) = env.soem.ecx_sdo_write id index sub_index bytes b1.context in
        let (r, b3) = write_sdo_untyped env bytes id index sub_index b in
        (env.soem.pending b1.context ≡ [])
        × Returned
            (λ a.
              (a.working_counter ≡ wkc)
              × Finishes env.soem
                  (sdo_access env id index sub_index)
                  (env.soem.pending c2)
                  (tally env.soem (env.soem.pending b.context) b.mailbox_status)
                  (first_belonging env.soem
                    (sdo_access env id index sub_index)
                    (env.soem.pending c2))
                  (leb_ℤ wkc (pos 0))
                  a.mailbox_diagnostics
                  (not a.success)
                  b3.mailbox_status)
            r
  unfolding write_sdo_untyped finish_sdo ◌>>=◌
  write_sdo_untyped_lem bytes id index sub_index b r =
      let b1 = drain_all_mailbox_events env.soem b in
      let (wkc, c2) = env.soem.ecx_sdo_write id index sub_index bytes b1.context in
      let access = sdo_access env id index sub_index in
      let (empty, status) = drain_all_mailbox_events_lem env.soem pops b in
      let (ev, failed, b3) =
        finish_mailbox_access env.soem access wkc (record b1 { context = c2 }) in
      let outcome =
        finish_mailbox_access_lem env.soem pops access wkc (record b1 { context = c2 }) in
      rw (check_access_reachable _ id b r, not-not failed)
        (
          empty,
          (
            refl,
            subst
                (λ s.
                  Finishes env.soem access (env.soem.pending c2) s
                    (first_belonging env.soem access (env.soem.pending c2)) (leb_ℤ wkc (pos 0)) ev
                    failed b3.mailbox_status)
                status outcome,
          ),
        )
