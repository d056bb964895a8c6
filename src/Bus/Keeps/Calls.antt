-- ===== src/Bus/Keeps/Calls.antt =====
-- The parts of the backend (src/internal/soem/soem_backend.cpp) that never change the state of the
-- bus: device states, diagnostics and the mailbox bookkeeping.
use duatic_ethercat_interfac.Prelude.{
  ℕ, ◌≡◌, refl, Option, none, arith, zero, suc, Option-cases, inl, inr,
}
use duatic_ethercat_interfac.Prelude.Int.{ℤ}
use duatic_ethercat_interfac.Types.{MailboxEvent}
use duatic_ethercat_interfac.Mailbox.{MailboxAccess}
use duatic_ethercat_interfac.Bus.{Bus, Env}
use duatic_ethercat_interfac.Bus.Keeps.{Keeps, keeps_rules}
use duatic_ethercat_interfac.Bus.MailboxAccess.{
  pop_event, attribute, drain_loop, drain_all_loop, drain_mailbox_events, drain_all_mailbox_events,
  report_mailbox_event, finish_mailbox_access, finish_foe_access,
}
use duatic_ethercat_interfac.Bus.DeviceStates.{
  write_target_state, set_device_target_state, wait_for_device_target_state, update_device_states,
}
use duatic_ethercat_interfac.Bus.Diagnosing.{
  time_now, try_lock, publish_slaves, update_diagnostics_fast, read_register_block,
  read_slave_port_diagnostics, update_diagnostics_slow,
}

module _ {W F : Type 0} (env : Env W F) where
  pub time_now-Keeps : Keeps (time_now env)
  unfolding time_now
  time_now-Keeps = search keeps_rules

  pub try_lock-Keeps : Keeps (try_lock env)
  unfolding try_lock
  try_lock-Keeps = search keeps_rules

  write_target_state-Keeps : (id state : ℕ) → Keeps (write_target_state env id state)
  unfolding write_target_state
  write_target_state-Keeps id state = search keeps_rules

  pub set_device_target_state-Keeps : (id state : ℕ) → Keeps (set_device_target_state env id state)
  unfolding set_device_target_state
  set_device_target_state-Keeps id state = search (keeps_rules, write_target_state-Keeps)

  pub wait_for_device_target_state-Keeps :
      (id state : ℕ) → Keeps (wait_for_device_target_state env id state)
  unfolding wait_for_device_target_state
  wait_for_device_target_state-Keeps id state = search keeps_rules

  pub update_device_states-Keeps : Keeps (update_device_states env)
  unfolding update_device_states
  update_device_states-Keeps = search keeps_rules

  publish_slaves-Keeps : Keeps (publish_slaves env)
  unfolding publish_slaves
  publish_slaves-Keeps = search keeps_rules

  pub update_diagnostics_fast-Keeps :
      (wkc expected_wkc : ℤ) → Keeps (update_diagnostics_fast env wkc expected_wkc)
  unfolding update_diagnostics_fast
  update_diagnostics_fast-Keeps wkc expected_wkc =
      search (keeps_rules, time_now-Keeps, try_lock-Keeps, publish_slaves-Keeps) depth 12

  read_slave_port_diagnostics-Keeps :
      (config_adr : ℕ) → Keeps (read_slave_port_diagnostics env config_adr)
  unfolding read_slave_port_diagnostics read_register_block
  read_slave_port_diagnostics-Keeps config_adr = search keeps_rules depth 14

  pub update_diagnostics_slow-Keeps : Keeps (update_diagnostics_slow env)
  unfolding update_diagnostics_slow
  update_diagnostics_slow-Keeps =
      search (keeps_rules, time_now-Keeps, read_slave_port_diagnostics-Keeps) depth 14

  attribute-state :
      (acc : MailboxAccess) (o : Option MailboxEvent) (ev : MailboxEvent) (b : Bus W F)
      → (attribute env.soem acc o ev b).1.state ≡ b.state
  unfolding attribute report_mailbox_event
  attribute-state acc o ev b = ground arith

  pop_event-state : (b : Bus W F) → (pop_event env.soem b).1.state ≡ b.state
  unfolding pop_event
  pop_event-state b = ground arith

  drain_loop-state :
      (fuel : ℕ) (acc : MailboxAccess) (o : Option MailboxEvent) (b : Bus W F)
      → (drain_loop env.soem fuel acc o b).1.state ≡ b.state
  unfolding drain_loop
  drain_loop-state zero acc o b = refl
  drain_loop-state (suc fuel) acc o b =
      let b' = (pop_event env.soem b).1 in
      elim (Option-cases (pop_event env.soem b).0) [
        | inl e ↦ ground (arith, pop_event-state b)
        | inr (ev, e) ↦ ground (
          arith,
          pop_event-state b,
          attribute-state acc o ev b',
          drain_loop-state fuel acc (attribute env.soem acc o ev b').0
              (attribute env.soem acc o ev b').1,
        )
      ]

  drain_all_loop-state : (fuel : ℕ) (b : Bus W F) → (drain_all_loop env.soem fuel b).state ≡ b.state
  unfolding drain_all_loop report_mailbox_event
  drain_all_loop-state zero b = refl
  drain_all_loop-state (suc fuel) b =
      let b' = (pop_event env.soem b).1 in
      elim (Option-cases (pop_event env.soem b).0) [
        | inl e ↦ ground (arith, pop_event-state b)
        | inr (ev, e) ↦
            ground
              (arith, pop_event-state b, drain_all_loop-state fuel (report_mailbox_event ev b'))
      ]

  pub drain_all-state : (b : Bus W F) → (drain_all_mailbox_events env.soem b).state ≡ b.state
  unfolding drain_all_mailbox_events
  drain_all-state b = drain_all_loop-state _ b

  drain-state :
      (acc : MailboxAccess) (b : Bus W F) → (drain_mailbox_events env.soem acc b).1.state ≡ b.state
  unfolding drain_mailbox_events
  drain-state acc b = drain_loop-state _ acc none b

  pub finish_mailbox_access-state :
      (acc : MailboxAccess) (wkc : ℤ) (b : Bus W F)
      → (finish_mailbox_access env.soem acc wkc b).2.state ≡ b.state
  unfolding finish_mailbox_access report_mailbox_event
  finish_mailbox_access-state acc wkc b = ground (arith, drain-state acc b)

  pub finish_foe_access-state :
      (acc : MailboxAccess) (wkc : ℤ) (b : Bus W F)
      → (finish_foe_access env.soem acc wkc b).2.state ≡ b.state
  unfolding finish_foe_access report_mailbox_event
  finish_foe_access-state acc wkc b = ground (arith, drain-state acc b)
