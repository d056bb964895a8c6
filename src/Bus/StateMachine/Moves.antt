-- ===== src/Bus/StateMachine/Moves.antt =====
-- Where each of the calls that move the bus can leave it.
use duatic_ethercat_interfac.Prelude.{ℕ, ◌≡◌, refl, sym, subst, arith}
use duatic_ethercat_interfac.Types.{
  BusState, pre_init, initialized, configured, activated, shutting_down, shut_down, Text, Backend,
  err,
}
use duatic_ethercat_interfac.Bus.{Bus, Env, soem_error, ◌>>=◌}
use duatic_ethercat_interfac.Bus.Keeps.{
  keeps_rules, Keeps-modify, Keeps-gets, Keeps-throw_if, Keeps-on_context, Ensures, Ensures-Keeps,
  Ensures-then, Ensures-bind, Ensures-set_state, Ensures-throw, Ensures-when, Ensures-for_each,
}
use duatic_ethercat_interfac.Bus.Keeps.Calls.{
  set_device_target_state-Keeps, wait_for_device_target_state-Keeps,
}
use duatic_ethercat_interfac.Bus.Keeps.Hooks.{
  Quiet, call_hooks-Keeps, add_device-Keeps, sync_slave-Keeps, notify_configured-Keeps,
}
use duatic_ethercat_interfac.Bus.Lifecycle.{shutdown_running, shutdown, initialize, abort}
use duatic_ethercat_interfac.Bus.Startup.{
  map_pdos, configure_clocks, startup, request_safe_op, await_safe_op, activate,
}
use duatic_ethercat_interfac.Bus.StateMachine.{
  Reach, here, next, Reach-shut_down, initializes, configures, activates, stops_configured,
  stops_activated, stops_operational,
}

-- The bus is in this state.
abbrev pub At : BusState → BusState → Type 0
At s t = t ≡ s

pub at_reached : {s t u : BusState} → Reach s t → At t u → Reach s u
at_reached {s} r e = subst (Reach s) (sym e) r

pub same : {s : BusState} (t : BusState) → At s t → Reach s t
same t e = at_reached here e

-- The states in which a call made in the state `s` may throw: where it was, or stopping or stopped.
pub record Errors (s : BusState) (E : BusState → Type 0) : Type 0 where
  pub stay : (t : BusState) → At s t → E t
  pub stopping : (t : BusState) → At shutting_down t → E t
  pub stopped : (t : BusState) → At shut_down t → E t

pub reach_errors : (s : BusState) → Reach s shutting_down → Errors s (Reach s)
reach_errors s r = record {
  stay = same;
  stopping = λ t e. at_reached r e;
  stopped = λ t e. at_reached (Reach-shut_down s) e;
}

-- The errors of a shutdown among them.
pub halting : {s : BusState} {E : BusState → Type 0} → Errors s E → Errors shutting_down E
halting h = record { stay = h.stopping; stopping = h.stopping; stopped = h.stopped }

module _ {W F : Type 0} (env : Env W F) where
  -- Where an initialization ends, for any `E` that holds before it and after it.
  pub initialize-Ensures :
      {E : BusState → Type 0}
      → ((t : BusState) → At pre_init t → E t)
      → ((t : BusState) → At initialized t → E t)
      → Ensures (At pre_init) (At initialized) E (initialize env)
  unfolding initialize
  initialize-Ensures before after = Ensures-then before (Keeps-gets _) λ _.
      Ensures-then before (Keeps-throw_if _ _) λ _. Ensures-then before (Keeps-gets _) λ _.
        Ensures-then before (Keeps-on_context _) λ _. Ensures-then before (Keeps-throw_if _ _) λ _.
          Ensures-then before (Keeps-on_context _) λ _.
            Ensures-then before (Keeps-throw_if _ _) λ _.
              Ensures-then before (Keeps-modify _ λ b. refl) λ _.
                Ensures-then before (Keeps-modify _ λ b. refl) λ _.
                  Ensures-then before (Keeps-on_context _) λ _.
                    Ensures-then before (Keeps-modify _ λ b. refl) λ _.
                      Ensures-bind _ _ (Ensures-set_state initialized)
                        λ _. Ensures-Keeps _ (search (keeps_rules, add_device-Keeps) depth 14) after

module _ {W F : Type 0} (env : Env W F) (quiet : Quiet env) where
  shutdown_running-Ensures :
      {P E : BusState → Type 0}
      → Errors shutting_down E
      → Ensures P (At shut_down) E (shutdown_running env)
  unfolding shutdown_running
  shutdown_running-Ensures h = Ensures-bind _ _ (Ensures-set_state shutting_down) λ _.
      Ensures-then h.stopping (call_hooks-Keeps env quiet _) λ _.
        Ensures-then h.stopping (set_device_target_state-Keeps env 0 _) λ _.
          Ensures-then h.stopping (wait_for_device_target_state-Keeps env 0 _) λ _.
            Ensures-then h.stopping (Keeps-modify _ λ b. refl) λ _.
              Ensures-bind _ _ (Ensures-set_state shut_down) λ _.
                Ensures-then h.stopped (call_hooks-Keeps env quiet _)
                  λ _. Ensures-Keeps _ (Keeps-modify _ λ b. refl) h.stopped

  running-shutdown :
      {E : BusState → Type 0} (s : BusState)
      → Errors shutting_down E
      → ((b : Bus W F) → At s b.state → shutdown env b ≡ shutdown_running env b)
      → Ensures (At s) (At shut_down) E (shutdown env)
  running-shutdown s h same = record {
    at = λ b e. rw (same b e) ((shutdown_running-Ensures {P = At s} h).at b e);
  }

  pub shutdown_again :
      (b : Bus W F)
      → At shutting_down b.state
      → shutdown env b ≡ (err (soem_error "Invalid BusState in shutdown - dont know what to do"), b)
  unfolding shutdown ◌>>=◌
  shutdown_again b e = ground (arith, e)

  pub shutdown-ends_in :
      {E : BusState → Type 0} (s : BusState)
      → Errors shutting_down E
      → Ensures (At s) (At shut_down) E (shutdown env)
  unfolding shutdown ◌>>=◌
  shutdown-ends_in pre_init h = record { at = λ b e. ground (arith, e) }
  shutdown-ends_in initialized h = record { at = λ b e. ground (arith, e) }
  shutdown-ends_in configured h = running-shutdown configured h λ b e. ground (arith, e)
  shutdown-ends_in activated h = running-shutdown activated h λ b e. ground (arith, e)
  shutdown-ends_in BusState.operational h =
      running-shutdown BusState.operational h λ b e. ground (arith, e)
  shutdown-ends_in shutting_down h = record {
    at = λ b e. rw (shutdown_again b e) (h.stopping b.state e);
  }
  shutdown-ends_in shut_down h = record { at = λ b e. ground (arith, e) }

  -- If the registered callbacks leave the state of the bus alone, then from every state a shutdown
  -- that returns leaves the bus shut down, and one that throws leaves it in a state on the way
  -- there.
  pub shutdown-Ensures : (s : BusState) → Ensures (At s) (At shut_down) (Reach s) (shutdown env)
  unfolding shutdown ◌>>=◌
  shutdown-Ensures shut_down = record { at = λ b e. ground (arith, e) }
  shutdown-Ensures pre_init = shutdown-ends_in pre_init (
      halting
        (reach_errors pre_init (next (next (next here initializes) configures) stops_configured)))
  shutdown-Ensures initialized =
      shutdown-ends_in initialized
        (halting (reach_errors initialized (next (next here configures) stops_configured)))
  shutdown-Ensures configured =
      shutdown-ends_in configured (halting (reach_errors configured (next here stops_configured)))
  shutdown-Ensures activated =
      shutdown-ends_in activated (halting (reach_errors activated (next here stops_activated)))
  shutdown-Ensures BusState.operational =
      shutdown-ends_in BusState.operational
        (halting (reach_errors BusState.operational (next here stops_operational)))
  shutdown-Ensures shutting_down =
      shutdown-ends_in shutting_down (halting (reach_errors shutting_down here))

  pub abort-Ensures :
      {Q E : BusState → Type 0} (s : BusState) (message : Text) (backend : Backend)
      → Errors s E
      → Ensures (At s) Q E (abort env {A = Unit} message backend)
  unfolding abort
  abort-Ensures s message backend h =
      Ensures-bind _ _ (shutdown-ends_in s (halting h)) λ _. Ensures-throw _ h.stopped

  map_pdos-Ensures :
      {E : BusState → Type 0}
      → Errors initialized E
      → Ensures (At initialized) (At initialized) E (map_pdos env)
  unfolding map_pdos
  map_pdos-Ensures h = Ensures-then h.stay (Keeps-modify _ λ b. refl) λ _.
      Ensures-then h.stay (record { at = λ b. refl })
        λ _.
          Ensures-then h.stay (Keeps-gets _) λ _. Ensures-when _ _ (abort-Ensures initialized _ _ h)

  configure_clocks-Ensures :
      {E : BusState → Type 0}
      → Errors initialized E
      → Ensures (At initialized) (At initialized) E (configure_clocks env)
  unfolding configure_clocks
  configure_clocks-Ensures h = Ensures-then h.stay (Keeps-on_context _) λ _.
      Ensures-then h.stay (Keeps-gets _) λ _.
        Ensures-bind _ _ (Ensures-when _ _ (abort-Ensures initialized _ _ h))
          λ _. Ensures-Keeps _ (search (keeps_rules, sync_slave-Keeps) depth 16) h.stay

  pub startup-ends_in :
      {E : BusState → Type 0}
      → Errors initialized E
      → ((t : BusState) → At configured t → E t)
      → Ensures (At initialized) (At configured) E (startup env)
  unfolding startup
  startup-ends_in h after = Ensures-then h.stay (Keeps-gets _) λ _.
      Ensures-then h.stay (Keeps-throw_if _ _) λ _.
        Ensures-then h.stay (call_hooks-Keeps env quiet _) λ _.
          Ensures-then h.stay (Keeps-modify _ λ b. refl) λ _.
            Ensures-bind _ _ (map_pdos-Ensures h) λ _.
              Ensures-bind _ _ (configure_clocks-Ensures h) λ _.
                Ensures-bind _ _ (Ensures-set_state configured) λ _.
                  Ensures-Keeps _ (search (keeps_rules, notify_configured-Keeps env quiet) depth 14)
                    after

  -- If the registered callbacks leave the state of the bus alone, then from the initialized state a
  -- call of startup that returns leaves the bus configured, and one that throws, also out of the
  -- shutdown that it performs itself, leaves it in a state that can be reached from there.
  pub startup-Ensures : Ensures (At initialized) (At configured) (Reach initialized) (startup env)
  startup-Ensures =
      startup-ends_in (reach_errors initialized (next (next here configures) stops_configured))
        λ t e. at_reached (next here configures) e

  request_safe_op-Ensures :
      {E : BusState → Type 0}
      → Errors configured E
      → (id : ℕ) → Ensures (At configured) (At configured) E (request_safe_op env id)
  unfolding request_safe_op
  request_safe_op-Ensures h id =
      Ensures-then h.stay (set_device_target_state-Keeps env id _)
        λ _. Ensures-when _ _ (abort-Ensures configured _ _ h)

  await_safe_op-Ensures :
      {E : BusState → Type 0}
      → Errors configured E
      → (id : ℕ) → Ensures (At configured) (At configured) E (await_safe_op env id)
  unfolding await_safe_op
  await_safe_op-Ensures h id =
      Ensures-then h.stay (wait_for_device_target_state-Keeps env id _)
        λ _. Ensures-when _ _ (abort-Ensures configured _ _ h)

  pub activate-ends_in :
      {E : BusState → Type 0}
      → Errors configured E
      → ((t : BusState) → At activated t → E t)
      → Ensures (At configured) (At activated) E (activate env)
  unfolding activate
  activate-ends_in h after = Ensures-then h.stay (Keeps-gets _) λ _.
      Ensures-then h.stay (Keeps-throw_if _ _) λ _.
        Ensures-then h.stay (call_hooks-Keeps env quiet _) λ _.
          Ensures-then h.stay (Keeps-modify _ λ b. refl) λ _.
            Ensures-then h.stay (Keeps-gets _) λ _.
              Ensures-bind _ _ (Ensures-for_each _ _ (request_safe_op-Ensures h)) λ _.
                Ensures-bind _ _ (Ensures-for_each _ _ (await_safe_op-Ensures h)) λ _.
                  Ensures-bind _ _ (Ensures-set_state activated)
                    λ _. Ensures-Keeps _ (call_hooks-Keeps env quiet _) after

  -- If the registered callbacks leave the state of the bus alone, then from the configured state a
  -- call of activate that returns leaves the bus activated, and one that throws, also out of the
  -- shutdown that it performs itself, leaves it in a state that can be reached from there.
  pub activate-Ensures : Ensures (At configured) (At activated) (Reach configured) (activate env)
  activate-Ensures =
      activate-ends_in (reach_errors configured (next here stops_configured))
        λ t e. at_reached (next here activates) e
