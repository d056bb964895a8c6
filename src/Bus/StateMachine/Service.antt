-- ===== src/Bus/StateMachine/Service.antt =====
-- How the service update (`update_service` of src/internal/soem/soem_backend.cpp) ends.
use duatic_ethercat_interfac.Prelude.{
  subst, ℕ, ◌≡◌, refl, sym, ap, ◌∙◌, Bool, true, List, [], ◌∷◌, if◌then◌else◌, ◌&&◌, ◌%◌, ◌==◌,
  Bool-cases, inl, inr, arith,
}
use duatic_ethercat_interfac.Types.{BusState, activated, shutting_down, shut_down, Result, ok, err}
use duatic_ethercat_interfac.Bus.{
  Bus, Env, Action, when, set_state, pure, for_each, continue, ◌>>=◌, ◌>>◌,
}
use duatic_ethercat_interfac.Bus.Keeps.{
  Keeps, Keeps-gets, Ends, Ensures, Ensures-then, Ensures-when,
}
use duatic_ethercat_interfac.Bus.Keeps.Calls.{time_now-Keeps}
use duatic_ethercat_interfac.Bus.Keeps.Hooks.{Quiet}
use duatic_ethercat_interfac.Bus.DeviceStates.{
  write_target_state, set_device_target_state, update_device_states,
}
use duatic_ethercat_interfac.Bus.Diagnosing.{time_now}
use duatic_ethercat_interfac.Bus.Update.{
  activation_start, check_transition_timeout, all_in_operational, request_operational,
  bring_operational,
}
use duatic_ethercat_interfac.Bus.StateMachine.Moves.{At, Errors, abort-Ensures}

-- Where a call made in the state `s` has thrown: nothing was moved, or the bus was being stopped.
pub data Halted (s : BusState) : BusState → Type 0 where
  stays : Halted s s
  stops : Halted s shutting_down
  ends : Halted s shut_down

pub stop_errors : (s : BusState) → Errors s (Halted s)
stop_errors s = record {
  stay = λ t e. subst (Halted s) (sym e) stays;
  stopping = λ t e. subst (Halted s) (sym e) stops;
  stopped = λ t e. subst (Halted s) (sym e) ends;
}

module _ {W F : Type 0} (env : Env W F) where
  -- How a service update of an activated bus ends: it returns with the bus operational exactly if all
  -- the devices are, and activated otherwise; or it throws.
  abbrev pub Brought : (BusState → Type 0) → Result Bool × Bus W F → Type 0
  Brought E (ok again, b) =
      b.state ≡ (if all_in_operational env b.devices b then BusState.operational else activated)
  Brought E (err e, b) = E b.state

  activation_start-Keeps : Keeps (activation_start env)
  unfolding activation_start time_now ◌>>=◌
  activation_start-Keeps = record { at = λ b. ground arith }

  -- The states of the devices do not depend on the state of the bus.
  all_in_operational-state :
      (ids : List ℕ) (s : BusState) (b : Bus W F)
      → all_in_operational env ids (record b { state = s }) ≡ all_in_operational env ids b
  unfolding all_in_operational
  all_in_operational-state [] s b = refl
  all_in_operational-state (id ∷ ids) s b =
      ap (λ c. ((b.context.slavelist id).state % 16 == env.soem.ec_state.operational) && c)
        (all_in_operational-state ids s b)

  -- The requests return, and leave the state and the devices.
  abbrev Requested : Result (Unit {0}) × Bus W F → Bus W F → Type 0
  Requested p b = (p.0 ≡ ok tt) × (p.1.state ≡ b.state) × (p.1.devices ≡ b.devices)

  request_one : (id : ℕ) (b : Bus W F) → Requested (request_operational env id b) b
  unfolding request_operational set_device_target_state write_target_state ◌>>=◌
  request_one id b = (ground arith, ground arith, ground arith)

  requests : (ids : List ℕ) (b : Bus W F) → Requested (for_each ids (request_operational env) b) b
  unfolding for_each ◌>>=◌
  requests [] b = (refl, refl, refl)
  requests (id ∷ ids) b =
      let b' = (request_operational env id b).1 in
      let (r, s, d) = request_one id b in
      let (r', s', d') = requests ids b' in rw r (r', s' ∙ s, d' ∙ d)

  continues :
      (E : BusState → Type 0) (r : Result (Unit {0})) (f : Unit {0} → Action W F Bool) (b : Bus W F)
      → Ends (At activated) E r b.state
      → ((b : Bus W F) → At activated b.state → Brought E (f tt b))
      → Brought E (continue r f b)
  continues E (ok a) f b e k = k b e
  continues E (err x) f b e k = e

  abbrev reached_state : Bool → BusState
  reached_state c = if c then BusState.operational else activated

  -- The state is set under the test of the devices.
  sets :
      (E : BusState → Type 0) (ids : List ℕ) (b : Bus W F)
      → At activated b.state
      → b.devices ≡ ids
      → Brought E
          ((when (all_in_operational env ids b) (set_state BusState.operational) >> pure true) b)
  unfolding when set_state ◌>>=◌
  sets E ids b e d = elim (Bool-cases (all_in_operational env ids b)) [
    | inl t ↦ rw t (
        sym (
          ap reached_state (
            ap (λ is. all_in_operational env is (record b { state = BusState.operational })) d
            ∙ all_in_operational-state ids BusState.operational b
            ∙ t)))
    | inr f ↦ rw f (e ∙ sym (ap reached_state (ap (λ is. all_in_operational env is b) d ∙ f)))
  ]

module _ {W F : Type 0} (env : Env W F) (quiet : Quiet env) where
  check_transition_timeout-Ensures :
      {E : BusState → Type 0}
      → Errors activated E
      → Ensures (At activated) (At activated) E (check_transition_timeout env)
  unfolding check_transition_timeout
  check_transition_timeout-Ensures h = Ensures-then h.stay (activation_start-Keeps env) λ start.
      Ensures-then h.stay (Keeps-gets _) λ timeout. Ensures-when _ _ (
        Ensures-then h.stay (time_now-Keeps env)
          λ t. Ensures-when _ _ (abort-Ensures env quiet activated _ _ h))

  pub bring_operational-ends_in :
      {E : BusState → Type 0}
      → Errors activated E
      → (b : Bus W F) → At activated b.state
      → Brought env E (bring_operational env b)
  unfolding bring_operational update_device_states ◌>>=◌
  bring_operational-ends_in h b e =
      continues env _ (check_transition_timeout env b).0 _ (check_transition_timeout env b).1
        ((check_transition_timeout-Ensures h).at b e)
        λ b e.
          let (r, s, d) = requests env b.devices b in
          rw r (
            sets env _ b.devices
              (update_device_states env (for_each b.devices (request_operational env) b).1).1
              (s ∙ e) d)

  -- If the registered callbacks leave the state of the bus alone, then a service update of an activated
  -- bus that returns leaves the bus operational if all its devices are then operational, and activated
  -- if not all are. One that throws leaves the bus activated, or stopping, or shut down.
  pub bring_operational-Brought :
      (b : Bus W F)
      → At activated b.state
      → Brought env (Halted activated) (bring_operational env b)
  bring_operational-Brought = bring_operational-ends_in (stop_errors activated)
