-- ===== src/Bus/StateMachine/Transitions.antt =====
-- What each call of src/internal/soem/soem_backend.cpp may do to the state of the bus.
use duatic_ethercat_interfac.Prelude.{
  ◌≡◌, ◌∙◌, refl, sym, ap, subst, Bool, true, false, ◌&&◌, leb, ◌==◌, if◌then◌else◌, Bool-cases,
  inl, inr, arith,
}
use duatic_ethercat_interfac.Types.{
  BusState, pre_init, initialized, configured, activated, shutting_down, shut_down, Result, ok, err,
}
use duatic_ethercat_interfac.Bus.{Bus, Action, Env, is_in, gets, rank, continue, ◌>>=◌}
use duatic_ethercat_interfac.Bus.Keeps.{
  Keeps, keeps_rules, Keeps-modify, Keeps-gets, Keeps-throw_if, Keeps-on_context, Ends, Ensures,
}
use duatic_ethercat_interfac.Bus.Keeps.Dictionary.{read_od-Keeps}
use duatic_ethercat_interfac.Bus.Keeps.Calls.{try_lock-Keeps, drain_all-state}
use duatic_ethercat_interfac.Bus.Keeps.Hooks.{Quiet, diagnose_service-Keeps, update_rt-Keeps}
use duatic_ethercat_interfac.Bus.Keeps.Access.{
  scan-Keeps, scan_device-Keeps, acquire_device-Keeps, read_rx_pdo-Keeps, write_rx_pdo-Keeps,
  read_tx_pdo-Keeps, sdo_read-Keeps, sdo_read_string-Keeps, write_sdo_untyped-Keeps, foe_read-Keeps,
  foe_write-Keeps, register_read-Keeps, register_write-Keeps, change_device_state-Keeps,
  diagnostics-Keeps,
}
use duatic_ethercat_interfac.Bus.Keeps.Dictionary.{read_od-Keeps}
use duatic_ethercat_interfac.Bus.Lifecycle.{initialize, shutdown}
use duatic_ethercat_interfac.Bus.Startup.{startup, activate}
use duatic_ethercat_interfac.Bus.Update.{
  all_in_operational, bring_operational, diagnose_service, internal_service_update, update_service,
}
use duatic_ethercat_interfac.Bus.StateMachine.Moves.{
  At, Errors, initialize-Ensures, startup-ends_in, activate-ends_in, shutdown-ends_in,
  shutdown_again,
}
use duatic_ethercat_interfac.Bus.StateMachine.Guards.{
  is_in-At, initialize-refuses, startup-refuses, activate-refuses,
}
use duatic_ethercat_interfac.Bus.StateMachine.Service.{Brought, bring_operational-ends_in}
use duatic_ethercat_interfac.Bus.StateMachine.Runs.{
  Call, perform, call_initialize, call_startup, call_activate, call_update_service, call_shutdown,
  call_update_rt, call_scan, call_scan_device, call_acquire_device, call_read_rx_pdo,
  call_write_rx_pdo, call_read_tx_pdo, call_sdo_read, call_sdo_read_string, call_sdo_write,
  call_foe_read, call_foe_write, call_register_read, call_register_write, call_read_od,
  call_change_device_state, call_diagnostics,
}

abbrev is_shutdown : Call → Bool
is_shutdown call_shutdown = true
is_shutdown c = false

-- A call from the first state to the second, where all the devices are operational afterwards or not.
pub data Transition : Call → Bool → BusState → BusState → Type 0 where
  stays : {c : Call} {all : Bool} {s : BusState} → is_shutdown c ≡ false → Transition c all s s
  initializes : {all : Bool} → Transition call_initialize all pre_init initialized
  configures : {all : Bool} → Transition call_startup all initialized configured
  startup_stops : {all : Bool} → Transition call_startup all initialized shutting_down
  startup_ends : {all : Bool} → Transition call_startup all initialized shut_down
  activates : {all : Bool} → Transition call_activate all configured activated
  activate_stops : {all : Bool} → Transition call_activate all configured shutting_down
  activate_ends : {all : Bool} → Transition call_activate all configured shut_down
  operates : Transition call_update_service true activated BusState.operational
  service_stops : {all : Bool} → Transition call_update_service all activated shutting_down
  service_ends : {all : Bool} → Transition call_update_service all activated shut_down
  shutdown_stops :
      {all : Bool} {s : BusState}
      → leb 2 (rank s) && leb (rank s) 5 ≡ true
      → Transition call_shutdown all s shutting_down
  shutdown_ends :
      {all : Bool} {s : BusState} → rank s == 5 ≡ false → Transition call_shutdown all s shut_down

-- It happens whatever the devices do.
abbrev Always : Call → BusState → BusState → Type 0
Always c s t = (all : Bool) → Transition c all s t

wherever : {c : Call} {s u : BusState} → Always c s u → (t : BusState) → At u t → Always c s t
wherever {c} {s} h t e = subst (Always c s) (sym e) h

unmoved : {c : Call} {s : BusState} → is_shutdown c ≡ false → (t : BusState) → At s t → Always c s t
unmoved {c} {s} n t e = wherever (λ all. stays n) t e

startup_errors : Errors initialized (Always call_startup initialized)
startup_errors = record {
  stay = unmoved refl;
  stopping = wherever λ all. startup_stops;
  stopped = wherever λ all. startup_ends;
}

activate_errors : Errors configured (Always call_activate configured)
activate_errors = record {
  stay = unmoved refl;
  stopping = wherever λ all. activate_stops;
  stopped = wherever λ all. activate_ends;
}

service_errors : Errors activated (Always call_update_service activated)
service_errors = record {
  stay = unmoved refl;
  stopping = wherever λ all. service_stops;
  stopped = wherever λ all. service_ends;
}

shutdown_errors :
    (s : BusState)
    → leb 2 (rank s) && leb (rank s) 5 ≡ true
    → rank s == 5 ≡ false
    → Errors shutting_down (Always call_shutdown s)
shutdown_errors s r n = record {
  stay = wherever λ all. shutdown_stops r;
  stopping = wherever λ all. shutdown_stops r;
  stopped = wherever λ all. shutdown_ends n;
}

ended :
    {A : Type 0} {c : Call} {Q : BusState → Type 0} {s : BusState} (r : Result A) {t : BusState}
    → ((u : BusState) → Q u → Always c s u)
    → Ends Q (Always c s) r t
    → Always c s t
ended (ok a) {t} h q = h t q
ended (err e) h q = q

module _ {W F : Type 0} (env : Env W F) where
  -- The change that the call made is one that it may make.
  abbrev pub Moves : Call → Bus W F → Bus W F → Type 0
  Moves c b b' = Transition c (all_in_operational env b'.devices b') b.state b'.state

  pub moves_kept :
      {c : Call} (b b' : Bus W F) → is_shutdown c ≡ false → b'.state ≡ b.state → Moves c b b'
  moves_kept b b' n e = unmoved n b'.state e _

  -- A call for one state, which throws in any other.
  moves_from :
      {A : Type 0} {c : Call} {Q : BusState → Type 0} (m : Action W F A) (s : BusState)
      → is_shutdown c ≡ false
      → ((u : BusState) → Q u → Always c s u)
      → Ensures (At s) Q (Always c s) m
      → ((b : Bus W F) → is_in s b ≡ false → (m b).1.state ≡ b.state)
      → (b : Bus W F) → Moves c b (m b).1
  moves_from {c = c} m s n h ensures refuses b = elim (Bool-cases (is_in s b)) [
    | inl t ↦
        let e = is_in-At s b t in
        subst (λ u. Transition c (all_in_operational env (m b).1.devices (m b).1) u (m b).1.state)
          (sym e) (ended (m b).0 h (ensures.at b e) _)
    | inr f ↦ moves_kept b _ n (refuses b f)
  ]

  brings :
      (all : Bool) {t : BusState}
      → t ≡ (if all then BusState.operational else activated)
      → Transition call_update_service all activated t
  brings true e = subst (Transition call_update_service true activated) (sym e) operates
  brings false e = subst (Transition call_update_service false activated) (sym e) (stays refl)

  service_outcome :
      (r : Result Bool) (b : Bus W F)
      → Brought env (Always call_update_service activated) (r, b)
      → Transition call_update_service (all_in_operational env b.devices b) activated b.state
  service_outcome (ok again) b q = brings (all_in_operational env b.devices b) q
  service_outcome (err e) b q = q _

  -- The action moves the bus only as this call may.
  record Moving {A : Type 0} (c : Call) (m : Action W F A) : Type 0 where
    at : (b : Bus W F) → Moves c b (m b).1

  Moving-then :
      {A B : Type 0} {c : Call} {m : Action W F A} {f : A → Action W F B}
      → is_shutdown c ≡ false
      → Keeps m
      → ((a : A) → Moving c (f a))
      → Moving c (m >>= f)
  unfolding ◌>>=◌
  Moving-then {A} {B} {c} {m} {f} n k fs = record {
    at = λ b. let (r, b') = m b in continuing b r b' (k.at b);
  }
    where
      continuing :
          (b : Bus W F) (r : Result A) (b' : Bus W F)
          → b'.state ≡ b.state
          → Moves c b (continue r f b').1
      continuing b (ok a) b' e =
          let b'' = (f a b').1 in
          subst (λ s. Transition c (all_in_operational env b''.devices b'') s b''.state) e
            ((fs a).at b')
      continuing b (err x) b' e = moves_kept b b' n e

  shutdown-pre_init : (b : Bus W F) → At pre_init b.state → (shutdown env b).1.state ≡ shut_down
  unfolding shutdown ◌>>=◌
  shutdown-pre_init b e = ground (arith, e)

  shutdown-initialized :
      (b : Bus W F) → At initialized b.state → (shutdown env b).1.state ≡ shut_down
  unfolding shutdown ◌>>=◌
  shutdown-initialized b e = ground (arith, e)

  shutdown-shut_down : (b : Bus W F) → At shut_down b.state → (shutdown env b).1.state ≡ shut_down
  unfolding shutdown ◌>>=◌
  shutdown-shut_down b e = ground (arith, e)

module _ {W F : Type 0} (env : Env W F) (quiet : Quiet env) where
  shutdown-moves :
      (s : BusState) (b : Bus W F) → At s b.state → Always call_shutdown s (shutdown env b).1.state
  shutdown-moves pre_init b e = wherever (λ all. shutdown_ends refl) _ (shutdown-pre_init env b e)
  shutdown-moves initialized b e =
      wherever (λ all. shutdown_ends refl) _ (shutdown-initialized env b e)
  shutdown-moves shutting_down b e =
      wherever (λ all. shutdown_stops refl) _
        (ap (λ p. p.1.state) (shutdown_again env quiet b e) ∙ e)
  shutdown-moves shut_down b e = wherever (λ all. shutdown_ends refl) _ (shutdown-shut_down env b e)
  shutdown-moves configured b e =
      ended (shutdown env b).0 (wherever λ all. shutdown_ends refl)
        ((shutdown-ends_in env quiet configured (shutdown_errors configured refl refl)).at b e)
  shutdown-moves activated b e =
      ended (shutdown env b).0 (wherever λ all. shutdown_ends refl)
        ((shutdown-ends_in env quiet activated (shutdown_errors activated refl refl)).at b e)
  shutdown-moves BusState.operational b e =
      ended (shutdown env b).0 (wherever λ all. shutdown_ends refl) (
        (shutdown-ends_in env quiet BusState.operational
            (shutdown_errors BusState.operational refl refl)).at
          b e)

  service-Moving : Moving env call_update_service (
      gets (is_in activated) >>= λ rising.
      if rising then bring_operational env else diagnose_service env)
  unfolding ◌>>=◌
  service-Moving = record {
    at = λ b. elim (Bool-cases (is_in activated b)) [
      | inl t ↦
          let e = is_in-At activated b t in
          let b' = (bring_operational env b).1 in
          rw t (
            subst
              (λ u.
                Transition call_update_service (all_in_operational env b'.devices b') u b'.state)
              (sym e)
              (service_outcome env (bring_operational env b).0 b'
                (bring_operational-ends_in env quiet service_errors b e)))
      | inr f ↦ rw f (moves_kept env b _ refl ((diagnose_service-Keeps env).at b))
    ];
  }

  internal_service_update-Moving : Moving env call_update_service (internal_service_update env)
  unfolding internal_service_update
  internal_service_update-Moving = Moving-then env refl (Keeps-gets _) λ _.
      Moving-then env refl (Keeps-on_context _) λ _.
        Moving-then env refl (Keeps-modify _ λ b. refl) λ _.
          Moving-then env refl (try_lock-Keeps env)
            λ _. Moving-then env refl (search (keeps_rules, drain_all-state)) λ _. service-Moving

  update_service-Moving : Moving env call_update_service (update_service env)
  unfolding update_service
  update_service-Moving =
      Moving-then env refl (Keeps-gets _)
        λ _. Moving-then env refl (Keeps-throw_if _ _) λ _. internal_service_update-Moving

  -- If the registered callbacks leave the state of the bus alone, then whatever call is made, and
  -- whether it returns or throws, it changes the state only as follows. An initialization takes a new
  -- bus to initialized, a startup an initialized one to configured, an activation a configured one to
  -- activated, and a service update an activated one to operational, this only if all the devices of
  -- the bus are operational afterwards. A startup, an activation or a service update made in these
  -- states may instead leave the bus stopping or shut down. A shutdown leaves a bus that is new,
  -- initialized or shut down in shut down, a configured, activated or operational one stopping or shut
  -- down, and a stopping one as it was. Every other call, and these in every other state, leaves the
  -- state as it was.
  pub perform-moves : (c : Call) (b : Bus W F) → Moves env c b (perform env c b)
  unfolding perform
  perform-moves call_initialize b =
      moves_from env (initialize env) pre_init refl (wherever λ all. initializes)
        (initialize-Ensures env (unmoved refl) (wherever λ all. initializes))
        (λ b f. ap (λ p. p.1.state) (initialize-refuses env b f)) b
  perform-moves call_startup b =
      moves_from env (startup env) initialized refl (wherever λ all. configures)
        (startup-ends_in env quiet startup_errors (wherever λ all. configures))
        (λ b f. ap (λ p. p.1.state) (startup-refuses env b f)) b
  perform-moves call_activate b =
      moves_from env (activate env) configured refl (wherever λ all. activates)
        (activate-ends_in env quiet activate_errors (wherever λ all. activates))
        (λ b f. ap (λ p. p.1.state) (activate-refuses env b f)) b
  perform-moves call_update_service b = (update_service-Moving).at b
  perform-moves call_shutdown b = shutdown-moves b.state b refl _
  perform-moves call_update_rt b = moves_kept env b _ refl ((update_rt-Keeps env).at b)
  perform-moves call_scan b = moves_kept env b _ refl (scan-Keeps.at b)
  perform-moves (call_scan_device i) b = moves_kept env b _ refl ((scan_device-Keeps i).at b)
  perform-moves (call_acquire_device i) b = moves_kept env b _ refl ((acquire_device-Keeps i).at b)
  perform-moves (call_read_rx_pdo i) b = moves_kept env b _ refl ((read_rx_pdo-Keeps i).at b)
  perform-moves (call_write_rx_pdo i bytes) b =
      moves_kept env b _ refl ((write_rx_pdo-Keeps i bytes).at b)
  perform-moves (call_read_tx_pdo i n) b = moves_kept env b _ refl ((read_tx_pdo-Keeps i n).at b)
  perform-moves (call_sdo_read n i x s) b =
      moves_kept env b _ refl ((sdo_read-Keeps env n i x s).at b)
  perform-moves (call_sdo_read_string i x s) b =
      moves_kept env b _ refl ((sdo_read_string-Keeps env i x s).at b)
  perform-moves (call_sdo_write bytes i x s) b =
      moves_kept env b _ refl ((write_sdo_untyped-Keeps env bytes i x s).at b)
  perform-moves (call_foe_read i f buffer) b =
      moves_kept env b _ refl ((foe_read-Keeps env i f buffer).at b)
  perform-moves (call_foe_write i f bytes) b =
      moves_kept env b _ refl ((foe_write-Keeps env i f bytes).at b)
  perform-moves (call_register_read n i a) b =
      moves_kept env b _ refl ((register_read-Keeps env n i a).at b)
  perform-moves (call_register_write i a bytes) b =
      moves_kept env b _ refl ((register_write-Keeps env i a bytes).at b)
  perform-moves (call_read_od i full) b = moves_kept env b _ refl ((read_od-Keeps env i full).at b)
  perform-moves (call_change_device_state i t blocking) b =
      moves_kept env b _ refl ((change_device_state-Keeps env i t blocking).at b)
  perform-moves (call_diagnostics force) b =
      moves_kept env b _ refl ((diagnostics-Keeps env force).at b)
