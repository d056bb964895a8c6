-- ===== src/Tests/Threads.antt =====
-- Runs of the executor, on a bus whose world is the time of a clock that a sleep turns past its
-- target.
use duatic_ethercat_interfac.Prelude.{
  ◌≡◌, refl, ap, true, false, none, List, [], ◌∷◌, replicate, arith, Bool-cases, inl, inr,
}
use duatic_ethercat_interfac.Prelude.Int.{
  ℤ, pos, negsuc, ◌+ℤ◌, quot, rem, int_laws, +ℤ_parts, pos_part, neg_part, ◌≤ℤ◌, ltb_ℤ, leb_ℤ,
}
use duatic_ethercat_interfac.Types.{BusState, activated, shut_down, Error, ok, err}
use duatic_ethercat_interfac.Soem.{Context, Soem}
use duatic_ethercat_interfac.PrecisionUpdateRate.{
  Timespec, Clock, timespec_smaller_than, timespec_add_ns, carry, busy_wait, high_precision_sleep,
  step, advance,
}
use duatic_ethercat_interfac.Bus.{Bus, Env, make_bus, soem_error, ◌>>=◌}
use duatic_ethercat_interfac.Bus.Update.{update_rt}
use duatic_ethercat_interfac.Bus.Keeps.Hooks.{Quiet}
use duatic_ethercat_interfac.Bus.StateMachine.Runs.{call_shutdown}
use duatic_ethercat_interfac.Realtime.{Scheduling}
use duatic_ethercat_interfac.Executor.{
  Executor, ExecutorParameters, present, testing, updating, pausing, stopping_rt, Platform,
  make_executor, no_worker,
}
use duatic_ethercat_interfac.Executor.Threads.{
  spin, stop, call, Turn, rt_turn, service_turn, caller_turn, run,
}
use duatic_ethercat_interfac.Executor.Threads.Order.{IsOrderly}
use duatic_ethercat_interfac.Executor.Threads.Orderly.{run-IsOrderly}
use duatic_ethercat_interfac.Executor.Threads.Following.{Turned, take_turn-Turned}
use duatic_ethercat_interfac.Executor.Threads.{take_turn}
use duatic_ethercat_interfac.Executor.Threads.Stopping.{LoopTurn, rt_loop, service_loop, rounds}
use duatic_ethercat_interfac.Executor.Threads.Joined.{Paces}
use duatic_ethercat_interfac.Executor.Threads.Failing.{Reported, update_rt-Reported}
use duatic_ethercat_interfac.Executor.Threads.Ending.{Stopped, stop-ends}
use duatic_ethercat_interfac.Tests.World.{
  slave, ec_states, ec_err_types, double, parameters, device,
}

abbrev soem : Soem (Timespec)
soem = record {
  ec_state = ec_states;
  err_type = ec_err_types;
  ec_sdoerror2string = λ code. "sdo";
  ec_soeerror2string = λ code. "soe";
  ec_mbxerror2string = λ code. "mbx";
  ecx_init = λ i c. (pos 1, c);
  ecx_config_init = λ c. (pos 2, c);
  ecx_close = λ c. c;
  ecx_config_map_group = λ io c. (pos 8, io, c);
  ecx_configdc = λ c. (true, c);
  ecx_dcsync0 = λ i cycle shift c. c;
  ecx_writestate = λ i c. (pos 1, c);
  ecx_statecheck = λ i s c. (s, c);
  ecx_readstate = λ c. c;
  ecx_send_processdata = λ io c. (pos 1, c);
  ecx_receive_processdata = λ io c. (pos 3, io, c);
  ecx_sdo_read = λ i index sub size buffer c. (pos 1, pos size, buffer, c);
  ecx_sdo_write = λ i index sub bytes c. (pos 1, c);
  ecx_foe_write = λ i file bytes c. (pos 1, c);
  ecx_foe_read = λ i file size buffer c. (pos 1, pos size, buffer, c);
  ecx_fprd = λ adr reg buffer c. (pos 1, buffer, c);
  ecx_fpwr = λ adr reg bytes c. (pos 1, c);
  ecx_read_od_list = λ i c. (none, c);
  ecx_read_od_description = λ i l c. (l, c);
  ecx_read_oe = λ i l c. (none, c);
  ecx_poperror = λ c. (none, c);
  pending = λ c. [];
  now = λ w. (7, w);
  is_up = λ i w. (true, w);
  try_lock = λ w. (true, w);
}

abbrev midnight : Timespec
midnight = record { tv_sec = pos 0; tv_nsec = pos 0 }

abbrev context : Context Timespec
context = record {
  slavelist = slave;
  slavecount = 2;
  outputs_wkc = 1;
  inputs_wkc = 1;
  block_lrw = 0;
  dc_time = pos 0;
  world = midnight;
}

abbrev env : Env Timespec ℤ
env = record { soem = soem; double = double; callback = λ f b. (ok tt, b) }

abbrev quiet : Quiet env
quiet = record { callback-state = λ f b. refl }

abbrev clock : Clock Timespec
clock = record {
  now_monotonic = λ w. (w, w);
  clock_nanosleep = λ ts w. record { tv_sec = ts.tv_sec +ℤ pos 3; tv_nsec = ts.tv_nsec };
}

abbrev os : Scheduling Timespec
os = record {
  sched_fifo = pos 1;
  pthread_setschedparam = λ scheduler priority w. (pos 0, w);
  number_of_cpus = λ w. (pos 4, w);
  pthread_setaffinity_np = λ cpu_core w. (pos 0, w);
}

abbrev platform : Platform Timespec ℤ
platform = record { env = env; clock = clock; os = os }

carry_sec : (t : Timespec) → t.tv_sec ≤ℤ (carry t).tv_sec +ℤ pos 1
unfolding carry
carry_sec t = elim (Bool-cases (leb_ℤ (pos 1000000000) t.tv_nsec)) [
  | inl h ↦ rw h (omega int_laws)
  | inr h ↦ elim (Bool-cases (ltb_ℤ t.tv_nsec (pos 0))) [
    | inl k ↦ rw (h, k) (omega int_laws)
    | inr k ↦ rw (h, k) (omega int_laws)
  ]
]

no_seconds : quot (negsuc 49999) 1000000000 ≡ pos 0
unfolding quot
no_seconds = refl

early_sec : (ts : Timespec) → ts.tv_sec ≤ℤ (timespec_add_ns ts (negsuc 49999)).tv_sec +ℤ pos 1
unfolding timespec_add_ns
early_sec ts =
    let off = quot (negsuc 49999) 1000000000 in
    let shifted : Timespec = record {
      tv_sec = ts.tv_sec +ℤ off;
      tv_nsec = ts.tv_nsec +ℤ rem (negsuc 49999) 1000000000;
    } in
    omega (
      arith,
      carry_sec shifted,
      +ℤ_parts ts.tv_sec off,
      ap pos_part no_seconds,
      ap neg_part no_seconds,
    )

later_not_smaller :
    (a b : ℤ) (m n : ℤ)
    → b ≤ℤ a +ℤ pos 1
    → timespec_smaller_than
        (record { tv_sec = a +ℤ pos 3; tv_nsec = m })
        (record { tv_sec = b; tv_nsec = n })
      ≡ false
later_not_smaller a b m n h = ground (arith, h, +ℤ_parts a (pos 1), +ℤ_parts a (pos 3))

-- The clock is past the target after the sleep.
slept_enough :
    (ts w : Timespec)
    → timespec_smaller_than (clock.clock_nanosleep (timespec_add_ns ts (negsuc 49999)) w) ts ≡ false
slept_enough ts w =
    later_not_smaller (timespec_add_ns ts (negsuc 49999)).tv_sec ts.tv_sec
      (timespec_add_ns ts (negsuc 49999)).tv_nsec ts.tv_nsec (early_sec ts)

paces : Paces platform 1
unfolding step high_precision_sleep busy_wait
paces = record {
  pause_ends = λ offset rate w. rw (slept_enough (advance offset w rate).1.sleep_end w) refl;
}

abbrev bus_in : BusState → Bus Timespec ℤ
bus_in s = record (make_bus double parameters context device) {
  state = s;
  devices = 1 ∷ 2 ∷ [];
  io_map = replicate 8 0;
}

abbrev executor_parameters : ExecutorParameters
executor_parameters = record {
  realtime_priority = pos 60;
  desired_cpu_core = negsuc 0;
  service_thread_update_rate = 2010;
}

abbrev executor : BusState → Executor Timespec ℤ
executor s = make_executor double executor_parameters midnight (bus_in s)

-- The threads start and run, the owner stops them, and the real-time thread is joined.
abbrev turns : List Turn
turns =
    caller_turn spin
    ∷ rt_turn 1
    ∷ caller_turn spin
    ∷ service_turn
    ∷ rt_turn 1
    ∷ rt_turn 1
    ∷ caller_turn stop
    ∷ service_turn
    ∷ caller_turn stop
    ∷ rt_turn 1
    ∷ rt_turn 1
    ∷ rt_turn 1
    ∷ rt_turn 1
    ∷ caller_turn stop
    ∷ []

run-IsOrderly_example : IsOrderly (run platform turns (executor activated))
run-IsOrderly_example =
    run-IsOrderly platform double executor_parameters midnight (bus_in activated) turns

-- A shutdown that the owner requests while no thread runs.
take_turn-Turned_example :
    Turned platform
      (caller_turn (call call_shutdown))
      (executor activated).bus
      (take_turn platform (caller_turn (call call_shutdown)) (executor activated))
take_turn-Turned_example =
    take_turn-Turned platform quiet (caller_turn (call call_shutdown)) (executor activated)

-- Both threads are at work when `stop` is called.
abbrev stopping : Executor Timespec ℤ
stopping = record (executor activated) {
  spinning = true;
  rt = record (no_worker double) { thread = present false (updating 7) };
  service = record (no_worker double) { thread = present false (pausing none) };
  caller = stopping_rt;
}

stopping-IsOrderly : IsOrderly stopping
stopping-IsOrderly = record {
  staffed = (refl, refl, refl);
  rt_reports = record { stored = tt; flagged = tt };
  service_reports = record { stored = tt; flagged = tt };
}

abbrev sixteen_rounds : List (List LoopTurn)
sixteen_rounds = replicate 16 (service_loop ∷ rt_loop 1 ∷ [])

stop-ends_example : Stopped (rounds platform 1 sixteen_rounds stopping)
stop-ends_example =
    stop-ends platform quiet 1 paces stopping sixteen_rounds stopping-IsOrderly refl (omega arith)

-- The bus was shut down under the real-time thread.
abbrev orphaned : Executor Timespec ℤ
orphaned = record (executor shut_down) {
  spinning = true;
  rt = record (no_worker double) { thread = present false (updating 7) };
  service = record (no_worker double) { thread = present false testing };
}

abbrev not_running : Error
not_running = soem_error "The bus object can only be spun in 'Activated' or 'Operational' state"

orphaned-throws : (update_rt env (bus_in shut_down)).0 ≡ err not_running
unfolding update_rt ◌>>=◌
orphaned-throws = refl

-- The executor is stopped before the real-time thread has handled the exception.
abbrev stopped_meanwhile : List Turn
stopped_meanwhile =
    service_turn ∷ caller_turn stop ∷ caller_turn stop ∷ rt_turn 0 ∷ rt_turn 0 ∷ service_turn ∷ []

update_rt-Reported_example :
    Reported platform not_running (run platform (rt_turn 0 ∷ stopped_meanwhile) orphaned)
update_rt-Reported_example =
    update_rt-Reported platform orphaned false 7 0 not_running stopped_meanwhile refl
      orphaned-throws tt
