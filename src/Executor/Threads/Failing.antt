-- ===== src/Executor/Threads/Failing.antt =====
-- What becomes of an exception of the real-time loop of `SingleBusExecutor`
-- (include/duatic_ethercat_interface/executor.hpp).
use duatic_ethercat_interfac.Prelude.{
  ℕ, ◌≡◌, refl, ap, Bool, true, false, Option, none, some, List, [], ◌∷◌, Bool-cases, inl, inr,
}
use duatic_ethercat_interfac.Types.{Error, err}
use duatic_ethercat_interfac.Bus.Update.{update_rt}
use duatic_ethercat_interfac.Executor.{
  Executor, Thread, absent, present, Position, entering, testing, updating, measuring, pausing,
  leaving, catching, flagging, finished, Caller, idle, starting_service, stopping_rt, joining_rt,
  stopping_service, joining_service, ending, shutting, Platform, has_rt_error, get_rt_error,
}
use duatic_ethercat_interfac.Executor.Jthread.{joinable, request_stop, join}
use duatic_ethercat_interfac.Executor.Threads.{
  Request, spin, stop, call, Turn, rt_turn, service_turn, caller_turn, move_rt, move_service, begin,
  joined_rt, joined_service, move_caller, rt_moves, service_moves, take_turn, or_stay, run,
}

-- The thread is about to store the error; or it has, and is about to raise the flag; or both are done,
-- and it leaves, has finished or was joined.
abbrev pub Caught : Error → Thread → Option Error → Bool → Type 0
Caught e absent stored occurred = (stored ≡ some e) × (occurred ≡ true)
Caught e (present s finished) stored occurred = (stored ≡ some e) × (occurred ≡ true)
Caught e (present s leaving) stored occurred = (stored ≡ some e) × (occurred ≡ true)
Caught e (present s flagging) stored occurred = stored ≡ some e
Caught e (present s (catching x)) stored occurred = x ≡ e
Caught e (present s p) stored occurred = ⊥

-- In none of the turns the executor is spun again.
abbrev pub NoSpin : List Turn → Type 0
NoSpin [] = Unit
NoSpin (caller_turn spin ∷ ts) = ⊥
NoSpin (t ∷ ts) = NoSpin ts

Caught-request_stop :
    (e : Error) (t : Thread) (stored : Option Error) (occurred : Bool)
    → Caught e t stored occurred
    → Caught e (request_stop t) stored occurred
Caught-request_stop e absent stored occurred h = h
Caught-request_stop e (present s finished) stored occurred h = h
Caught-request_stop e (present s leaving) stored occurred h = h
Caught-request_stop e (present s flagging) stored occurred h = h
Caught-request_stop e (present s (catching x)) stored occurred h = h
Caught-request_stop e (present s entering) stored occurred h = absurd h
Caught-request_stop e (present s testing) stored occurred h = absurd h
Caught-request_stop e (present s (updating start)) stored occurred h = absurd h
Caught-request_stop e (present s (measuring start offset)) stored occurred h = absurd h
Caught-request_stop e (present s (pausing offset)) stored occurred h = absurd h

module _ {W F : Type 0} (platform : Platform W F) (e : Error) where
  -- What the executor reports of its real-time thread.
  abbrev pub Reported : Executor W F → Type 0
  Reported x = Caught e x.rt.thread (get_rt_error x) (has_rt_error x)

  Stays : Option (Executor W F) → Type 0
  Stays none = Unit
  Stays (some x) = Reported x

  rt_moves-Stays :
      (fuel : ℕ) (t : Thread) (x : Executor W F)
      → Caught e t (get_rt_error x) (has_rt_error x)
      → Stays (rt_moves platform fuel t x)
  unfolding rt_moves move_rt Stays
  rt_moves-Stays fuel absent x h = tt
  rt_moves-Stays fuel (present s finished) x h = tt
  rt_moves-Stays fuel (present s leaving) x h = h
  rt_moves-Stays fuel (present s flagging) x h = (h, refl)
  rt_moves-Stays fuel (present s (catching y)) x h = ap some h
  rt_moves-Stays fuel (present s entering) x h = absurd h
  rt_moves-Stays fuel (present s testing) x h = absurd h
  rt_moves-Stays fuel (present s (updating start)) x h = absurd h
  rt_moves-Stays fuel (present s (measuring start offset)) x h = absurd h
  rt_moves-Stays fuel (present s (pausing offset)) x h = absurd h

  move_service-Stays :
      (s : Bool) (p : Position) (x : Executor W F)
      → Reported x
      → Stays (move_service platform s p x)
  unfolding move_service Stays
  move_service-Stays s entering x h = h
  move_service-Stays true testing x h = h
  move_service-Stays false testing x h = h
  move_service-Stays s (updating start) x h = h
  move_service-Stays s (measuring start offset) x h = h
  move_service-Stays s (pausing offset) x h = h
  move_service-Stays s leaving x h = h
  move_service-Stays s (catching y) x h = h
  move_service-Stays s flagging x h = h
  move_service-Stays s finished x h = tt

  service_moves-Stays :
      (t : Thread) (x : Executor W F) → Reported x → Stays (service_moves platform t x)
  unfolding service_moves Stays
  service_moves-Stays absent x h = tt
  service_moves-Stays (present s p) x h = move_service-Stays s p x h

  joins :
      (t : Thread) (x : Executor W F)
      → Caught e t (get_rt_error x) (has_rt_error x)
      → Stays (joined_rt platform x (join t))
  unfolding Stays
  joins absent x h = tt
  joins (present s finished) x h = h
  joins (present s leaving) x h = tt
  joins (present s flagging) x h = tt
  joins (present s (catching y)) x h = tt
  joins (present s entering) x h = absurd h
  joins (present s testing) x h = absurd h
  joins (present s (updating start)) x h = absurd h
  joins (present s (measuring start offset)) x h = absurd h
  joins (present s (pausing offset)) x h = absurd h

  joins_service :
      (o : Option Thread) (x : Executor W F) → Reported x → Stays (joined_service platform x o)
  unfolding Stays
  joins_service none x h = tt
  joins_service (some t) x h = h

  move_caller-Stays :
      (request : Request) (c : Caller) (x : Executor W F)
      → NoSpin (caller_turn request ∷ [])
      → Reported x
      → Stays (move_caller platform request c x)
  unfolding move_caller begin Stays
  move_caller-Stays spin (idle last) x n h = absurd n
  move_caller-Stays stop (idle last) x n h = h
  move_caller-Stays (call c) (idle last) x n h = h
  move_caller-Stays request starting_service x n h = h
  move_caller-Stays request stopping_rt x n h = elim (Bool-cases (joinable x.rt.thread)) [
    | inl j ↦ rw j (Caught-request_stop e x.rt.thread _ _ h)
    | inr j ↦ rw j h
  ]
  move_caller-Stays request joining_rt x n h = joins x.rt.thread x h
  move_caller-Stays request stopping_service x n h = elim (Bool-cases (joinable x.service.thread)) [
    | inl j ↦ rw j h
    | inr j ↦ rw j h
  ]
  move_caller-Stays request joining_service x n h = joins_service _ x h
  move_caller-Stays request ending x n h = h
  move_caller-Stays request shutting x n h = h

  take_turn-Stays :
      (t : Turn) (x : Executor W F) → NoSpin (t ∷ []) → Reported x → Stays (take_turn platform t x)
  unfolding take_turn
  take_turn-Stays (rt_turn fuel) x n h = rt_moves-Stays fuel x.rt.thread x h
  take_turn-Stays service_turn x n h = service_moves-Stays x.service.thread x h
  take_turn-Stays (caller_turn request) x n h = move_caller-Stays request x.caller x n h

  stayed :
      (x : Executor W F) (o : Option (Executor W F))
      → Reported x
      → Stays o
      → Reported (or_stay platform x o)
  unfolding Stays
  stayed x none h k = h
  stayed x (some y) h k = k

  first_turn : (t : Turn) (ts : List Turn) → NoSpin (t ∷ ts) → NoSpin (t ∷ []) × NoSpin ts
  first_turn (rt_turn fuel) ts n = (tt, n)
  first_turn service_turn ts n = (tt, n)
  first_turn (caller_turn spin) ts n = absurd n
  first_turn (caller_turn stop) ts n = (tt, n)
  first_turn (caller_turn (call c)) ts n = (tt, n)

  run-Reported :
      (ts : List Turn) (x : Executor W F) → NoSpin ts → Reported x → Reported (run platform ts x)
  unfolding run
  run-Reported [] x n h = h
  run-Reported (t ∷ ts) x n h =
      let (one, rest) = first_turn t ts n in
      run-Reported ts _ rest (stayed x _ h (take_turn-Stays t x one h))

module _ {W F : Type 0} (platform : Platform W F) where
  -- If the update of the bus throws in the real-time thread, then however this turn of the thread is
  -- followed by turns of both threads and of the owner, who does not spin the executor again, stopping
  -- it or calling the bus included: the exception is not lost. The thread is about to store it; or
  -- `get_rt_error` is what was thrown and the thread is about to raise the flag; or both that and
  -- `has_rt_error` hold and the thread leaves, has finished or was joined.
  pub update_rt-Reported :
      (x : Executor W F) (s : Bool) (start fuel : ℕ) (e : Error) (ts : List Turn)
      → x.rt.thread ≡ present s (updating start)
      → (update_rt platform.env x.bus).0 ≡ err e
      → NoSpin ts
      → Reported platform e (run platform (rt_turn fuel ∷ ts) x)
  unfolding run take_turn rt_moves move_rt
  update_rt-Reported x s start fuel e ts at thrown n =
      run-Reported platform e ts _ n (rw (at, thrown) refl)
