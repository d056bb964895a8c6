-- ===== src/Realtime.antt =====
-- The configuration of a thread: `set_realtime_priority` of
-- include/duatic_ethercat_interface/realtime_utils.hpp. The pthread and system calls are a parameter.
-- Log output is left out.
use duatic_ethercat_interfac.Prelude.{Bool, true, false, not, ◌||◌, if◌then◌else◌}
use duatic_ethercat_interfac.Prelude.Int.{ℤ, pos, ltb_ℤ, leb_ℤ, eqb_ℤ}

-- The calls for the current thread: each gives its error code, 0 for success.
pub record Scheduling (W : Type 0) : Type 0 where
  pub sched_fifo : ℤ
  pub pthread_setschedparam : (scheduler priority : ℤ) → W → ℤ × W
  pub number_of_cpus : W → ℤ × W
  pub pthread_setaffinity_np : (cpu_core : ℤ) → W → ℤ × W

module _ {W : Type 0} (os : Scheduling W) where
  -- The second part, which binds the thread to a core.
  unfoldable pub bind_to_core : ℤ → W → Bool × W
  bind_to_core cpu_core w =
      let (number_of_cpus, w1) = os.number_of_cpus w in
      let (ec, w2) = os.pthread_setaffinity_np cpu_core w1 in
      if ltb_ℤ cpu_core (pos 0)
      then (true, w1)
      else if leb_ℤ number_of_cpus cpu_core
      then (false, w1)
      else (eqb_ℤ ec (pos 0), w2)

  unfoldable pub set_realtime_priority : (priority cpu_core scheduler : ℤ) → W → Bool × W
  unfolding bind_to_core
  set_realtime_priority priority cpu_core scheduler w =
      let (ec, w1) = os.pthread_setschedparam scheduler priority w in
      if ltb_ℤ priority (pos 1) || ltb_ℤ (pos 99) priority
      then (false, w)
      else if not (eqb_ℤ ec (pos 0))
      then (false, w1)
      else bind_to_core cpu_core w1
