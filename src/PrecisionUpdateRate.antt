-- ===== src/PrecisionUpdateRate.antt =====
-- Deadlines on the monotonic clock: `precision_timing` and `PrecisionUpdateRate` of
-- include/duatic_ethercat_interface/precision_update_rate.hpp. A 64-bit integer is an integer of any
-- size; the clock and `clock_nanosleep` are a parameter.
pub mod Addition
pub mod Deadlines
pub mod Waiting
use mathlib.Core.Option
use duatic_ethercat_interfac.Prelude.{
  ℕ, suc, zero, ◌+◌, ◌-◌, ◌%◌, ◌^◌, Bool, true, false, Option, none, some, ◌&&◌, ◌||◌, ltb,
  if◌then◌else◌,
}
use duatic_ethercat_interfac.Prelude.Int.{
  ℤ, pos, negsuc, ◌+ℤ◌, ◌-ℤ◌, ◌*ℤ◌, quot, rem, leb_ℤ, ltb_ℤ, eqb_ℤ,
}

abbrev pub billion : ℕ
billion = 1000000000

abbrev pub sleep_early_stop_ns : ℕ
sleep_early_stop_ns = 50000

pub record Timespec : Type 0 where
  pub tv_sec : ℤ
  pub tv_nsec : ℤ

abbrev pub timespec_smaller_than : Timespec → Timespec → Bool
timespec_smaller_than ts1 ts2 =
    ltb_ℤ ts1.tv_sec ts2.tv_sec || (eqb_ℤ ts1.tv_sec ts2.tv_sec && ltb_ℤ ts1.tv_nsec ts2.tv_nsec)

unfoldable pub timespec_diff_ns : Timespec → Timespec → ℤ
timespec_diff_ns a b = (a.tv_sec -ℤ b.tv_sec) *ℤ pos billion +ℤ (a.tv_nsec -ℤ b.tv_nsec)

-- The carry between the two fields.
unfoldable pub carry : Timespec → Timespec
carry t =
    if leb_ℤ (pos billion) t.tv_nsec
    then record { tv_sec = t.tv_sec +ℤ pos 1; tv_nsec = t.tv_nsec -ℤ pos billion }
    else if ltb_ℤ t.tv_nsec (pos 0)
    then record { tv_sec = t.tv_sec -ℤ pos 1; tv_nsec = t.tv_nsec +ℤ pos billion }
    else t

unfoldable pub timespec_add_ns : Timespec → ℤ → Timespec
unfolding carry
timespec_add_ns t ns =
    carry (record { tv_sec = t.tv_sec +ℤ quot ns billion; tv_nsec = t.tv_nsec +ℤ rem ns billion })

-- The world of the timer: `clock_gettime` and `clock_nanosleep` on `CLOCK_MONOTONIC`.
pub record Clock (W : Type 0) : Type 0 where
  pub now_monotonic : W → Timespec × W
  pub clock_nanosleep : Timespec → W → W

module _ {W : Type 0} (clock : Clock W) where
  -- The busy wait, on fuel: `none` if the fuel is spent before the time is there.
  unfoldable pub busy_wait : ℕ → Timespec → W → Option W
  busy_wait zero ts w = none
  busy_wait (suc fuel) ts w =
      let (now, w') = clock.now_monotonic w in
      let rest = busy_wait fuel ts w' in if timespec_smaller_than now ts then rest else some w'

  unfoldable pub high_precision_sleep : ℕ → Timespec → W → Option W
  unfolding busy_wait
  high_precision_sleep fuel ts w =
      busy_wait fuel ts
        (clock.clock_nanosleep (timespec_add_ns ts (negsuc (sleep_early_stop_ns - 1))) w)

pub record PrecisionUpdateRate : Type 0 where
  pub time_step_ns : ℤ
  pub sleep_end : Timespec
  pub last_delay_ns : ℤ
  pub accumulated_delay_ns : ℤ
  pub overrun_count : ℕ

abbrev pub reset : Timespec → PrecisionUpdateRate → PrecisionUpdateRate
reset now r = record r {
  sleep_end = now;
  last_delay_ns = pos 0;
  accumulated_delay_ns = pos 0;
  overrun_count = 0;
}

-- The constructor, at the time `now`.
abbrev pub make_rate : ℤ → Timespec → PrecisionUpdateRate
make_rate time_step now = record {
  time_step_ns = time_step;
  sleep_end = now;
  last_delay_ns = pos 0;
  accumulated_delay_ns = pos 0;
  overrun_count = 0;
}

-- `step` up to its sleep, at the time `now`: whether the deadline was missed, and the timer.
unfoldable pub advance : ℤ → Timespec → PrecisionUpdateRate → Bool × PrecisionUpdateRate
advance sync_offset now r =
    let sleep_end = timespec_add_ns r.sleep_end (r.time_step_ns +ℤ sync_offset) in
    let late = timespec_diff_ns now sleep_end in
    if timespec_smaller_than sleep_end now
    then (
      true,
      record r {
        overrun_count = (r.overrun_count + 1) % 2 ^ 64;
        last_delay_ns = late;
        accumulated_delay_ns = r.accumulated_delay_ns +ℤ late;
        sleep_end = timespec_add_ns now r.time_step_ns;
      },
    )
    else (false, record r { sleep_end = sleep_end; last_delay_ns = pos 0 })

-- `step`; `none` if the busy wait spends its fuel.
unfoldable pub step :
    {W : Type 0}
    → Clock W
    → ℕ
    → ℤ
    → PrecisionUpdateRate
    → W
    → Option (Bool × PrecisionUpdateRate × W)
unfolding advance high_precision_sleep
step clock fuel sync_offset r w =
    let (now, w1) = clock.now_monotonic w in
    let (has_overrun, r') = advance sync_offset now r in
    Option.map (λ w2. (has_overrun, r', w2)) (high_precision_sleep clock fuel r'.sleep_end w1)
