-- ===== src/Tests/Timing.antt =====
-- Runs of the theorems on deadlines and on the distributed clock.
use duatic_ethercat_interfac.Prelude.{ℕ, ◌+◌, ◌/◌, ◌<◌, ◌≡◌, refl, [], ◌∷◌, arith}
use duatic_ethercat_interfac.Prelude.Int.{
  ℤ, pos, negsuc, neg_part, ◌+ℤ◌, ◌*ℤ◌, ◌-ℤ◌, quot, rem, ◌≤ℤ◌, ltb_ℤ,
}
use duatic_ethercat_interfac.DcSync.{DcSyncController, make_dc_sync, dc_delta}
use duatic_ethercat_interfac.DcSync.Deadline.{dc_delta_lem}
use duatic_ethercat_interfac.PrecisionUpdateRate.{
  Timespec, PrecisionUpdateRate, Clock, make_rate, advance, timespec_add_ns, timespec_diff_ns,
  high_precision_sleep,
}
use duatic_ethercat_interfac.PrecisionUpdateRate.Addition.{Normalised, ns_of, ns_of-timespec_add_ns}
use duatic_ethercat_interfac.PrecisionUpdateRate.Deadlines.{
  Advances, NoOverrun, advances, steps_total, advance_lem, advances-no_drift,
}
use duatic_ethercat_interfac.PrecisionUpdateRate.Waiting.{EndsAt, high_precision_sleep-ends}
use duatic_ethercat_interfac.Tests.World.{double}

abbrev at : ℕ → ℕ → Timespec
at s ns = record { tv_sec = pos s; tv_nsec = pos ns }

abbrev early : Normalised (at 1 999999999)
early = record { not_negative = refl; below = omega arith }

abbrev late : Normalised (at 2 5)
late = record { not_negative = refl; below = omega arith }

ns_of-timespec_add_ns_example :
    ns_of (timespec_add_ns (at 2 5) (negsuc 9)) ≡ ns_of (at 2 5) +ℤ negsuc 9
ns_of-timespec_add_ns_example = ns_of-timespec_add_ns (at 2 5) (negsuc 9)

abbrev rate : PrecisionUpdateRate
rate = make_rate (pos 1000) (at 1 999999999)

advance_lem_example :
    let deadline = ns_of (at 1 999999999) +ℤ (pos 1000 +ℤ negsuc 4) in
    let (flag, r') = advance (negsuc 4) (at 2 5) rate in
    Advances deadline (ns_of (at 2 5)) rate (ltb_ℤ deadline (ns_of (at 2 5))) flag r'
    × Normalised r'.sleep_end
advance_lem_example = advance_lem (negsuc 4) (at 2 5) rate late early

on_time : NoOverrun (at 2 5 ∷ at 2 1005 ∷ []) rate
unfolding advance timespec_add_ns timespec_diff_ns ◌+ℤ◌ ◌-ℤ◌ quot rem
on_time = (refl, (refl, tt))

advances-no_drift_example :
    ns_of (advances (at 2 5 ∷ at 2 1005 ∷ []) rate).sleep_end
    ≡ ns_of (at 1 999999999) +ℤ steps_total 2 (pos 1000)
advances-no_drift_example = advances-no_drift (at 2 5 ∷ at 2 1005 ∷ []) rate on_time

-- A clock that goes on by a second at every look.
abbrev clock : Clock ℕ
clock = record { now_monotonic = λ w. (at w 0, w + 1); clock_nanosleep = λ ts w. w }

high_precision_sleep-ends_example :
    EndsAt clock 3 (at 2 5) 0 (high_precision_sleep clock 4 (at 2 5) 0)
high_precision_sleep-ends_example = high_precision_sleep-ends clock 3 (at 2 5) 0 refl

abbrev controller : DcSyncController ℤ
controller = make_dc_sync double 1000000 (pos 0)

dc_delta_lem_example :
    (dc_delta controller (pos 1700000) ≤ℤ pos (1000000 / 2))
    × (neg_part (dc_delta controller (pos 1700000)) < 1000000)
    × (k : ℤ) × (pos 1700000 -ℤ pos 0 ≡ k *ℤ pos 1000000 +ℤ dc_delta controller (pos 1700000))
dc_delta_lem_example = dc_delta_lem controller (pos 1700000) (omega arith)
