-- ===== src/DcSync.antt =====
-- The distributed clock controller of include/duatic_ethercat_interface/distributed_clock_sync.hpp.
-- Nanoseconds are integers of any size; the floating-point type and its operations are a parameter.
pub mod Deadline
use duatic_ethercat_interfac.Prelude.{ℕ, ◌/◌, if◌then◌else◌}
use duatic_ethercat_interfac.Prelude.Int.{ℤ, pos, neg, ◌-ℤ◌, rem, ltb_ℤ}

-- `double`: the literals and operations that the source uses.
pub record Double (F : Type 0) : Type 0 where
  pub zero_double : F
  pub default_p_gain : F
  pub default_i_gain : F
  pub of_int : ℤ → F
  pub to_int64 : F → ℤ
  pub add : F → F → F
  pub mul : F → F → F
  pub div : F → F → F
  pub half : F

pub record DcSyncController (F : Type 0) : Type 0 where
  pub cycle_time : ℕ
  pub sync_offset : ℤ
  pub p_gain : F
  pub i_gain : F
  pub integral : F
  pub last_time_error : ℤ

-- How far the reference clock is past the deadline, folded once when past half a cycle.
unfoldable pub dc_delta : {F : Type 0} → DcSyncController F → ℤ → ℤ
dc_delta c dc_time =
    let delta = rem (dc_time -ℤ c.sync_offset) c.cycle_time in
    if ltb_ℤ (pos (c.cycle_time / 2)) delta then delta -ℤ pos c.cycle_time else delta

module _ {F : Type 0} (double : Double F) where
  -- The constructor with the default gains, which is how the backend calls it.
  abbrev pub make_dc_sync : ℕ → ℤ → DcSyncController F
  make_dc_sync cycle_time sync_offset = record {
    cycle_time = cycle_time;
    sync_offset = sync_offset;
    p_gain = double.default_p_gain;
    i_gain = double.default_i_gain;
    integral = double.zero_double;
    last_time_error = pos 0;
  }

  -- `update`: the correction of the next deadline, and the new controller.
  pub update_dc_sync : DcSyncController F → ℤ → ℤ × DcSyncController F
  unfolding dc_delta
  update_dc_sync c dc_time =
      let error = neg (dc_delta c dc_time) in
      let integral = double.add c.integral (double.of_int error) in
      (
        double.to_int64
            (double.add (double.mul (double.of_int error) c.p_gain) (double.mul integral c.i_gain)),
        record c { integral = integral; last_time_error = error },
      )

  pub reset_dc_sync : DcSyncController F → DcSyncController F
  reset_dc_sync c = record c { integral = double.zero_double; last_time_error = pos 0 }
