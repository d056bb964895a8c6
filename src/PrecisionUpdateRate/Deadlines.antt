-- ===== src/PrecisionUpdateRate/Deadlines.antt =====
-- The deadlines of `PrecisionUpdateRate::step`
-- (include/duatic_ethercat_interface/precision_update_rate.hpp).
use duatic_ethercat_interfac.Prelude.{
  ℕ, zero, suc, ◌+◌, ◌%◌, ◌^◌, ◌≡◌, refl, ap, ◌∙◌, Bool, true, false, List, [], ◌∷◌, length, arith,
  Bool-cases, inl, inr,
}
use duatic_ethercat_interfac.Prelude.Int.{ℤ, pos, ◌+ℤ◌, ◌-ℤ◌, ltb_ℤ, +ℤ_parts, eq_of_parts}
use duatic_ethercat_interfac.PrecisionUpdateRate.{
  Timespec, PrecisionUpdateRate, timespec_smaller_than, timespec_add_ns, timespec_diff_ns, advance,
}
use duatic_ethercat_interfac.PrecisionUpdateRate.Addition.{
  Normalised, ns_of, ns_of-timespec_add_ns, timespec_add_ns-Normalised, timespec_smaller_than_iff,
  timespec_diff_ns_lem,
}

-- How a step ends, by whether the deadline before it is past: the flag and the timer.
abbrev pub Advances : ℤ → ℤ → PrecisionUpdateRate → Bool → Bool → PrecisionUpdateRate → Type 0
Advances deadline now r false flag r' =
    (flag ≡ false)
    × (ns_of r'.sleep_end ≡ deadline)
    × (r'.last_delay_ns ≡ pos 0)
    × (r'.accumulated_delay_ns ≡ r.accumulated_delay_ns)
    × (r'.overrun_count ≡ r.overrun_count)
Advances deadline now r true flag r' =
    (flag ≡ true)
    × (ns_of r'.sleep_end ≡ now +ℤ r.time_step_ns)
    × (r'.last_delay_ns ≡ now -ℤ deadline)
    × (r'.accumulated_delay_ns ≡ r.accumulated_delay_ns +ℤ (now -ℤ deadline))
    × (r'.overrun_count ≡ (r.overrun_count + 1) % 2 ^ 64)

advance-Advances :
    (sync_offset : ℤ) (now : Timespec) (r : PrecisionUpdateRate) (late : Bool)
    → timespec_smaller_than (timespec_add_ns r.sleep_end (r.time_step_ns +ℤ sync_offset)) now ≡ late
    → Advances
        (ns_of r.sleep_end +ℤ (r.time_step_ns +ℤ sync_offset))
        (ns_of now)
        r
        late
        (advance sync_offset now r).0
        (advance sync_offset now r).1
unfolding advance
advance-Advances sync_offset now r true h =
    let deadline = timespec_add_ns r.sleep_end (r.time_step_ns +ℤ sync_offset) in
    let late : timespec_diff_ns now deadline
        ≡ ns_of now -ℤ (ns_of r.sleep_end +ℤ (r.time_step_ns +ℤ sync_offset)) =
      timespec_diff_ns_lem now deadline
      ∙ ap (λ d. ns_of now -ℤ d)
          (ns_of-timespec_add_ns r.sleep_end (r.time_step_ns +ℤ sync_offset)) in
    rw h (
      refl,
      ns_of-timespec_add_ns now r.time_step_ns,
      late,
      ap (λ d. r.accumulated_delay_ns +ℤ d) late,
      refl,
    )
advance-Advances sync_offset now r false h =
    rw h (refl, ns_of-timespec_add_ns r.sleep_end (r.time_step_ns +ℤ sync_offset), refl, refl, refl)

-- If the nanoseconds of the deadline and of the time are between 0 and a second, a step reports an
-- overrun exactly if the next deadline, the last one plus the time step and the offset, is before
-- the time. Then the delay is their distance, it is added to the accumulated delay, the overrun is
-- counted, and the deadline is one time step from the time; otherwise the deadline is that sum, the
-- delay is 0, and nothing is counted.
pub advance_lem :
    (sync_offset : ℤ) (now : Timespec) (r : PrecisionUpdateRate)
    → Normalised now
    → Normalised r.sleep_end
    → let deadline = ns_of r.sleep_end +ℤ (r.time_step_ns +ℤ sync_offset) in
      let (flag, r') = advance sync_offset now r in
      Advances deadline (ns_of now) r (ltb_ℤ deadline (ns_of now)) flag r' × Normalised r'.sleep_end
unfolding advance
advance_lem sync_offset now r n ne =
    let sum = timespec_add_ns r.sleep_end (r.time_step_ns +ℤ sync_offset) in
    let ns = timespec_add_ns-Normalised r.sleep_end (r.time_step_ns +ℤ sync_offset) ne in
    let same : timespec_smaller_than sum now ≡ ltb_ℤ (ns_of sum) (ns_of now) =
      ground (arith, timespec_smaller_than_iff sum now ns n) in
    (
      advance-Advances sync_offset now r _
          (same ∙ ap (λ d. ltb_ℤ d (ns_of now)) (ns_of-timespec_add_ns r.sleep_end _)),
      elim (Bool-cases (timespec_smaller_than sum now)) [
        | inl h ↦ rw h (timespec_add_ns-Normalised now r.time_step_ns n)
        | inr h ↦ rw h ns
      ],
    )

-- The timer after steps without an offset, at these times.
unfoldable pub advances : List Timespec → PrecisionUpdateRate → PrecisionUpdateRate
advances [] r = r
advances (now ∷ nows) r = advances nows (advance (pos 0) now r).1

-- None of the steps reports an overrun.
abbrev pub NoOverrun : List Timespec → PrecisionUpdateRate → Type 0
NoOverrun [] r = Unit {0}
NoOverrun (now ∷ nows) r =
    ((advance (pos 0) now r).0 ≡ false) × NoOverrun nows (advance (pos 0) now r).1

-- As many times the step as there are steps.
abbrev pub steps_total : ℕ → ℤ → ℤ
steps_total zero step = pos 0
steps_total (suc n) step = step +ℤ steps_total n step

advance-on_time :
    (now : Timespec) (r : PrecisionUpdateRate)
    → (advance (pos 0) now r).0 ≡ false
    → (ns_of (advance (pos 0) now r).1.sleep_end ≡ ns_of r.sleep_end +ℤ (r.time_step_ns +ℤ pos 0))
      × ((advance (pos 0) now r).1.time_step_ns ≡ r.time_step_ns)
unfolding advance
advance-on_time now r h =
    elim (Bool-cases
      (timespec_smaller_than (timespec_add_ns r.sleep_end (r.time_step_ns +ℤ pos 0)) now)) [
        | inl t ↦ absurd (ground (arith, h, t))
        | inr f ↦ rw f (ns_of-timespec_add_ns r.sleep_end _, refl)
      ]

-- While no step reports an overrun the deadlines do not drift: after any number of steps the
-- deadline is exactly that many time steps past the first, whatever the times of the steps.
pub advances-no_drift :
    (nows : List Timespec) (r : PrecisionUpdateRate)
    → NoOverrun nows r
    → ns_of (advances nows r).sleep_end
      ≡ ns_of r.sleep_end +ℤ steps_total (length nows) r.time_step_ns
unfolding advances
advances-no_drift [] r h = eq_of_parts _ _ (omega (arith, +ℤ_parts (ns_of r.sleep_end) (pos 0)))
advances-no_drift (now ∷ nows) r (h, hs) =
    let (e, same) = advance-on_time now r h in
    let r' = (advance (pos 0) now r).1 in
    let rest = steps_total (length nows) r.time_step_ns in
    advances-no_drift nows r' hs
    ∙ rw (e, same)
        (eq_of_parts _ _ (
          omega (
            arith,
            +ℤ_parts (ns_of r.sleep_end +ℤ (r.time_step_ns +ℤ pos 0)) rest,
            +ℤ_parts (ns_of r.sleep_end) (r.time_step_ns +ℤ pos 0),
            +ℤ_parts r.time_step_ns (pos 0),
            +ℤ_parts (ns_of r.sleep_end) (r.time_step_ns +ℤ rest),
            +ℤ_parts r.time_step_ns rest,
          )))
