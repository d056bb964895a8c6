-- ===== src/DcSync/Deadline.antt =====
-- The time error of the distributed clock controller, `DCSyncController::update` of
-- include/duatic_ethercat_interface/distributed_clock_sync.hpp.
use native.Mathlib.Nat.{mod-add-div', zero-div, zero-mod}
use duatic_ethercat_interfac.Prelude.{
  ℕ, suc, ◌+◌, ◌*◌, ◌/◌, ◌<◌, ◌≡◌, ap, Bool-cases, inl, inr, arith,
}
use duatic_ethercat_interfac.Prelude.Int.{
  ℤ, pos, pos_part, neg_part, ◌-ℤ◌, ◌+ℤ◌, ◌*ℤ◌, quot, rem, negsuc, ltb_ℤ, ◌≤ℤ◌, +ℤ_parts, -ℤ_parts,
  eq_of_parts,
}
use duatic_ethercat_interfac.DcSync.{DcSyncController, dc_delta}

rem_pos-bounds : (a : ℤ) (n : ℕ) → 0 < n → (pos_part (rem a n) < n) × (neg_part (rem a n) < n)
unfolding rem
rem_pos-bounds a n h = ground arith

quot-rem_lem :
    (a : ℤ) (n : ℕ)
    → pos_part (quot a n) * n + pos_part (rem a n) + neg_part a
      ≡ neg_part (quot a n) * n + neg_part (rem a n) + pos_part a
unfolding quot rem
quot-rem_lem (pos m) n = rw (zero-div n, zero-mod n) ground (arith, mod-add-div' m n)
quot-rem_lem (negsuc m) n = rw (zero-div n, zero-mod n) ground (arith, mod-add-div' (suc m) n)

cycles_parts :
    (k : ℤ) (n : ℕ)
    → pos_part (k *ℤ pos n) + neg_part k * n ≡ neg_part (k *ℤ pos n) + pos_part k * n
unfolding ◌*ℤ◌
cycles_parts k n = ground arith

next_parts :
    (q : ℤ) (n : ℕ)
    → pos_part (q +ℤ pos 1) * n + neg_part q * n ≡ neg_part (q +ℤ pos 1) * n + pos_part q * n + n
next_parts q n =
    let e : pos_part (q +ℤ pos 1) + neg_part q ≡ neg_part (q +ℤ pos 1) + pos_part q + 1 =
      omega (arith, +ℤ_parts q (pos 1)) in
    let e' = ap (λ x. x * n) e in ground (arith, e')

module _ {F : Type 0} where
  dc_delta-bounds :
      (c : DcSyncController F) (dc_time : ℤ)
      → 0 < c.cycle_time
      → (dc_delta c dc_time ≤ℤ pos (c.cycle_time / 2))
        × (neg_part (dc_delta c dc_time) < c.cycle_time)
  unfolding dc_delta
  dc_delta-bounds c dc_time h = ground (
    arith,
    rem_pos-bounds (dc_time -ℤ c.sync_offset) c.cycle_time h,
    -ℤ_parts (rem (dc_time -ℤ c.sync_offset) c.cycle_time) (pos c.cycle_time),
  )

  dc_delta-congruent :
      (c : DcSyncController F) (dc_time : ℤ)
      → (k : ℤ) × (dc_time -ℤ c.sync_offset ≡ k *ℤ pos c.cycle_time +ℤ dc_delta c dc_time)
  unfolding dc_delta
  dc_delta-congruent c dc_time =
      let a = dc_time -ℤ c.sync_offset in
      let n = c.cycle_time in
      let q = quot a n in
      let r = rem a n in
      let whole = quot-rem_lem a n in
      elim (Bool-cases (ltb_ℤ (pos (n / 2)) r)) [
        | inl far ↦ (
          q +ℤ pos 1,
          rw far (
              eq_of_parts _ _ (
                omega (
                  arith,
                  whole,
                  next_parts q n,
                  cycles_parts (q +ℤ pos 1) n,
                  -ℤ_parts r (pos n),
                  +ℤ_parts ((q +ℤ pos 1) *ℤ pos n) (r -ℤ pos n),
                ))),
        )
        | inr near ↦ (
          q,
          rw near
              (eq_of_parts _ _ (omega (arith, whole, cycles_parts q n, +ℤ_parts (q *ℤ pos n) r))),
        )
      ]

  -- If the cycle time is positive, the distance from the deadline is at most half a cycle and more
  -- than minus a cycle, and it is the distance from a point that is whole cycles past the offset.
  pub dc_delta_lem :
      (c : DcSyncController F) (dc_time : ℤ)
      → 0 < c.cycle_time
      → (dc_delta c dc_time ≤ℤ pos (c.cycle_time / 2))
        × (neg_part (dc_delta c dc_time) < c.cycle_time)
        × (k : ℤ) × (dc_time -ℤ c.sync_offset ≡ k *ℤ pos c.cycle_time +ℤ dc_delta c dc_time)
  dc_delta_lem c dc_time h =
      let (half, cycle) = dc_delta-bounds c dc_time h in
      let (k, e) = dc_delta-congruent c dc_time in (half, cycle, k, e)
