-- ===== src/PrecisionUpdateRate/Addition.antt =====
-- Arithmetic on points in time, of include/duatic_ethercat_interface/precision_update_rate.hpp.
use duatic_ethercat_interfac.Prelude.{◌+◌, ◌*◌, ◌<◌, ◌≡◌, ◌↔◌, true, arith}
use duatic_ethercat_interfac.Prelude.Int.{
  ℤ, pos, pos_part, neg_part, ◌+ℤ◌, ◌-ℤ◌, ◌*ℤ◌, quot, rem, +ℤ_parts, -ℤ_parts, eq_of_parts, ◌<ℤ◌,
}
use duatic_ethercat_interfac.PrecisionUpdateRate.{
  Timespec, timespec_smaller_than, timespec_diff_ns, carry, timespec_add_ns,
}

-- The nanoseconds are between 0 and a second.
pub record Normalised (t : Timespec) : Type 0 where
  pub not_negative : neg_part t.tv_nsec ≡ 0
  pub below : pos_part t.tv_nsec < 1000000000

-- The time in nanoseconds.
unfoldable pub ns_of : Timespec → ℤ
ns_of t = t.tv_sec *ℤ pos 1000000000 +ℤ t.tv_nsec

seconds_parts :
    (a : ℤ)
    → pos_part (a *ℤ pos 1000000000) + neg_part a * 1000000000
      ≡ neg_part (a *ℤ pos 1000000000) + pos_part a * 1000000000
unfolding ◌*ℤ◌
seconds_parts a = ground arith

pub ns_of_parts :
    (t : Timespec)
    → pos_part (ns_of t) + neg_part t.tv_sec * 1000000000 + neg_part t.tv_nsec
      ≡ neg_part (ns_of t) + pos_part t.tv_sec * 1000000000 + pos_part t.tv_nsec
unfolding ns_of
ns_of_parts t =
    omega (arith, seconds_parts t.tv_sec, +ℤ_parts (t.tv_sec *ℤ pos 1000000000) t.tv_nsec)

carry-total :
    (t : Timespec)
    → pos_part (carry t).tv_sec * 1000000000
        + pos_part (carry t).tv_nsec
        + neg_part t.tv_sec * 1000000000
        + neg_part t.tv_nsec
      ≡ neg_part (carry t).tv_sec * 1000000000
        + neg_part (carry t).tv_nsec
        + pos_part t.tv_sec * 1000000000
        + pos_part t.tv_nsec
unfolding carry ◌+ℤ◌ ◌-ℤ◌
carry-total t = ground arith

quot-rem :
    (ns : ℤ)
    → pos_part (quot ns 1000000000) * 1000000000 + pos_part (rem ns 1000000000) + neg_part ns
      ≡ neg_part (quot ns 1000000000) * 1000000000 + neg_part (rem ns 1000000000) + pos_part ns
unfolding quot rem
quot-rem ns = ground arith

-- The sum is later by exactly the given number of nanoseconds, for negative numbers too.
pub ns_of-timespec_add_ns : (t : Timespec) (ns : ℤ) → ns_of (timespec_add_ns t ns) ≡ ns_of t +ℤ ns
unfolding timespec_add_ns
ns_of-timespec_add_ns t ns =
    let raw : Timespec = record {
      tv_sec = t.tv_sec +ℤ quot ns 1000000000;
      tv_nsec = t.tv_nsec +ℤ rem ns 1000000000;
    } in
    eq_of_parts _ _ (
      omega (
        arith,
        ns_of_parts (carry raw),
        ns_of_parts t,
        +ℤ_parts (ns_of t) ns,
        carry-total raw,
        quot-rem ns,
        +ℤ_parts t.tv_sec (quot ns 1000000000),
        +ℤ_parts t.tv_nsec (rem ns 1000000000),
      ))

rem-bounds :
    (ns : ℤ)
    → (pos_part (rem ns 1000000000) < 1000000000) × (neg_part (rem ns 1000000000) < 1000000000)
unfolding rem
rem-bounds ns = ground arith

sum-bounds :
    (a b : ℤ)
    → neg_part a ≡ 0
    → pos_part a < 1000000000
    → pos_part b < 1000000000
    → neg_part b < 1000000000
    → (pos_part (a +ℤ b) < 2000000000) × (neg_part (a +ℤ b) < 1000000000)
unfolding ◌+ℤ◌
sum-bounds a b ha la pb nb = ground arith

carry-Normalised :
    (t : Timespec)
    → pos_part t.tv_nsec < 2000000000
    → neg_part t.tv_nsec < 1000000000
    → (neg_part (carry t).tv_nsec ≡ 0) × (pos_part (carry t).tv_nsec < 1000000000)
unfolding carry ◌+ℤ◌ ◌-ℤ◌
carry-Normalised t p n = ground arith

-- If the nanoseconds of a point in time are between 0 and a second, so are those of the sum.
pub timespec_add_ns-Normalised :
    (t : Timespec) (ns : ℤ) → Normalised t → Normalised (timespec_add_ns t ns)
unfolding timespec_add_ns
timespec_add_ns-Normalised t ns n =
    let (pr, nr) = rem-bounds ns in
    let (ps, nn) = sum-bounds t.tv_nsec (rem ns 1000000000) n.not_negative n.below pr nr in
    let raw : Timespec = record {
      tv_sec = t.tv_sec +ℤ quot ns 1000000000;
      tv_nsec = t.tv_nsec +ℤ rem ns 1000000000;
    } in
    let (zeroed, bounded) = carry-Normalised raw ps nn in
    record { not_negative = zeroed; below = bounded }

-- If the nanoseconds of two points in time are between 0 and a second, the comparison of the fields
-- is the comparison of the times.
pub timespec_smaller_than_iff :
    (a b : Timespec)
    → Normalised a
    → Normalised b
    → (timespec_smaller_than a b ≡ true) ↔ (ns_of a <ℤ ns_of b)
timespec_smaller_than_iff a b na nb =
    ground
      (arith, na.not_negative, na.below, nb.not_negative, nb.below, ns_of_parts a, ns_of_parts b)

-- The difference of two points in time is that of their nanoseconds.
pub timespec_diff_ns_lem : (a b : Timespec) → timespec_diff_ns a b ≡ ns_of a -ℤ ns_of b
unfolding timespec_diff_ns
timespec_diff_ns_lem a b =
    let s = a.tv_sec -ℤ b.tv_sec in
    let n = a.tv_nsec -ℤ b.tv_nsec in
    eq_of_parts _ _ (
      omega (
        arith,
        ns_of_parts a,
        ns_of_parts b,
        -ℤ_parts (ns_of a) (ns_of b),
        -ℤ_parts a.tv_sec b.tv_sec,
        -ℤ_parts a.tv_nsec b.tv_nsec,
        seconds_parts s,
        +ℤ_parts (s *ℤ pos 1000000000) n,
      ))
