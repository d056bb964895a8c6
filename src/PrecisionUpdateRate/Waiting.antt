-- ===== src/PrecisionUpdateRate/Waiting.antt =====
-- The busy wait of `high_precision_sleep`
-- (include/duatic_ethercat_interface/precision_update_rate.hpp).
use duatic_ethercat_interfac.Prelude.{
  ℕ, zero, suc, ◌≤◌, ◌<◌, ◌≡◌, refl, Bool, true, false, Bool-cases, inl, inr, Option, some, arith,
}
use duatic_ethercat_interfac.Prelude.Int.{negsuc}
use duatic_ethercat_interfac.PrecisionUpdateRate.{
  Timespec, Clock, timespec_smaller_than, timespec_add_ns, busy_wait, high_precision_sleep,
}

module _ {W : Type 0} (clock : Clock W) where
  -- The world after some looks at the clock.
  abbrev pub looks : ℕ → W → W
  looks zero w = w
  looks (suc n) w = looks n (clock.now_monotonic w).1

  -- Whether the look at the clock in this world is before the target.
  abbrev early : Timespec → W → Bool
  early ts w = timespec_smaller_than (clock.now_monotonic w).0 ts

  -- The wait ends right after one of the first `n` looks, and this is the first that is not before
  -- the target.
  abbrev pub EndsAt : ℕ → Timespec → W → Option W → Type 0
  EndsAt n ts w o =
      (m : ℕ) × (m ≤ n)
      × (o ≡ some (looks (suc m) w))
      × (timespec_smaller_than (clock.now_monotonic (looks m w)).0 ts ≡ false)
      × ((k : ℕ) → k < m → timespec_smaller_than (clock.now_monotonic (looks k w)).0 ts ≡ true)

  before_first :
      (m : ℕ) (ts : Timespec) (w : W)
      → early ts w ≡ true
      → ((k : ℕ) → k < m → early ts (looks k (clock.now_monotonic w).1) ≡ true)
      → (k : ℕ) → k < suc m
      → early ts (looks k w) ≡ true
  before_first m ts w e h zero l = e
  before_first m ts w e h (suc k) l = h k (omega (arith, l))

  busy_wait-ends :
      (n : ℕ) (ts : Timespec) (w : W)
      → early ts (looks n w) ≡ false
      → EndsAt n ts w (busy_wait clock (suc n) ts w)
  unfolding busy_wait
  busy_wait-ends zero ts w h = (0, omega arith, rw h refl, h, λ k l. absurd (omega (arith, l)))
  busy_wait-ends (suc n) ts w h = elim (Bool-cases (early ts w)) [
    | inr there ↦ (0, omega arith, rw there refl, there, λ k l. absurd (omega (arith, l)))
    | inl e ↦
        let (m, l, r, there, before) = busy_wait-ends n ts (clock.now_monotonic w).1 h in
        (suc m, omega (arith, l), rw e r, there, before_first m ts w e before)
  ]

  -- If the clock is no longer before the target at some look past the coarse sleep, then the sleep ends
  -- with fuel for one more look: at the first look that is not before the target, and at none earlier.
  pub high_precision_sleep-ends :
      (n : ℕ) (ts : Timespec) (w : W)
      → let w' = clock.clock_nanosleep (timespec_add_ns ts (negsuc 49999)) w in
        timespec_smaller_than (clock.now_monotonic (looks n w')).0 ts ≡ false
        → EndsAt n ts w' (high_precision_sleep clock (suc n) ts w)
  unfolding high_precision_sleep
  high_precision_sleep-ends n ts w h = busy_wait-ends n ts _ h
