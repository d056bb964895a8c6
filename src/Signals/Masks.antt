-- ===== src/Signals/Masks.antt =====
-- Which signals a thread blocks (include/duatic_ethercat_interface/realtime_utils.hpp).
use duatic_ethercat_interfac.Prelude.{
  ℕ, ◌≡◌, Bool, true, false, not, ◌&&◌, ◌||◌, Option, none, some, ◌==◌,
}
use duatic_ethercat_interfac.Prelude.Int.{pos, eqb_ℤ}
use duatic_ethercat_interfac.Bus.{contains}
use duatic_ethercat_interfac.Signals.{
  sig_block, sig_setmask, Posix, synchronous, restore_signal_mask,
}

-- What POSIX says of its calls: `is_member` is `sigismember`, `mask` the mask of the thread, and
-- `can_block` tells the signals that can be blocked. SIGKILL and SIGSTOP are none: they are silently
-- ignored in a set of signals to block.
pub record Documented {W S : Type 0} (posix : Posix W S) : Type 0 where
  pub is_member : S → ℕ → Bool
  pub mask : W → S
  pub can_block : ℕ → Bool
  pub filled :
      (sig : ℕ)
      → eqb_ℤ (posix.sigfillset).0 (pos 0) ≡ true
      → can_block sig ≡ true
      → is_member (posix.sigfillset).1 sig ≡ true
  pub deleted :
      (sig other : ℕ) (set : S)
      → is_member (posix.sigdelset sig set) other ≡ (not (sig == other) && is_member set other)
  pub blocked :
      (set : S) (w : W) (sig : ℕ)
      → let (ec, (previous, w')) = posix.pthread_sigmask sig_block set w in
        eqb_ℤ ec (pos 0) ≡ true
        → (previous ≡ mask w)
          × (is_member (mask w') sig
              ≡ (is_member (mask w) sig || (can_block sig && is_member set sig)))
  pub replaced :
      (set : S) (w : W)
      → let (ec, (previous, w')) = posix.pthread_sigmask sig_setmask set w in
        eqb_ℤ ec (pos 0) ≡ true → mask w' ≡ set

module _ {W S : Type 0} (posix : Posix W S) (documented : Documented posix) where
  -- A mask that was set again, if the call succeeded, is the one that was captured.
  abbrev pub Restored : W → Bool × W → Type 0
  Restored w (true, w') = documented.mask w' ≡ documented.mask w
  Restored w (false, w') = Unit {0}

  -- After a call that succeeded a signal is blocked if it was blocked before or if it can be blocked
  -- and is not a synchronous one, and the mask that it stored can be restored.
  abbrev pub Blocked : W → ℕ → (Bool × Option S) × W → Type 0
  Blocked w sig ((true, some previous), w') =
      (documented.is_member (documented.mask w') sig ≡ (
        documented.is_member (documented.mask w) sig
        || (documented.can_block sig && not (contains sig (synchronous posix)))))
      × Restored w (restore_signal_mask posix previous w')
  Blocked w sig ((true, none), w') = ⊥
  Blocked w sig ((false, previous), w') = previous ≡ none
