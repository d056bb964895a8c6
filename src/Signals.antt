-- ===== src/Signals.antt =====
-- The signals of a thread: `block_signals_current_thread` and `restore_signal_mask` of
-- include/duatic_ethercat_interface/realtime_utils.hpp. The calls of POSIX are a parameter.
pub mod Masks
use duatic_ethercat_interfac.Prelude.{
  ℕ, Bool, true, false, not, Option, none, some, List, [], ◌∷◌, if◌then◌else◌,
}
use duatic_ethercat_interfac.Prelude.Int.{ℤ, pos, eqb_ℤ}

pub data How : Type 0 where
  sig_block sig_setmask : How

-- The numbers of the signals, the operations on a set of signals, and the change of the mask of the
-- current thread: an error code, and the mask before, which is stored if the call succeeds.
pub record Posix (W S : Type 0) : Type 0 where
  pub sigsegv : ℕ
  pub sigbus : ℕ
  pub sigfpe : ℕ
  pub sigill : ℕ
  pub sigtrap : ℕ
  pub sigsys : ℕ
  pub sigabrt : ℕ
  pub sigfillset : ℤ × S
  pub sigdelset : ℕ → S → S
  pub pthread_sigmask : How → S → W → ℤ × (S × W)

module _ {W S : Type 0} (posix : Posix W S) where
  -- The signals that stay allowed.
  abbrev pub synchronous : List ℕ
  synchronous =
      posix.sigsegv ∷ posix.sigbus ∷ posix.sigfpe ∷ posix.sigill ∷ posix.sigtrap ∷ posix.sigsys
      ∷ posix.sigabrt ∷ []

  unfoldable pub allow : List ℕ → S → S
  allow [] set = set
  allow (sig ∷ sigs) set = allow sigs (posix.sigdelset sig set)

  -- Whether it succeeded, and the mask that it stored.
  unfoldable pub block_signals_current_thread : W → (Bool × Option S) × W
  unfolding allow
  block_signals_current_thread w =
      let (filled, set) = posix.sigfillset in
      let (ec, (previous, w')) = posix.pthread_sigmask sig_block (allow synchronous set) w in
      if not (eqb_ℤ filled (pos 0))
      then ((false, none), w)
      else if not (eqb_ℤ ec (pos 0))
      then ((false, none), w')
      else ((true, some previous), w')

  unfoldable pub restore_signal_mask : S → W → Bool × W
  restore_signal_mask mask w =
      let (ec, (previous, w')) = posix.pthread_sigmask sig_setmask mask w in (eqb_ℤ ec (pos 0), w')
