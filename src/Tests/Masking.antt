-- ===== src/Tests/Masking.antt =====
-- Runs of the signal masks, on a world that is the mask of the thread: a function that tells the
-- blocked signals.
use duatic_ethercat_interfac.Prelude.{ℕ, refl, Bool, true, not, ◌&&◌, ◌||◌, ◌==◌}
use duatic_ethercat_interfac.Prelude.Int.{pos}
use duatic_ethercat_interfac.Signals.{How, sig_block, sig_setmask, Posix}
use duatic_ethercat_interfac.Signals.Masks.{Documented}

abbrev Mask : Type 0
Mask = ℕ → Bool

-- The kernel's, which ignores SIGKILL and SIGSTOP.
abbrev can_block : ℕ → Bool
can_block sig = not (sig == 9) && not (sig == 19)

abbrev masked : How → Mask → Mask → Mask
masked sig_block set old = λ sig. old sig || (can_block sig && set sig)
masked sig_setmask set old = set

-- The numbers on Linux.
abbrev posix : Posix Mask Mask
posix = record {
  sigsegv = 11;
  sigbus = 7;
  sigfpe = 8;
  sigill = 4;
  sigtrap = 5;
  sigsys = 31;
  sigabrt = 6;
  sigfillset = (pos 0, λ sig. true);
  sigdelset = λ sig set. λ other. not (sig == other) && set other;
  pthread_sigmask = λ how set w. (pos 0, (w, masked how set w));
}

abbrev documented : Documented posix
documented = record {
  is_member = λ set. set;
  mask = λ w. w;
  can_block = can_block;
  filled = λ sig e c. refl;
  deleted = λ sig other set. refl;
  blocked = λ set w sig e. (refl, refl);
  replaced = λ set w e. refl;
}
