-- ===== src/Mutex.antt =====
-- The mutex of include/duatic_ethercat_interface/priority_inheriting_mutex.hpp. The calls of pthread are
-- a parameter; each gives its error code, 0 for success. The assertion of `unlock`, which a release
-- build leaves out, is not part.
use Prim.Native.String.{String}
use duatic_ethercat_interfac.Prelude.{
  ◌≡◌, refl, Bool, true, false, not, if◌then◌else◌, inl, inr, Bool-cases, arith,
}
use duatic_ethercat_interfac.Prelude.Int.{ℤ, pos, eqb_ℤ}

pub record Pthread (W : Type 0) : Type 0 where
  pub ebusy : ℤ
  pub pthread_mutexattr_init : W → ℤ × W
  pub pthread_mutexattr_setprotocol : W → ℤ × W
  pub pthread_mutex_init : W → ℤ × W
  pub pthread_mutexattr_destroy : W → W
  pub pthread_mutex_destroy : W → W
  pub pthread_mutex_lock : W → ℤ × W
  pub pthread_mutex_trylock : W → ℤ × W
  pub pthread_mutex_unlock : W → ℤ × W

-- `system_error` is `std::system_error` of this code, with the name of the call that failed.
pub data Outcome (A : Type 0) : Type 0 where
  returned : A → Outcome A
  system_error : ℤ → String → Outcome A

abbrev is_failure : ℤ → Bool
is_failure err = not (eqb_ℤ err (pos 0))

module _ {W : Type 0} (pthread : Pthread W) where
  -- The constructor.
  unfoldable pub make_mutex : W → Outcome (Unit {0}) × W
  make_mutex w =
      let (attr_err, w1) = pthread.pthread_mutexattr_init w in
      let (protocol_err, w2) = pthread.pthread_mutexattr_setprotocol w1 in
      let (init_err, w3) = pthread.pthread_mutex_init w2 in
      if is_failure attr_err
      then (system_error attr_err "pthread_mutexattr_init", w1)
      else if is_failure protocol_err
      then (
        system_error protocol_err "pthread_mutexattr_setprotocol(PRIO_INHERIT)",
        pthread.pthread_mutexattr_destroy w2,
      )
      else if is_failure init_err
      then (system_error init_err "pthread_mutex_init", pthread.pthread_mutexattr_destroy w3)
      else (returned tt, pthread.pthread_mutexattr_destroy w3)

  abbrev pub destroy_mutex : W → W
  destroy_mutex w = pthread.pthread_mutex_destroy w

  unfoldable pub lock : W → Outcome (Unit {0}) × W
  lock w =
      let (err, w') = pthread.pthread_mutex_lock w in
      (if is_failure err then system_error err "pthread_mutex_lock" else returned tt, w')

  unfoldable pub try_lock : W → Outcome Bool × W
  try_lock w =
      let (err, w') = pthread.pthread_mutex_trylock w in
      (
        if is_failure err
            then (if eqb_ℤ err pthread.ebusy
                then returned false
                else system_error err "pthread_mutex_trylock")
            else returned true,
        w',
      )

  abbrev pub unlock : W → W
  unlock w = (pthread.pthread_mutex_unlock w).1

-- What pthread says of its mutexes: `is_locked` is whether a thread holds this one.
record Documented {W : Type 0} (pthread : Pthread W) : Type 0 where
  is_locked : W → Bool
  busy_is_an_error : eqb_ℤ pthread.ebusy (pos 0) ≡ false
  trylock_free :
      (w : W)
      → is_locked w ≡ false
      → ((pthread.pthread_mutex_trylock w).0 ≡ pos 0)
        × (is_locked (pthread.pthread_mutex_trylock w).1 ≡ true)
  trylock_held :
      (w : W)
      → is_locked w ≡ true
      → ((pthread.pthread_mutex_trylock w).0 ≡ pthread.ebusy)
        × (is_locked (pthread.pthread_mutex_trylock w).1 ≡ true)

module _ {W : Type 0} (pthread : Pthread W) (documented : Documented pthread) where
  -- If pthread does what is documented then try_lock throws nothing: it tells whether the mutex was
  -- free, and the mutex is locked after it.
  try_lock_lem :
      (w : W)
      → ((try_lock pthread w).0 ≡ returned (not (documented.is_locked w)))
        × (documented.is_locked (try_lock pthread w).1 ≡ true)
  unfolding try_lock
  try_lock_lem w = elim (Bool-cases (documented.is_locked w)) [
    | inl h ↦
        let (code, locked) = documented.trylock_held w h in
        let same : eqb_ℤ pthread.ebusy pthread.ebusy ≡ true = ground arith in
        (rw (h, code, documented.busy_is_an_error, same) refl, locked)
    | inr h ↦ let (code, locked) = documented.trylock_free w h in (rw (h, code) refl, locked)
  ]
