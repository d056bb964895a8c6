-- ===== src/Bus/StateMachine/Guards.antt =====
-- The guards of the calls that move the bus (src/internal/soem/soem_backend.cpp): in any state but
-- the one that a call is for, it throws before it does anything.
use duatic_ethercat_interfac.Prelude.{
  ℕ, ◌≡◌, refl, sym, ap, ◌∙◌, Bool, true, false, not, arith, ◌==◌, if◌then◌else◌, ==_iff,
}
use duatic_ethercat_interfac.Types.{
  BusState, pre_init, initialized, configured, activated, shutting_down, shut_down, Error, err,
}
use duatic_ethercat_interfac.Bus.{Bus, Env, Action, gets, throw_if, is_in, rank, soem_error, ◌>>=◌}
use duatic_ethercat_interfac.Bus.Lifecycle.{initialize}
use duatic_ethercat_interfac.Bus.Startup.{startup, activate}

unrank : ℕ → BusState
unrank n =
    if n == 0
    then pre_init
    else if n == 1
    then initialized
    else if n == 2
    then configured
    else if n == 3
    then activated
    else if n == 4
    then BusState.operational
    else if n == 5
    then shutting_down
    else shut_down

unrank-rank : (s : BusState) → unrank (rank s) ≡ s
unfolding unrank
unrank-rank pre_init = refl
unrank-rank initialized = refl
unrank-rank configured = refl
unrank-rank activated = refl
unrank-rank BusState.operational = refl
unrank-rank shutting_down = refl
unrank-rank shut_down = refl

-- The test on the state decides it.
pub is_in-At : {W F : Type 0} (s : BusState) (b : Bus W F) → is_in s b ≡ true → b.state ≡ s
is_in-At s b h =
    sym (unrank-rank b.state) ∙ ap unrank ((==_iff (rank b.state) (rank s)).0 h) ∙ unrank-rank s

module _ {W F : Type 0} where
  guarded :
      {A : Type 0} (c : Bus W F → Bool) (e : Error) (k : Unit → Action W F A) (b : Bus W F)
      → c b ≡ false
      → (gets c >>= λ x. throw_if (not x) e >>= k) b ≡ (err e, b)
  unfolding ◌>>=◌
  guarded c e k b h = ground (arith, h)

module _ {W F : Type 0} (env : Env W F) (b : Bus W F) where
  pub initialize-refuses :
      is_in pre_init b ≡ false
      → initialize env b ≡ (err (soem_error "Bus is already initialized"), b)
  unfolding initialize
  initialize-refuses h = guarded _ _ _ b h

  pub startup-refuses :
      is_in initialized b ≡ false
      → startup env b
        ≡ (err (soem_error "Cannot perform startup - bus needs to be in 'Initialized' state"), b)
  unfolding startup
  startup-refuses h = guarded _ _ _ b h

  pub activate-refuses :
      is_in configured b ≡ false
      → activate env b
        ≡ (err (soem_error "Cannot perform activate - bus needs to be in 'Configured' state"), b)
  unfolding activate
  activate-refuses h = guarded _ _ _ b h
