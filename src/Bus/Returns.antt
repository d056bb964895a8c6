-- ===== src/Bus/Returns.antt =====
-- Actions that never throw, one rule for each way to build an action of
-- src/internal/soem/soem_backend.cpp.
use duatic_ethercat_interfac.Prelude.{
  ◌≡◌, refl, Bool, true, false, List, [], ◌∷◌, if◌then◌else◌, Option, none, some, ℕ,
}
use duatic_ethercat_interfac.Types.{BusState, Result, ok, err}
use duatic_ethercat_interfac.Soem.{Context}
use duatic_ethercat_interfac.Device.{Hooks}
use duatic_ethercat_interfac.Bus.{
  Bus, Env, Action, pure, gets, modify, on_context, set_state, continue, ◌>>=◌, for_each,
}
use duatic_ethercat_interfac.Bus.DeviceStates.{
  write_target_state, set_device_target_state, wait_for_device_target_state,
}
use duatic_ethercat_interfac.Bus.Pdo.{call_hook}
use duatic_ethercat_interfac.Bus.Lifecycle.{call_hooks, shutdown_running}

abbrev pub is_ok : {A : Type 0} → Result A → Bool
is_ok (ok a) = true
is_ok (err e) = false

module _ {W F : Type 0} where
  pub record Returns {A : Type 0} (m : Action W F A) : Type 0 where
    pub at : (b : Bus W F) → is_ok (m b).0 ≡ true

  Returns-pure : {A : Type 0} (a : A) → Returns (pure a)
  unfolding pure
  Returns-pure a = record { at = λ b. refl }

  Returns-gets : {A : Type 0} (f : Bus W F → A) → Returns (gets f)
  unfolding gets
  Returns-gets f = record { at = λ b. refl }

  Returns-modify : (f : Bus W F → Bus W F) → Returns (modify f)
  unfolding modify
  Returns-modify f = record { at = λ b. refl }

  Returns-on_context : {A : Type 0} (f : Context W → A × Context W) → Returns (on_context f)
  unfolding on_context
  Returns-on_context f = record { at = λ b. refl }

  Returns-set_state : (s : BusState) → Returns (set_state s)
  unfolding set_state
  Returns-set_state s = record { at = λ b. refl }

  Returns-if :
      {A : Type 0} (c : Bool) (m n : Action W F A)
      → Returns m
      → Returns n
      → Returns (if c then m else n)
  Returns-if true m n rm rn = rm
  Returns-if false m n rm rn = rn

  Returns-continue :
      {A B : Type 0} (r : Result A) (f : A → Action W F B) (b : Bus W F)
      → is_ok r ≡ true
      → ((a : A) → Returns (f a))
      → is_ok (continue r f b).0 ≡ true
  Returns-continue (ok a) f b e k = (k a).at b
  Returns-continue (err x) f b e k = e

  Returns-bind :
      {A B : Type 0} (m : Action W F A) (f : A → Action W F B)
      → Returns m
      → ((a : A) → Returns (f a))
      → Returns (m >>= f)
  unfolding ◌>>=◌
  Returns-bind m f rm rf = record {
    at = λ b. let (r, b') = m b in Returns-continue r f b' (rm.at b) rf;
  }

  Returns-for_each :
      {A : Type 0} (xs : List A) (f : A → Action W F (Unit {0}))
      → ((a : A) → Returns (f a))
      → Returns (for_each xs f)
  unfolding for_each
  Returns-for_each [] f k = Returns-pure tt
  Returns-for_each (x ∷ xs) f k = Returns-bind (f x) _ (k x) (λ _. Returns-for_each xs f k)

ruleset returns_rules = (
  Returns-pure, Returns-gets, Returns-modify, Returns-on_context, Returns-set_state, Returns-if,
  Returns-bind, Returns-for_each,
)

-- The callbacks that users register do not throw.
pub record Calm {W F : Type 0} (env : Env W F) : Type 0 where
  pub callback-returns : (f : ℕ) (b : Bus W F) → is_ok (env.callback f b).0 ≡ true

module _ {W F : Type 0} (env : Env W F) where
  set_device_target_state-Returns : (id state : ℕ) → Returns (set_device_target_state env id state)
  unfolding set_device_target_state write_target_state
  set_device_target_state-Returns id state = search returns_rules depth 14

  wait_for_device_target_state-Returns :
      (id state : ℕ) → Returns (wait_for_device_target_state env id state)
  unfolding wait_for_device_target_state
  wait_for_device_target_state-Returns id state = search returns_rules depth 14

module _ {W F : Type 0} (env : Env W F) (calm : Calm env) where
  call_hook-Returns : (hook : Option ℕ) → Returns (call_hook env hook)
  unfolding call_hook
  call_hook-Returns none = Returns-pure tt
  call_hook-Returns (some f) = record { at = calm.callback-returns f }

  call_hooks-Returns : (hook : Hooks → Option ℕ) → Returns (call_hooks env hook)
  unfolding call_hooks
  call_hooks-Returns hook = search (returns_rules, call_hook-Returns) depth 14

  pub shutdown_running-Returns : Returns (shutdown_running env)
  unfolding shutdown_running
  shutdown_running-Returns =
      search
        (
          returns_rules, call_hooks-Returns, set_device_target_state-Returns,
          wait_for_device_target_state-Returns,
        )
        depth 24
