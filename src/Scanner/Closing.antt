-- ===== src/Scanner/Closing.antt =====
-- How a session of src/tools/bus_scanner.cpp with a bus of its own ends.
use duatic_ethercat_interfac.Prelude.{
  ℕ, ◌≡◌, refl, ap, ◌∙◌, true, List, [], ◌∷◌, ◌⊎◌, inl, inr, arith,
}
use duatic_ethercat_interfac.Prelude.Int.{ℤ}
use duatic_ethercat_interfac.Types.{
  BusState, pre_init, initialized, shut_down, Text, is_runtime_error, Result, ok, err,
}
use duatic_ethercat_interfac.Soem.{Context}
use duatic_ethercat_interfac.Device.{clear_bus}
use duatic_ethercat_interfac.Bus.{Bus, Env, ◌>>=◌ as bus_bind}
use duatic_ethercat_interfac.Bus.Keeps.{Ends}
use duatic_ethercat_interfac.Bus.Throws.{RuntimeOnly, Throws-initialize}
use duatic_ethercat_interfac.Bus.StateMachine.Moves.{initialize-Ensures}
use duatic_ethercat_interfac.Bus.Pdo.{update_device}
use duatic_ethercat_interfac.Bus.Lifecycle.{initialize, shutdown}
use duatic_ethercat_interfac.Bus.Owner.{clear_all, swallow, destroy}
use duatic_ethercat_interfac.Scanner.Console.{Session, call, go_on, ◌>>=◌}
use duatic_ethercat_interfac.Scanner.Sessions.{Decent}

-- The states before and after an initialization.
abbrev pub Early : BusState → Type 0
Early s = (s ≡ pre_init) ⊎ (s ≡ initialized)

-- How a session ends that initializes its bus.
abbrev pub Worked : {A : Type 0} → Result A → BusState → Type 0
Worked (ok a) s = s ≡ initialized
Worked (err e) s = (is_runtime_error e ≡ true) × Early s

Worked-on :
    {A : Type 0} (r : Result A) (s t : BusState)
    → RuntimeOnly r
    → t ≡ s
    → s ≡ initialized
    → Worked r t
Worked-on (ok a) s t h e i = e ∙ i
Worked-on (err x) s t h e i = (h, inr (e ∙ i))

initialized_or :
    {A : Type 0} (r : Result A) (s : BusState)
    → RuntimeOnly r
    → Ends (λ t. t ≡ initialized) Early r s
    → Worked r s
initialized_or (ok a) s h e = e
initialized_or (err x) s h e = (h, e)

module _ {W F : Type 0} where
  then_works :
      {A B : Type 0} (r : Result A) (f : A → Session W F B) (x : Bus W F × Text)
      → Worked r x.0.state
      → ((a : A) → Decent (f a))
      → Worked (go_on r f x).0 (go_on r f x).1.0.state
  then_works (ok a) f x i d =
      let (h, e) = (d a).at x in Worked-on (f a x).0 x.0.state (f a x).1.0.state h e i
  then_works (err e) f x h d = h

module _ {W F : Type 0} (env : Env W F) where
  pub initializing :
      (f : ℤ → Session W F (Unit {0})) (x : Bus W F × Text)
      → ((a : ℤ) → Decent (f a))
      → x.0.state ≡ pre_init
      → let y = (call (initialize env) >>= f) x in Worked y.0 y.1.0.state
  unfolding ◌>>=◌
  initializing f x d e =
      let (r, b) = initialize env x.0 in
      then_works r f (b, x.1)
        (initialized_or r b.state ((Throws-initialize env).at x.0)
          ((initialize-Ensures env (λ t. inl) (λ t. inr)).at x.0 e))
        d

  clear_all-state : (ids : List ℕ) (b : Bus W F) → (clear_all ids b).state ≡ b.state
  unfolding clear_all
  clear_all-state [] b = refl
  clear_all-state (id ∷ ids) b = clear_all-state ids (update_device id clear_bus b)

  abbrev pub Closed : Bus W F → Type 0
  Closed b = (b.state ≡ shut_down) × ((c : Context W) × (b.context ≡ env.soem.ecx_close c))

  closed :
      (b : Bus W F)
      → b.state ≡ initialized
      → ((shutdown env b).0 ≡ ok tt) × Closed (shutdown env b).1
  unfolding shutdown bus_bind
  closed b h = (ground (arith, h), (ground (arith, h), (b.context, ground (arith, h))))

  pub destroy-initialized :
      (b : Bus W F) → b.state ≡ initialized → ((destroy env b).0 ≡ ok tt) × Closed (destroy env b).1
  unfolding destroy
  destroy-initialized b h =
      let (r, c) = closed (clear_all b.devices b) (clear_all-state b.devices b ∙ h) in
      (ap swallow r, c)

  left :
      (b : Bus W F)
      → b.state ≡ pre_init
      → ((shutdown env b).0 ≡ ok tt) × ((shutdown env b).1.state ≡ shut_down)
  unfolding shutdown bus_bind
  left b h = (ground (arith, h), ground (arith, h))

  pub destroy-Early :
      (b : Bus W F)
      → Early b.state
      → ((destroy env b).0 ≡ ok tt) × ((destroy env b).1.state ≡ shut_down)
  unfolding destroy
  destroy-Early b (inl h) =
      let (r, s) = left (clear_all b.devices b) (clear_all-state b.devices b ∙ h) in
      (ap swallow r, s)
  destroy-Early b (inr h) = let (r, (s, c)) = destroy-initialized b h in (r, s)
