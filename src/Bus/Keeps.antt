-- ===== src/Bus/Keeps.antt =====
-- Rules for the state of the bus under the actions of `duatic_ethercat_interfac.Bus`, one for each way
-- to build an action. The library `src/internal/soem/soem_backend.cpp` is a chain of such actions.
pub mod Calls
pub mod Access
pub mod Hooks
pub mod Dictionary
use duatic_ethercat_interfac.Prelude.{
  ◌≡◌, refl, sym, ◌∙◌, Bool, true, false, subst, List, [], ◌∷◌, if◌then◌else◌,
}
use duatic_ethercat_interfac.Types.{BusState, Error, Result, ok, err}
use duatic_ethercat_interfac.Soem.{Context}
use duatic_ethercat_interfac.Bus.{
  Bus, Action, pure, throw, gets, modify, throw_if, when, on_context, set_state, continue, ◌>>=◌,
  for_each,
}

module _ {W F : Type 0} where
  -- The action leaves the state of the bus as it was, whether it returns or throws.
  pub record Keeps {A : Type 0} (m : Action W F A) : Type 0 where
    pub at : (b : Bus W F) → (m b).1.state ≡ b.state

  pub Keeps-pure : {A : Type 0} (a : A) → Keeps (pure a)
  unfolding pure
  Keeps-pure a = record { at = λ b. refl }

  pub Keeps-throw : {A : Type 0} (e : Error) → Keeps (throw {A = A} e)
  unfolding throw
  Keeps-throw e = record { at = λ b. refl }

  pub Keeps-gets : {A : Type 0} (f : Bus W F → A) → Keeps (gets f)
  unfolding gets
  Keeps-gets f = record { at = λ b. refl }

  pub Keeps-throw_if : (c : Bool) (e : Error) → Keeps (throw_if c e)
  unfolding throw_if
  Keeps-throw_if c e = record { at = λ b. refl }

  pub Keeps-modify :
      (f : Bus W F → Bus W F) → ((b : Bus W F) → (f b).state ≡ b.state) → Keeps (modify f)
  unfolding modify
  Keeps-modify f h = record { at = h }

  pub Keeps-on_context : {A : Type 0} (f : Context W → A × Context W) → Keeps (on_context f)
  unfolding on_context
  Keeps-on_context f = record { at = λ b. refl }

  pub Keeps-when : (c : Bool) (m : Action W F (Unit {0})) → Keeps m → Keeps (when c m)
  unfolding when
  Keeps-when true m k = record { at = λ b. k.at b }
  Keeps-when false m k = record { at = λ b. refl }

  pub Keeps-if :
      {A : Type 0} (c : Bool) (m n : Action W F A) → Keeps m → Keeps n → Keeps (if c then m else n)
  Keeps-if true m n km kn = km
  Keeps-if false m n km kn = kn

  Keeps-continue :
      {A B : Type 0} (r : Result A) (f : A → Action W F B) (b : Bus W F)
      → ((a : A) → Keeps (f a))
      → (continue r f b).1.state ≡ b.state
  Keeps-continue (ok a) f b k = (k a).at b
  Keeps-continue (err e) f b k = refl

  pub Keeps-bind :
      {A B : Type 0} (m : Action W F A) (f : A → Action W F B)
      → Keeps m
      → ((a : A) → Keeps (f a))
      → Keeps (m >>= f)
  unfolding ◌>>=◌
  Keeps-bind m f km kf = record {
    at = λ b. let (r, b') = m b in Keeps-continue r f b' kf ∙ km.at b;
  }

  pub Keeps-for_each :
      {A : Type 0} (xs : List A) (f : A → Action W F (Unit {0}))
      → ((a : A) → Keeps (f a))
      → Keeps (for_each xs f)
  unfolding for_each
  Keeps-for_each [] f k = Keeps-pure tt
  Keeps-for_each (x ∷ xs) f k = Keeps-bind (f x) _ (k x) (λ _. Keeps-for_each xs f k)

pub ruleset keeps_rules = (
  Keeps-pure, Keeps-throw, Keeps-gets, Keeps-throw_if, Keeps-modify, Keeps-on_context, Keeps-when,
  Keeps-if, Keeps-bind, Keeps-for_each,
)

-- The state after an action, by how it ended.
abbrev pub Ends :
    {A : Type 0} → (BusState → Type 0) → (BusState → Type 0) → Result A → BusState → Type 0
Ends Q E (ok a) s = Q s
Ends Q E (err e) s = E s

ends-same :
    {A : Type 0} {P E : BusState → Type 0} (r : Result A) {s t : BusState}
    → t ≡ s
    → ((u : BusState) → P u → E u)
    → P s
    → Ends P E r t
ends-same {P = P} (ok a) e h p = subst P (sym e) p
ends-same {P = P} (err x) {s} {t} e h p = h t (subst P (sym e) p)

module _ {W F : Type 0} where
  -- From a state in `P` the action returns in a state in `Q` or throws in a state in `E`.
  pub record Ensures {A : Type 0} (P Q E : BusState → Type 0) (m : Action W F A) : Type 0 where
    pub at : (b : Bus W F) → P b.state → Ends Q E (m b).0 (m b).1.state

  pub Ensures-Keeps :
      {A : Type 0} {P E : BusState → Type 0} (m : Action W F A)
      → Keeps m
      → ((s : BusState) → P s → E s)
      → Ensures P P E m
  Ensures-Keeps m k h = record { at = λ b p. ends-same (m b).0 (k.at b) h p }

  pub Ensures-set_state :
      {P E : BusState → Type 0} (s : BusState) → Ensures P (λ t. t ≡ s) E (set_state s)
  unfolding set_state
  Ensures-set_state s = record { at = λ b p. refl }

  pub Ensures-throw :
      {A : Type 0} {P Q E : BusState → Type 0} (e : Error)
      → ((s : BusState) → P s → E s)
      → Ensures P Q E (throw {A = A} e)
  unfolding throw
  Ensures-throw e h = record { at = λ b p. h b.state p }

  pub Ensures-pure : {A : Type 0} {P E : BusState → Type 0} (a : A) → Ensures P P E (pure a)
  unfolding pure
  Ensures-pure a = record { at = λ b p. p }

  Ensures-continue :
      {A B : Type 0} {Q R E : BusState → Type 0} (r : Result A) (f : A → Action W F B) (b : Bus W F)
      → Ends Q E r b.state
      → ((a : A) → Ensures Q R E (f a))
      → Ends R E (continue r f b).0 (continue r f b).1.state
  Ensures-continue (ok a) f b q k = (k a).at b q
  Ensures-continue (err e) f b q k = q

  pub Ensures-bind :
      {A B : Type 0} {P Q R E : BusState → Type 0} (m : Action W F A) (f : A → Action W F B)
      → Ensures P Q E m
      → ((a : A) → Ensures Q R E (f a))
      → Ensures P R E (m >>= f)
  unfolding ◌>>=◌
  Ensures-bind m f em ef = record {
    at = λ b p. let (r, b') = m b in Ensures-continue r f b' (em.at b p) ef;
  }

  pub Ensures-when :
      {P E : BusState → Type 0} (c : Bool) (m : Action W F (Unit {0}))
      → Ensures P P E m
      → Ensures P P E (when c m)
  unfolding when
  Ensures-when true m e = record { at = λ b p. e.at b p }
  Ensures-when false m e = record { at = λ b p. p }

  pub Ensures-for_each :
      {A : Type 0} {P E : BusState → Type 0} (xs : List A) (f : A → Action W F (Unit {0}))
      → ((a : A) → Ensures P P E (f a))
      → Ensures P P E (for_each xs f)
  unfolding for_each
  Ensures-for_each [] f k = Ensures-pure tt
  Ensures-for_each (x ∷ xs) f k = Ensures-bind (f x) _ (k x) (λ _. Ensures-for_each xs f k)

  -- The next action of a chain keeps the state.
  pub Ensures-then :
      {A B : Type 0} {P R E : BusState → Type 0} {m : Action W F A} {f : A → Action W F B}
      → ((s : BusState) → P s → E s)
      → Keeps m
      → ((a : A) → Ensures P R E (f a))
      → Ensures P R E (m >>= f)
  Ensures-then {m = m} {f = f} h k ef = Ensures-bind m f (Ensures-Keeps m k h) ef
