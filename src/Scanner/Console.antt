-- ===== src/Scanner/Console.antt =====
-- How src/tools/bus_scanner.cpp works on a bus and prints: an exception ends the work, and what has been
-- printed stays.
use duatic_ethercat_interfac.Prelude.{Bool, true, false, List, [], ◌∷◌, ◌++◌}
use duatic_ethercat_interfac.Types.{Text, Result, ok, err}
use duatic_ethercat_interfac.Bus.{Bus, Action}

-- A part of the program that works on a bus and prints.
abbrev pub Session : Type 0 → Type 0 → Type 0 → Type 0
Session W F A = Bus W F × Text → Result A × (Bus W F × Text)

module _ {W F : Type 0} where
  unfoldable pub print : Text → Session W F (Unit {0})
  print text (b, out) = (ok tt, (b, out ++ text))

  unfoldable pub call : {A : Type 0} → Action W F A → Session W F A
  call m (b, out) = let (r, b') = m b in (r, (b', out))

  abbrev pub go_on :
      {A B : Type 0} → Result A → (A → Session W F B) → Bus W F × Text → Result B × (Bus W F × Text)
  go_on (ok a) f x = f a x
  go_on (err e) f x = (err e, x)

  infixl 5 ◌>>=◌ ◌>>◌
  unfoldable pub ◌>>=◌ : {A B : Type 0} → Session W F A → (A → Session W F B) → Session W F B
  unfolding print call
  ◌>>=◌ m f x = let (r, x') = m x in go_on r f x'

  abbrev pub ◌>>◌ : {A B : Type 0} → Session W F A → Session W F B → Session W F B
  m >> k = m >>= λ _. k

  unfoldable pub for_all :
      {A : Type 0} → List A → (A → Session W F (Unit {0})) → Session W F (Unit {0})
  for_all [] f = print []
  for_all (x ∷ xs) f = f x >> for_all xs f

  unfoldable pub when_asked : Bool → Session W F (Unit {0}) → Session W F (Unit {0})
  when_asked true m = m
  when_asked false m = print []
