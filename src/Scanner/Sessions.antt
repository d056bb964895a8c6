-- ===== src/Scanner/Sessions.antt =====
-- What the sessions of src/tools/bus_scanner.cpp do to their bus.
use duatic_ethercat_interfac.Prelude.{
  ℕ, ◌≡◌, refl, ◌∙◌, Bool, true, false, ◌&&◌, leb, Option, none, some, List, [], ◌∷◌, Bool-cases,
  inl, inr,
}
use duatic_ethercat_interfac.Types.{Text, DeviceInfo, Result, ok, err, is_runtime_error}
use duatic_ethercat_interfac.ObjectDictionary.{SdoEntry, SdoSubEntry}
use duatic_ethercat_interfac.Bus.{Bus, Env, Action}
use duatic_ethercat_interfac.Bus.Returns.{is_ok}
use duatic_ethercat_interfac.Bus.Keeps.{Keeps, Keeps-pure, Keeps-bind}
use duatic_ethercat_interfac.Bus.Keeps.Access.{
  read_sdo_untyped-Keeps, sdo_read-Keeps, sdo_read_string-Keeps,
}
use duatic_ethercat_interfac.Bus.Keeps.Dictionary.{read_od-Keeps}
use duatic_ethercat_interfac.Bus.Throws.{RuntimeOnly, Throws, Throws-read_od}
use duatic_ethercat_interfac.SdoPrint.{
  Texts, Reading, read_as, read_as_string, read_odd_int, sdo_read_bits, read_case, caught,
  sdo_print_helper,
}
use duatic_ethercat_interfac.SdoPrint.Returning.{sdo_print_helper-returns}
use duatic_ethercat_interfac.Scanner.Console.{
  Session, print, call, go_on, for_all, when_asked, ◌>>=◌,
}
use duatic_ethercat_interfac.Scanner.Printing.{print_sub_entry, print_entry, print_device}

module _ {W F : Type 0} where
  -- The session leaves the state of the bus as it was, and throws nothing but a `std::runtime_error`.
  pub record Decent {A : Type 0} (m : Session W F A) : Type 0 where
    pub at : (x : Bus W F × Text) → RuntimeOnly (m x).0 × ((m x).1.0.state ≡ x.0.state)

  pub Decent-print : (text : Text) → Decent (print text)
  unfolding print
  Decent-print text = record { at = λ x. (tt, refl) }

  pub Decent-call : {A : Type 0} (m : Action W F A) → Throws m → Keeps m → Decent (call m)
  unfolding call
  Decent-call m t k = record { at = λ x. (t.at x.0, k.at x.0) }

  Decent-go_on :
      {A B : Type 0} (r : Result A) (f : A → Session W F B) (x : Bus W F × Text)
      → RuntimeOnly r
      → ((a : A) → Decent (f a))
      → RuntimeOnly (go_on r f x).0 × ((go_on r f x).1.0.state ≡ x.0.state)
  Decent-go_on (ok a) f x h k = (k a).at x
  Decent-go_on (err e) f x h k = (h, refl)

  pub Decent-bind :
      {A B : Type 0} (m : Session W F A) (f : A → Session W F B)
      → Decent m
      → ((a : A) → Decent (f a))
      → Decent (m >>= f)
  unfolding ◌>>=◌
  Decent-bind m f dm df = record {
    at = λ x.
        let (r, x') = m x in
        let (h, s) = dm.at x in let (h', s') = Decent-go_on r f x' h df in (h', s' ∙ s);
  }

  pub Decent-for_all :
      {A : Type 0} (xs : List A) (f : A → Session W F (Unit {0}))
      → ((a : A) → Decent (f a))
      → Decent (for_all xs f)
  unfolding for_all
  Decent-for_all [] f d = Decent-print []
  Decent-for_all (x ∷ xs) f d = Decent-bind (f x) _ (d x) (λ _. Decent-for_all xs f d)

  pub Decent-when_asked :
      (c : Bool) (m : Session W F (Unit {0})) → Decent m → Decent (when_asked c m)
  unfolding when_asked
  Decent-when_asked true m d = d
  Decent-when_asked false m d = Decent-print []

pub ruleset decent_rules =
    (Decent-print, Decent-call, Decent-bind, Decent-for_all, Decent-when_asked)

runtime_ok : {A : Type 0} (r : Result A) → is_ok r ≡ true → RuntimeOnly r
runtime_ok (ok a) h = tt
runtime_ok (err e) h = absurd (cc h)

module _ {W F : Type 0} (env : Env W F) (texts : Texts) where
  sdo_read_bits-Keeps :
      (id index sub_index bits : ℕ) → Keeps (sdo_read_bits env texts id index sub_index bits)
  unfolding sdo_read_bits
  sdo_read_bits-Keeps id index sub_index bits =
      Keeps-bind _ _ (read_sdo_untyped-Keeps env _ id index sub_index true) λ _. Keeps-pure _

  read_case-Keeps :
      (id index sub_index : ℕ) (reading : Option Reading)
      → Keeps (read_case env texts id index sub_index reading)
  unfolding read_case
  read_case-Keeps id index sub_index none = Keeps-pure _
  read_case-Keeps id index sub_index (some (read_as number)) =
      Keeps-bind _ _ (sdo_read-Keeps env _ id index sub_index) λ _. Keeps-pure _
  read_case-Keeps id index sub_index (some read_as_string) =
      Keeps-bind _ _ (sdo_read_string-Keeps env id index sub_index) λ _. Keeps-pure _
  read_case-Keeps id index sub_index (some (read_odd_int bytes is_signed)) =
      Keeps-bind _ _ (read_sdo_untyped-Keeps env _ id index sub_index true) λ _. Keeps-pure _

  caught-bus : (r : Result Text) (b : Bus W F) → (caught env texts (r, b)).1.state ≡ b.state
  caught-bus (ok text) b = refl
  caught-bus (err e) b = elim (Bool-cases (is_runtime_error e)) [
    | inl h ↦ rw h refl
    | inr h ↦ rw h refl
  ]

  sdo_print_helper-Keeps :
      (id index sub_index sdo_data_type : ℕ)
      → Keeps (sdo_print_helper env texts id index sub_index sdo_data_type)
  unfolding sdo_print_helper
  sdo_print_helper-Keeps id index sub_index sdo_data_type = record {
    at = λ b. elim (Bool-cases (leb 0x30 sdo_data_type && leb sdo_data_type 0x37)) [
      | inl bits ↦
          let m = sdo_read_bits-Keeps id index sub_index _ in rw bits (caught-bus _ _ ∙ m.at b)
      | inr other ↦ rw other (caught-bus _ _ ∙ (read_case-Keeps id index sub_index _).at b)
    ];
  }

  print_value-Decent :
      (id index sub_index sdo_data_type : ℕ)
      → Decent (call (sdo_print_helper env texts id index sub_index sdo_data_type))
  print_value-Decent id index sub_index sdo_data_type =
      Decent-call _
        (record {
          at = λ b.
              runtime_ok _ (sdo_print_helper-returns env texts id index sub_index sdo_data_type b);
        })
        (sdo_print_helper-Keeps id index sub_index sdo_data_type)

module _ {W F : Type 0} (env : Env W F) (texts : Texts) (read_sdos : Bool) where
  print_sub_entry-Decent :
      (id index : ℕ) (sub : SdoSubEntry) → Decent (print_sub_entry env texts read_sdos id index sub)
  unfolding print_sub_entry
  print_sub_entry-Decent id index sub =
      search (Decent-print, Decent-bind, Decent-when_asked, print_value-Decent) depth 16

  print_entry-Decent : (id : ℕ) (sdo : SdoEntry) → Decent (print_entry env texts read_sdos id sdo)
  unfolding print_entry
  print_entry-Decent id sdo =
      search
        (
          Decent-print, Decent-bind, Decent-for_all, Decent-when_asked, print_value-Decent,
          print_sub_entry-Decent,
        )
        depth 20

  pub print_device-Decent : (info : DeviceInfo) → Decent (print_device env texts read_sdos info)
  unfolding print_device
  print_device-Decent info =
      search
        (
          Decent-print, Decent-call, Decent-bind, Decent-for_all, Throws-read_od, read_od-Keeps,
          print_entry-Decent,
        )
        depth 20
