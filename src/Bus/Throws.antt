-- ===== src/Bus/Throws.antt =====
-- What the calls on a bus throw (src/internal/soem/soem_backend.cpp): rules for each way to build an
-- action, and the calls that throw nothing but a `std::runtime_error`.
use Prim.Native.String.{String}
use duatic_ethercat_interfac.Prelude.{
  ℕ, ◌≡◌, refl, Bool, true, false, Option, none, some, List, [], ◌∷◌, if◌then◌else◌, range_from,
  ◌==◌, Bool-cases, Option-cases, inl, inr,
}
use duatic_ethercat_interfac.Prelude.Int.{ℤ}
use duatic_ethercat_interfac.Types.{
  BusState, Text, Error, Backend, backend_error, device_not_found, is_runtime_error, Result, ok,
  err,
}
use duatic_ethercat_interfac.Soem.{Context, OdList}
use duatic_ethercat_interfac.ObjectDictionary.{SdoEntry}
use duatic_ethercat_interfac.Bus.{
  Bus, Env, Action, pure, throw, gets, modify, on_context, throw_if, set_state, for_each, continue,
  ◌>>=◌,
}
use duatic_ethercat_interfac.Bus.Slaves.{scan, scan_device}
use duatic_ethercat_interfac.Bus.Lifecycle.{add_device, initialize}
use duatic_ethercat_interfac.Bus.ReadOd.{
  item_index, read_objects, expand_object, expand_objects, read_listed, read_od_from_device,
  read_od,
}
use duatic_ethercat_interfac.Bus.Sdo.{
  check_access, finish_sdo, read_sdo_untyped, sdo_read, sdo_read_string,
}

-- What was thrown, if anything, is a `std::runtime_error`.
abbrev pub RuntimeOnly : {A : Type 0} → Result A → Type 0
RuntimeOnly (ok a) = Unit
RuntimeOnly (err e) = is_runtime_error e ≡ true

runtime_if :
    (c : Bool) (e : Error)
    → is_runtime_error e ≡ true
    → RuntimeOnly {A = Unit {0}} (if c then err e else ok tt)
runtime_if true e h = h
runtime_if false e h = tt

module _ {W F : Type 0} where
  pub record Throws {A : Type 0} (m : Action W F A) : Type 0 where
    pub at : (b : Bus W F) → RuntimeOnly (m b).0

  pub Throws-pure : {A : Type 0} (a : A) → Throws (pure a)
  unfolding pure
  Throws-pure a = record { at = λ b. tt }

  pub Throws-gets : {A : Type 0} (f : Bus W F → A) → Throws (gets f)
  unfolding gets
  Throws-gets f = record { at = λ b. tt }

  pub Throws-modify : (f : Bus W F → Bus W F) → Throws (modify f)
  unfolding modify
  Throws-modify f = record { at = λ b. tt }

  pub Throws-on_context : {A : Type 0} (f : Context W → A × Context W) → Throws (on_context f)
  unfolding on_context
  Throws-on_context f = record { at = λ b. tt }

  pub Throws-backend_error :
      (c : Bool) (message : Text) (backend : Backend) (ec : Option ℤ)
      → Throws (throw_if c (backend_error message backend ec))
  unfolding throw_if
  Throws-backend_error c message backend ec = record { at = λ b. runtime_if c _ refl }

  pub Throws-device_not_found :
      (c : Bool) (message : Text) (backend : Backend)
      → Throws (throw_if c (device_not_found message backend))
  unfolding throw_if
  Throws-device_not_found c message backend = record { at = λ b. runtime_if c _ refl }

  pub Throws-set_state : (s : BusState) → Throws (set_state s)
  unfolding set_state
  Throws-set_state s = record { at = λ b. tt }

  pub Throws-if :
      {A : Type 0} (c : Bool) (m n : Action W F A)
      → Throws m
      → Throws n
      → Throws (if c then m else n)
  Throws-if true m n tm tn = tm
  Throws-if false m n tm tn = tn

  Throws-continue :
      {A B : Type 0} (r : Result A) (f : A → Action W F B) (b : Bus W F)
      → RuntimeOnly r
      → ((a : A) → Throws (f a))
      → RuntimeOnly (continue r f b).0
  Throws-continue (ok a) f b h k = (k a).at b
  Throws-continue (err e) f b h k = h

  pub Throws-bind :
      {A B : Type 0} (m : Action W F A) (f : A → Action W F B)
      → Throws m
      → ((a : A) → Throws (f a))
      → Throws (m >>= f)
  unfolding ◌>>=◌
  Throws-bind m f tm tf = record {
    at = λ b. let (r, b') = m b in Throws-continue r f b' (tm.at b) tf;
  }

module _ {W F : Type 0} where
  pub Throws-for_each :
      {A : Type 0} (xs : List A) (f : A → Action W F (Unit {0}))
      → ((a : A) → Throws (f a))
      → Throws (for_each xs f)
  unfolding for_each
  Throws-for_each [] f k = Throws-pure tt
  Throws-for_each (x ∷ xs) f k = Throws-bind (f x) _ (k x) (λ _. Throws-for_each xs f k)

pub ruleset throws_rules = (
  Throws-set_state, Throws-for_each, Throws-pure, Throws-gets, Throws-modify, Throws-on_context,
  Throws-backend_error, Throws-device_not_found, Throws-bind,
)

module _ {W F : Type 0} (env : Env W F) where
  Throws-add_device : (i : ℕ) → Throws (add_device env i)
  unfolding add_device scan_device
  Throws-add_device i = search throws_rules depth 16

  pub Throws-initialize : Throws (initialize env)
  unfolding initialize
  Throws-initialize = search (throws_rules, Throws-add_device) depth 30

  pub Throws-scan : Throws {W = W} {F = F} scan
  unfolding scan
  Throws-scan = search throws_rules depth 14

  Throws-read_objects : (od_list : OdList) (is : List ℕ) → Throws (read_objects env od_list is)
  unfolding read_objects
  Throws-read_objects od_list [] = Throws-pure _
  Throws-read_objects od_list (i ∷ is) =
      Throws-bind _ _ (Throws-on_context _)
        λ described. Throws-bind _ _ (Throws-read_objects described is) λ _. Throws-pure _

  Throws-expand_object :
      (od_list : OdList) (obj : SdoEntry) → Throws (expand_object env od_list obj)
  unfolding expand_object
  Throws-expand_object od_list obj = elim (Bool-cases (obj.obj_type == 7)) [
    | inl v ↦ rw v (Throws-pure _)
    | inr v ↦ elim (Option-cases (item_index od_list obj.index (range_from 0 od_list.entries))) [
      | inl e ↦ rw (v, e) (Throws-pure _)
      | inr (i, e) ↦ rw (v, e) (Throws-bind _ _ (Throws-on_context _) λ oe. Throws-pure _)
    ]
  ]

  Throws-expand_objects :
      (od_list : OdList) (objs : List SdoEntry) → Throws (expand_objects env od_list objs)
  unfolding expand_objects
  Throws-expand_objects od_list [] = Throws-pure _
  Throws-expand_objects od_list (obj ∷ objs) =
      Throws-bind _ _ (Throws-expand_object od_list obj)
        λ _. Throws-bind _ _ (Throws-expand_objects od_list objs) λ _. Throws-pure _

  Throws-read_listed :
      (full_read : Bool) (read : Option OdList) → Throws (read_listed env full_read read)
  unfolding read_listed throw
  Throws-read_listed full_read none = record { at = λ b. refl }
  Throws-read_listed full_read (some od_list) =
      Throws-bind _ _ (Throws-read_objects od_list _)
        λ objs. Throws-if full_read _ _ (Throws-expand_objects objs.0 objs.1) (Throws-pure _)

  pub Throws-read_od : (id : ℕ) (full_read : Bool) → Throws (read_od env id full_read)
  unfolding read_od read_od_from_device
  Throws-read_od id full_read = search (throws_rules, Throws-read_listed) depth 24

  pub Throws-check_access :
      (refusal : String) (id : ℕ) → Throws {W = W} {F = F} (check_access refusal id)
  unfolding check_access
  Throws-check_access refusal id = search throws_rules depth 14

  pub Throws-finish_sdo :
      (id index sub_index : ℕ) (wkc : ℤ) → Throws (finish_sdo env id index sub_index wkc)
  unfolding finish_sdo
  Throws-finish_sdo id index sub_index wkc = record { at = λ b. tt }

  pub Throws-read_sdo_untyped :
      (buffer : List ℕ) (id index sub_index : ℕ) (check_size : Bool)
      → Throws (read_sdo_untyped env buffer id index sub_index check_size)
  unfolding read_sdo_untyped
  Throws-read_sdo_untyped buffer id index sub_index check_size =
      search (throws_rules, Throws-check_access, Throws-finish_sdo) depth 24

  pub Throws-sdo_read :
      (size id index sub_index : ℕ) → Throws (sdo_read env size id index sub_index)
  unfolding sdo_read
  Throws-sdo_read size id index sub_index = search (throws_rules, Throws-read_sdo_untyped) depth 14

  pub Throws-sdo_read_string :
      (id index sub_index : ℕ) → Throws (sdo_read_string env id index sub_index)
  unfolding sdo_read_string
  Throws-sdo_read_string id index sub_index =
      search (throws_rules, Throws-read_sdo_untyped) depth 14
