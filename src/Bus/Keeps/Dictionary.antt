-- ===== src/Bus/Keeps/Dictionary.antt =====
-- That the reads of object dictionaries leave the state of the bus alone (`read_od_from_device` of
-- src/internal/soem/soem_backend.cpp).
use duatic_ethercat_interfac.Prelude.{
  ℕ, Bool, Option, none, some, List, [], ◌∷◌, range_from, ◌==◌, Bool-cases, Option-cases, inl, inr,
}
use duatic_ethercat_interfac.Soem.{OdList}
use duatic_ethercat_interfac.ObjectDictionary.{SdoEntry}
use duatic_ethercat_interfac.Bus.{Env}
use duatic_ethercat_interfac.Bus.Keeps.{
  Keeps, Keeps-pure, Keeps-throw, Keeps-on_context, Keeps-if, Keeps-bind, keeps_rules,
}
use duatic_ethercat_interfac.Bus.ReadOd.{
  item_index, read_objects, expand_object, expand_objects, read_listed, read_od_from_device,
  read_od,
}

module _ {W F : Type 0} (env : Env W F) where
  read_objects-Keeps : (od_list : OdList) (is : List ℕ) → Keeps (read_objects env od_list is)
  unfolding read_objects
  read_objects-Keeps od_list [] = Keeps-pure _
  read_objects-Keeps od_list (i ∷ is) =
      Keeps-bind _ _ (Keeps-on_context _)
        λ described. Keeps-bind _ _ (read_objects-Keeps described is) λ _. Keeps-pure _

  expand_object-Keeps : (od_list : OdList) (obj : SdoEntry) → Keeps (expand_object env od_list obj)
  unfolding expand_object
  expand_object-Keeps od_list obj = elim (Bool-cases (obj.obj_type == 7)) [
    | inl v ↦ rw v (Keeps-pure _)
    | inr v ↦ elim (Option-cases (item_index od_list obj.index (range_from 0 od_list.entries))) [
      | inl e ↦ rw (v, e) (Keeps-pure _)
      | inr (i, e) ↦ rw (v, e) (Keeps-bind _ _ (Keeps-on_context _) λ oe. Keeps-pure _)
    ]
  ]

  expand_objects-Keeps :
      (od_list : OdList) (objs : List SdoEntry) → Keeps (expand_objects env od_list objs)
  unfolding expand_objects
  expand_objects-Keeps od_list [] = Keeps-pure _
  expand_objects-Keeps od_list (obj ∷ objs) =
      Keeps-bind _ _ (expand_object-Keeps od_list obj)
        λ _. Keeps-bind _ _ (expand_objects-Keeps od_list objs) λ _. Keeps-pure _

  read_listed-Keeps :
      (full_read : Bool) (read : Option OdList) → Keeps (read_listed env full_read read)
  unfolding read_listed
  read_listed-Keeps full_read none = Keeps-throw _
  read_listed-Keeps full_read (some od_list) =
      Keeps-bind _ _ (read_objects-Keeps od_list _)
        λ objs. Keeps-if full_read _ _ (expand_objects-Keeps objs.0 objs.1) (Keeps-pure _)

  pub read_od-Keeps : (id : ℕ) (full_read : Bool) → Keeps (read_od env id full_read)
  unfolding read_od read_od_from_device
  read_od-Keeps id full_read = search (keeps_rules, read_listed-Keeps) depth 24
