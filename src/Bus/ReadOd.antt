-- ===== src/Bus/ReadOd.antt =====
-- Reading an object dictionary off a device: `read_od_from_device` and `EthercatBus::read_od` of
-- src/internal/soem/soem_backend.cpp.
pub mod Reading
use duatic_ethercat_interfac.Prelude.{
  ℕ, ◌/◌, ◌%◌, ◌^◌, Bool, not, ◌||◌, Option, none, some, List, [], ◌∷◌, map, ◌==◌, if◌then◌else◌,
  range_from,
}
use duatic_ethercat_interfac.Types.{
  pre_init, shut_down, device_not_found, soem, literal, backend_error,
}
use duatic_ethercat_interfac.Soem.{OdList, OeList}
use duatic_ethercat_interfac.ObjectDictionary.{
  SdoSubEntry, SdoEntry, ObjectDictionary, make_dictionary,
}
use duatic_ethercat_interfac.Bus.{
  Env, Action, pure, throw, throw_if, gets, on_context, ◌>>=◌, ◌>>◌, soem_error, is_in,
  has_device_on_bus, device_not_on_bus,
}

-- `SDOObjectCode::Var`.
abbrev var_object : ℕ
var_object = 7

-- The position of an index in the list that SOEM read, over the positions listed.
unfoldable pub item_index : OdList → ℕ → List ℕ → Option ℕ
item_index od_list index [] = none
item_index od_list index (i ∷ is) =
    if od_list.index i == index then some i else item_index od_list index is

abbrev od_entry : OdList → ℕ → SdoEntry
od_entry od_list i = record {
  index = od_list.index i;
  obj_type = od_list.object_code i;
  data_type = od_list.data_type i;
  count_sub_indices = od_list.max_sub i;
  name = od_list.name i;
  sub_entries = [];
}

abbrev pub od_sub_entry : OeList → ℕ → SdoSubEntry
od_sub_entry oe_list s = record {
  index = s % 2 ^ 8;
  name = oe_list.name s;
  data_type = oe_list.data_type s;
  size = oe_list.bit_length s / 8;
}

module _ {W F : Type 0} (env : Env W F) where
  -- The loop over the objects: their descriptions are read into the list on the way.
  unfoldable pub read_objects : OdList → List ℕ → Action W F (OdList × List SdoEntry)
  read_objects od_list [] = pure (od_list, [])
  read_objects od_list (i ∷ is) = do
    described ← on_context (env.soem.ecx_read_od_description (i % 2 ^ 16) od_list)
    (last, entries) ← read_objects described is
    pure (last, od_entry described i ∷ entries)

  -- The sub entries of one object, or the object as it is.
  unfoldable pub expand_object : OdList → SdoEntry → Action W F SdoEntry
  expand_object od_list obj =
      if obj.obj_type == var_object
      then pure obj
      else elim (item_index od_list obj.index (range_from 0 od_list.entries)) [
        | none ↦ pure (record obj { sub_entries = [] })
        | some i ↦ (do
          oe ← on_context (env.soem.ecx_read_oe (i % 2 ^ 16) od_list)
          pure (elim oe [
            | none ↦ record obj { sub_entries = [] }
            | some oe_list ↦ record obj {
              sub_entries = map (od_sub_entry oe_list) (range_from 0 oe_list.entries);
            }
          ]))
      ]

  unfoldable pub expand_objects : OdList → List SdoEntry → Action W F (List SdoEntry)
  expand_objects od_list [] = pure []
  expand_objects od_list (obj ∷ objs) = do
    expanded ← expand_object od_list obj
    rest ← expand_objects od_list objs
    pure (expanded ∷ rest)

  -- What is read after the list of the objects.
  unfoldable pub read_listed : Bool → Option OdList → Action W F (List SdoEntry)
  read_listed full_read none =
      throw (device_not_found (literal "Failed to read OD list from device") soem)
  read_listed full_read (some od_list) = do
    (last, entries) ← read_objects od_list (range_from 0 od_list.entries)
    if full_read then (expand_objects last entries) else (pure entries)

  unfoldable pub read_od_from_device : ℕ → Bool → Action W F (List SdoEntry)
  read_od_from_device device_id full_read = do
    throw_if (← gets λ b. is_in pre_init b || is_in shut_down b)
        (soem_error "Od cannot be read in state PreInit or Shutdown")
    throw_if (not (← gets (has_device_on_bus device_id)))
        (backend_error (device_not_on_bus device_id) soem none)
    read ← on_context (env.soem.ecx_read_od_list device_id)
    read_listed full_read read

  unfoldable pub read_od : ℕ → Bool → Action W F ObjectDictionary
  read_od device_id full_read = do
    entries ← read_od_from_device device_id full_read
    pure (make_dictionary entries)
