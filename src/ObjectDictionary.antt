-- ===== src/ObjectDictionary.antt =====
-- The object dictionary of include/duatic_ethercat_interface/object_dictionary.hpp. A pointer into
-- the storage is a position in it, so that moves keep it; a hash map is an association list.
mod Lookup
pub mod Agreement
unfoldable pub use Lookup.*
use Prim.Native.String.{String}
use text.Mathlib.Text
use duatic_ethercat_interfac.Prelude.{
  ℕ, suc, Bool, Option, none, some, is_some, List, [], ◌∷◌, length, get_elem?, ◌==◌,
}

pub record SdoSubEntry : Type 0 where
  pub index : ℕ
  pub name : String
  pub data_type : ℕ
  pub size : ℕ

pub record SdoEntry : Type 0 where
  pub index : ℕ
  pub obj_type : ℕ
  pub data_type : ℕ
  pub count_sub_indices : ℕ
  pub name : String
  pub sub_entries : List SdoSubEntry

pub record ObjectDictionary : Type 0 where
  pub sdo_entries : List SdoEntry
  pub sdo_entries_by_index : List (ℕ × ℕ)
  pub sdo_entries_by_name : List (String × ℕ)

abbrev pub same_index : ℕ → ℕ → Bool
same_index a b = a == b

abbrev pub same_name : String → String → Bool
same_name a b = Text.◌==◌ a b

-- The constructor from a set of entries.
unfoldable pub make_dictionary : List SdoEntry → ObjectDictionary
unfolding rebuild
make_dictionary entries = record {
  sdo_entries = entries;
  sdo_entries_by_index = rebuild same_index (λ e. e.index) 0 entries [];
  sdo_entries_by_name = rebuild same_name (λ e. e.name) 0 entries [];
}

-- The copy constructor, which rebuilds the maps.
unfoldable pub copy_dictionary : ObjectDictionary → ObjectDictionary
unfolding make_dictionary
copy_dictionary other = make_dictionary other.sdo_entries

abbrev pub has_index : ℕ → ObjectDictionary → Bool
has_index index od = is_some (find same_index index od.sdo_entries_by_index)

abbrev pub has_name : String → ObjectDictionary → Bool
has_name name od = is_some (find same_name name od.sdo_entries_by_name)

-- `at`; `none` is `std::out_of_range`.
abbrev pub at_index : ℕ → ObjectDictionary → Option SdoEntry
at_index index od = deref od.sdo_entries (find same_index index od.sdo_entries_by_index)

abbrev pub at_name : String → ObjectDictionary → Option SdoEntry
at_name name od = deref od.sdo_entries (find same_name name od.sdo_entries_by_name)
