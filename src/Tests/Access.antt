-- ===== src/Tests/Access.antt =====
-- Runs of the theorems on values read from devices, on the states of devices and on dictionaries.
use Prim.Native.String.{String}
use duatic_ethercat_interfac.Prelude.{some, ◌+◌, ℕ, ◌≡◌, List, [], ◌∷◌, is_some}
use duatic_ethercat_interfac.Prelude.Int.{ℤ}
use duatic_ethercat_interfac.Types.{BusState, Returned}
use duatic_ethercat_interfac.Soem.{EcError, OdList, OeList}
use duatic_ethercat_interfac.Bus.{Bus, Env}
use duatic_ethercat_interfac.Bus.ReadOd.{expand_objects}
use duatic_ethercat_interfac.Bus.ReadOd.Reading.{AllExpand, expand_objects-AllExpand}
use duatic_ethercat_interfac.Bus.Sdo.{sdo_read, sdo_read_string}
use duatic_ethercat_interfac.Bus.Sdo.Values.{
  IsText, SdoReadEnds, sdo_read_string-IsText, sdo_read-Ends,
}
use duatic_ethercat_interfac.Bus.Foe.{foe_read}
use duatic_ethercat_interfac.Bus.Foe.Values.{FileValue, foe_read-FileValue}
use duatic_ethercat_interfac.Bus.Registers.{read_register_untyped}
use duatic_ethercat_interfac.Bus.Registers.Sizes.{Sized, read_register_untyped-sized}
use duatic_ethercat_interfac.ObjectDictionary.{
  SdoEntry, same_index, make_dictionary, copy_dictionary, at_index, has_index,
}
use duatic_ethercat_interfac.ObjectDictionary.Agreement.{first_with, at_index-first}
use duatic_ethercat_interfac.Tests.World.{soem, env, bus_in, reachable}

abbrev bus : Bus (List EcError) ℤ
bus = bus_in BusState.operational []

sdo_read_string-IsText_example :
    Returned
      (λ v. (is_some v.value ≡ v.diagnostics.success) × IsText v.value)
      (sdo_read_string env 1 0x1008 0 bus).0
sdo_read_string-IsText_example = sdo_read_string-IsText env 1 0x1008 0 bus (reachable [])

sdo_read-Ends_example : SdoReadEnds 2 (sdo_read env 2 1 0x6041 0 bus).0
sdo_read-Ends_example = sdo_read-Ends env 2 1 0x6041 0 bus (reachable [])

foe_read-FileValue_example :
    Returned
      (λ v. FileValue 3 v.diagnostics.success v.diagnostics.actual_read_size v.value)
      (foe_read env 1 "firmware" (0 ∷ 0 ∷ 0 ∷ []) bus).0
foe_read-FileValue_example = foe_read-FileValue env 1 "firmware" (0 ∷ 0 ∷ 0 ∷ []) bus (reachable [])

read_register_untyped-sized_example :
    Sized env (0 ∷ 0 ∷ []) bus (read_register_untyped env (0 ∷ 0 ∷ []) 1 0x0110 bus)
read_register_untyped-sized_example =
    read_register_untyped-sized env (0 ∷ 0 ∷ []) 1 0x0110 bus (reachable [])

abbrev entry : ℕ → String → SdoEntry
entry i n = record {
  index = i;
  obj_type = 7;
  data_type = 6;
  count_sub_indices = 0;
  name = n;
  sub_entries = [];
}

-- The second index occurs twice.
abbrev entries : List SdoEntry
entries = entry 0x1000 "type" ∷ entry 0x6041 "status" ∷ entry 0x6041 "mode" ∷ []

at_index-first_example :
    let first = first_with same_index (λ e. e.index) 0x6041 entries in
    let od = make_dictionary entries in
    (at_index 0x6041 od ≡ first)
    × (at_index 0x6041 (copy_dictionary od) ≡ first)
    × (has_index 0x6041 od ≡ is_some first)
at_index-first_example = at_index-first 0x6041 entries

abbrev oe_list : OeList
oe_list = record { entries = 2; name = λ s. "sub"; data_type = λ s. 5; bit_length = λ s. 8 }

-- Every object has two sub entries.
abbrev od_env : Env (List EcError) ℤ
od_env = record env { soem = record soem { ecx_read_oe = λ i l c. (some oe_list, c) } }

abbrev pub od_list : OdList
od_list = record {
  entries = 2;
  index = λ i. 0x1000 + i;
  object_code = λ i. 7 + i;
  data_type = λ i. 6;
  max_sub = λ i. 2;
  name = λ i. "object";
}

abbrev objects : List SdoEntry
objects = entry 0x1000 "object" ∷ record (entry 0x1001 "object") { obj_type = 8 } ∷ []

expand_objects-AllExpand_example :
    Returned (AllExpand od_env od_list objects) (expand_objects od_env od_list objects bus).0
expand_objects-AllExpand_example = expand_objects-AllExpand od_env od_list objects bus
