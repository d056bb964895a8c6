-- ===== src/Scanner/Printing.antt =====
-- What src/tools/bus_scanner.cpp prints about a device.
use duatic_ethercat_interfac.Prelude.{ℕ, Bool, true, false, List, [], ◌∷◌, ◌++◌}
use duatic_ethercat_interfac.Types.{str, hex, literal, DeviceInfo}
use duatic_ethercat_interfac.Types.Names.{
  device_info_to_string, object_code_to_string, data_type_to_string,
}
use duatic_ethercat_interfac.ObjectDictionary.{SdoEntry, SdoSubEntry}
use duatic_ethercat_interfac.Bus.{Env}
use duatic_ethercat_interfac.Bus.ReadOd.{read_od}
use duatic_ethercat_interfac.Scanner.Console.{
  Session, print, call, for_all, when_asked, ◌>>=◌, ◌>>◌,
}
use duatic_ethercat_interfac.SdoPrint.{Texts, sdo_print_helper}

abbrev pub is_empty : List SdoSubEntry → Bool
is_empty [] = true
is_empty (sub ∷ subs) = false

module _ {W F : Type 0} where
  unfoldable pub print_info : DeviceInfo → Session W F (Unit {0})
  print_info info = print (device_info_to_string info ++ literal "\n")

module _ {W F : Type 0} (env : Env W F) (texts : Texts) (read_sdos : Bool) where
  unfoldable pub print_sub_entry : ℕ → ℕ → SdoSubEntry → Session W F (Unit {0})
  print_sub_entry id index sub = do
    print (str "     [0x" ∷ hex sub.index ∷ str "]: " ∷ str sub.name ∷ str "\n" ∷ [])
    print (str "      data_type: " ∷ data_type_to_string sub.data_type ++ literal "\n")
    when_asked read_sdos (do
      value ← call (sdo_print_helper env texts id index sub.index sub.data_type)
      print (str "      value: " ∷ value ++ literal "\n"))

  unfoldable pub print_entry : ℕ → SdoEntry → Session W F (Unit {0})
  unfolding print_sub_entry
  print_entry id sdo = do
    print (str "  [0x" ∷ hex sdo.index ∷ str "]: " ∷ str sdo.name ∷ str "\n" ∷ [])
    print (str "   object type: " ∷ object_code_to_string sdo.obj_type ++ literal "\n")
    when_asked (is_empty sdo.sub_entries) (do
      print (str "   data type: " ∷ data_type_to_string sdo.data_type ++ literal "\n")
      when_asked read_sdos (do
        value ← call (sdo_print_helper env texts id sdo.index 0 sdo.data_type)
        print (str "   value: " ∷ value ++ literal "\n")))
    for_all sdo.sub_entries (print_sub_entry id sdo.index)

  unfoldable pub print_device : DeviceInfo → Session W F (Unit {0})
  unfolding print_entry print_info
  print_device info = do
    od ← call (read_od env info.id true)
    print_info info
    for_all od.sdo_entries (print_entry info.id)
