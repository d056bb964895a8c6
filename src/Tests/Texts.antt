-- ===== src/Tests/Texts.antt =====
-- Runs of the theorems on texts of values and codes.
use duatic_ethercat_interfac.Prelude.{ℕ, ◌≡◌, refl, true, some, none, List, [], ◌∷◌, arith}
use duatic_ethercat_interfac.Prelude.Int.{ℤ, pos, negsuc}
use duatic_ethercat_interfac.Types.{BusState, literal, num, Result, ok, SdoReadResult}
use duatic_ethercat_interfac.Bus.Returns.{is_ok}
use duatic_ethercat_interfac.SdoPrint.{Texts, odd_int, native_int, sdo_print_helper}
use duatic_ethercat_interfac.SdoPrint.Returning.{sdo_print_helper-returns}
use duatic_ethercat_interfac.SdoPrint.Printing.{integer_types, sdo_print_helper-integers}
use duatic_ethercat_interfac.Types.Names.{find_code}
use duatic_ethercat_interfac.Soem.{EcError}
use duatic_ethercat_interfac.Bus.{Bus, Env, ◌>>=◌}
use duatic_ethercat_interfac.Bus.Sdo.{read_sdo_untyped}
use duatic_ethercat_interfac.Bus.MailboxAccess.{
  finish_mailbox_access, drain_mailbox_events, drain_loop, pop_event, drain_all_mailbox_events,
  drain_all_loop,
}
use duatic_ethercat_interfac.Tests.World.{env, bus_in}

-- -2 in 24 bits.
abbrev minus_two : List ℕ
minus_two = 254 ∷ 255 ∷ 255 ∷ []

odd_int-minus_two : odd_int 3 true minus_two ≡ negsuc 1
unfolding odd_int
odd_int-minus_two = refl

abbrev pub texts : Texts
texts = record { of_chars = λ cs. literal "text"; of_real = λ bytes. literal "1.0" }

-- An INTEGER24 of a bus that is not initialized.
sdo_print_helper-returns_example :
    is_ok (sdo_print_helper env texts 1 0x6000 1 0x10 (bus_in BusState.pre_init [])).0 ≡ true
sdo_print_helper-returns_example =
    sdo_print_helper-returns env texts 1 0x6000 1 0x10 (bus_in BusState.pre_init [])

-- The device answers with -2.
abbrev answering : Env (List EcError) ℤ
answering = record env {
  soem = record env.soem {
    ecx_sdo_read = λ i index sub size buffer c. (pos 1, pos size, minus_two, c);
  };
}

abbrev read : Result (SdoReadResult × List ℕ) × Bus (List EcError) ℤ
read = read_sdo_untyped answering (0 ∷ 0 ∷ 0 ∷ []) 1 0x6000 1 true (bus_in BusState.operational [])

abbrev answer : SdoReadResult
answer = record {
  success = true;
  actual_size_read = pos 3;
  working_counter = pos 1;
  mailbox_diagnostics = none;
}

answered : read ≡ (ok (answer, minus_two), read.1)
unfolding read_sdo_untyped ◌>>=◌ finish_mailbox_access drain_mailbox_events drain_loop pop_event
    drain_all_mailbox_events drain_all_loop
answered = refl

found : find_code 0x10 integer_types ≡ some (3, true)
unfolding find_code
found = refl

-- An INTEGER24.
sdo_print_helper-integers_example :
    sdo_print_helper answering texts 1 0x6000 1 0x10 (bus_in BusState.operational [])
    ≡ (ok (num (native_int 3 true minus_two) ∷ []), read.1)
sdo_print_helper-integers_example =
    sdo_print_helper-integers answering texts 0x10 3 1 0x6000 1 true answer minus_two
      (bus_in BusState.operational []) read.1 found answered (omega arith) refl
