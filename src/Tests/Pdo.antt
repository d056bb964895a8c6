-- ===== src/Tests/Pdo.antt =====
-- Runs of the process data theorems.
use duatic_ethercat_interfac.Prelude.{◌≡◌, refl, List, [], ◌∷◌, inr, arith}
use duatic_ethercat_interfac.Prelude.Int.{ℤ}
use duatic_ethercat_interfac.Types.{BusState, ok}
use duatic_ethercat_interfac.Soem.{EcError}
use duatic_ethercat_interfac.Bus.{Bus, for_each}
use duatic_ethercat_interfac.Bus.Pdo.{
  read_rx_pdo, set_generic_rx_pdo, update_write, update_read, get_generic_tx_pdo,
}
use duatic_ethercat_interfac.Bus.Pdo.RoundTrip.{Accessible, set_generic_rx_pdo-update_write}
use duatic_ethercat_interfac.Bus.Pdo.Typed.{set_rx_pdo, SetAndGot, get_rx_pdo-set_rx_pdo}
use duatic_ethercat_interfac.Bus.Pdo.Cycle.{Ready, AllWritten, write_phase_lem}
use duatic_ethercat_interfac.Bus.Pdo.Inputs.{inputs_of, get_generic_tx_pdo-update_read}
use duatic_ethercat_interfac.Tests.World.{bus_in}

abbrev running : Bus (List EcError) ℤ
running = bus_in BusState.operational []

abbrev first_accessible : Accessible 1 running
first_accessible = record { configured_bus = refl; on_bus = refl }

abbrev second_accessible : Accessible 2 running
second_accessible = record { configured_bus = refl; on_bus = refl }

set_generic_rx_pdo-update_write_example :
    let b' = (set_generic_rx_pdo 1 (5 ∷ 6 ∷ []) running).1 in
    ((set_generic_rx_pdo 1 (5 ∷ 6 ∷ []) running).0 ≡ ok tt)
    × ((update_write 7 1 b').0 ≡ ok tt)
    × ((read_rx_pdo 1 (update_write 7 1 b').1).0 ≡ ok (5 ∷ 6 ∷ []))
set_generic_rx_pdo-update_write_example =
    set_generic_rx_pdo-update_write 7 1 (5 ∷ 6 ∷ []) running first_accessible (omega arith) refl
      refl refl

abbrev first_ready : Ready 1 running
first_ready = record { accessible = first_accessible; fits = omega arith; sized = refl }

abbrev second_ready : Ready 2 running
second_ready = record { accessible = second_accessible; fits = omega arith; sized = refl }

write_phase_lem_example :
    ((for_each (1 ∷ 2 ∷ []) (update_write 7) running).0 ≡ ok tt)
    × AllWritten (1 ∷ 2 ∷ []) (for_each (1 ∷ 2 ∷ []) (update_write 7) running).1
write_phase_lem_example =
    write_phase_lem 7 (1 ∷ 2 ∷ []) running (first_ready, (second_ready, tt))
      ((inr (omega arith), tt), (tt, tt))

get_generic_tx_pdo-update_read_example :
    let b' = (update_read 7 2 running).1 in
    ((update_read 7 2 running).0 ≡ ok tt)
    × ((get_generic_tx_pdo 2 2 b').0 ≡ ok (inputs_of 2 running))
get_generic_tx_pdo-update_read_example =
    get_generic_tx_pdo-update_read 7 2 running second_accessible (omega arith) refl refl

get_rx_pdo-set_rx_pdo_example : SetAndGot 1 (5 ∷ 6 ∷ []) running (set_rx_pdo 1 (5 ∷ 6 ∷ []) running)
get_rx_pdo-set_rx_pdo_example = get_rx_pdo-set_rx_pdo 1 (5 ∷ 6 ∷ []) running
