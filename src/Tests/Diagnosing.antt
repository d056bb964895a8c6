-- ===== src/Tests/Diagnosing.antt =====
-- Runs of the diagnostics theorems.
use duatic_ethercat_interfac.Prelude.{ℕ, ◌+◌, ◌<◌, ◌≡◌, refl, List, [], ◌∷◌, length, arith}
use duatic_ethercat_interfac.Prelude.Int.{ℤ, pos, negsuc}
use duatic_ethercat_interfac.Types.{BusState}
use duatic_ethercat_interfac.Soem.{EcError}
use duatic_ethercat_interfac.Diagnostics.{EscStatus, default_esc_status, empty_snapshot}
use duatic_ethercat_interfac.Bus.{Bus}
use duatic_ethercat_interfac.Bus.Diagnosing.{selected_slave}
use duatic_ethercat_interfac.Bus.Diagnosing.Counters.{
  count_cycles, lost, mismatched, count_cycles_lem,
}
use duatic_ethercat_interfac.Bus.Diagnosing.Selection.{
  ReadsKeepCount, slow_updates, every_slave_selected,
}
use duatic_ethercat_interfac.Tests.World.{soem, env, bus_in}

-- A good cycle, a mismatch and a lost frame.
abbrev wkcs : List ℤ
wkcs = pos 3 ∷ pos 1 ∷ negsuc 0 ∷ []

count_cycles_lem_example :
    let d = count_cycles 3 wkcs empty_snapshot in
    (d.bus.frames_sent ≡ 0 + length wkcs)
    × (d.bus.frames_lost ≡ 0 + lost wkcs)
    × (d.bus.wkc_mismatches ≡ 0 + mismatched 3 wkcs)
count_cycles_lem_example =
    count_cycles_lem 3 wkcs empty_snapshot (omega arith) (omega arith) (omega arith)

abbrev slaves : List EscStatus
slaves = default_esc_status ∷ default_esc_status ∷ default_esc_status ∷ []

abbrev keeps_count : ReadsKeepCount soem
keeps_count = record { count = λ adr reg buffer c. refl }

abbrev bus : Bus (List EcError) ℤ
bus = bus_in BusState.operational []

every_slave_selected_example : (n : ℕ) × (n < 2) × (selected_slave (slow_updates env n bus) ≡ 1)
every_slave_selected_example = every_slave_selected env keeps_count 1 bus (omega arith)
