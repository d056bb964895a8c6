-- ===== src/Tests/Scanning.antt =====
-- Runs of the command-line tool on the small bus.
use duatic_ethercat_interfac.Prelude.{true, false, some, List, [], ◌∷◌}
use duatic_ethercat_interfac.Prelude.Int.{ℤ}
use duatic_ethercat_interfac.Types.{literal, ok}
use duatic_ethercat_interfac.Soem.{EcError}
use duatic_ethercat_interfac.Bus.{Env}
use duatic_ethercat_interfac.Bus.Interfaces.{Adapters}
use duatic_ethercat_interfac.Scanner.{Arguments, Exit, main}
use duatic_ethercat_interfac.Scanner.Ending.{Ended, main-CleanExit}
use duatic_ethercat_interfac.Tests.World.{env, context, device}
use duatic_ethercat_interfac.Tests.Texts.{texts}
use duatic_ethercat_interfac.Tests.Access.{od_list}

abbrev adapters : Adapters (List EcError)
adapters = record { ec_find_adapters = λ w. ("eth0" ∷ [], w); ec_free_adapters = λ names w. w }

-- Every device has the objects of `od_list`.
abbrev od_env : Env (List EcError) ℤ
od_env = record env { soem = record env.soem { ecx_read_od_list = λ i c. (some od_list, c) } }

abbrev read_all : Arguments
read_all = record { help = false; verb = some "sdo"; bus = "eth0"; read = true }

abbrev tool : Exit (List EcError) ℤ
tool = main od_env texts adapters (literal "help") (ok read_all) (context []) device

-- The values of all devices are read and printed.
main-CleanExit_example : Ended od_env texts adapters (literal "help") (ok read_all) tool
main-CleanExit_example =
    main-CleanExit od_env texts adapters (literal "help") (ok read_all) (context []) device
