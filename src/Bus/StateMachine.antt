-- ===== src/Bus/StateMachine.antt =====
-- The states that a bus goes through, as an abstract machine, and the calls that move it:
-- `initialize`, `startup`, `activate`, `update_service` and `shutdown` of
-- src/internal/soem/soem_backend.cpp.
pub mod Moves
pub mod Guards
pub mod Service
pub mod Ending
pub mod Runs
pub mod Transitions
pub mod Stuck
use duatic_ethercat_interfac.Types.{
  BusState, pre_init, initialized, configured, activated, shutting_down, shut_down,
}

-- The documented order of the states. A bus can be abandoned before it is initialized, closed before
-- it is configured, and stopped from then on.
pub data Step : BusState → BusState → Type 0 where
  initializes : Step pre_init initialized
  configures : Step initialized configured
  activates : Step configured activated
  operates : Step activated BusState.operational
  abandons : Step pre_init shut_down
  closes : Step initialized shut_down
  stops_configured : Step configured shutting_down
  stops_activated : Step activated shutting_down
  stops_operational : Step BusState.operational shutting_down
  finishes : Step shutting_down shut_down

pub data Reach (s : BusState) : BusState → Type 0 where
  here : Reach s s
  next : {t u : BusState} → Reach s t → Step t u → Reach s u

-- Every state can be left for `shut_down`.
pub Reach-shut_down : (s : BusState) → Reach s shut_down
Reach-shut_down pre_init = next here abandons
Reach-shut_down initialized = next here closes
Reach-shut_down configured = next (next here stops_configured) finishes
Reach-shut_down activated = next (next here stops_activated) finishes
Reach-shut_down BusState.operational = next (next here stops_operational) finishes
Reach-shut_down shutting_down = next here finishes
Reach-shut_down shut_down = here
