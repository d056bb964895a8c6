-- ===== src/Soem/States.antt =====
-- internal/soem/bus_state.hpp: device states to and from SOEM's `ec_state`.
use duatic_ethercat_interfac.Prelude.{ℕ, ◌≡◌, arith, ◌==◌, if◌then◌else◌}
use duatic_ethercat_interfac.Types.{EthercatDeviceState, none_state, init, pre_op, boot, safe_op}
use duatic_ethercat_interfac.Soem.{EcStates, DistinctStates}

pub map_to_soem_device_state : EcStates → EthercatDeviceState → ℕ
map_to_soem_device_state s none_state = s.none_state
map_to_soem_device_state s init = s.init
map_to_soem_device_state s pre_op = s.pre_op
map_to_soem_device_state s boot = s.boot
map_to_soem_device_state s safe_op = s.safe_op
map_to_soem_device_state s EthercatDeviceState.operational = s.operational

pub map_from_soem_device_state : EcStates → ℕ → EthercatDeviceState
map_from_soem_device_state s state =
    if state == s.none_state
    then none_state
    else if state == s.init
    then init
    else if state == s.pre_op
    then pre_op
    else if state == s.boot
    then boot
    else if state == s.safe_op
    then safe_op
    else if state == s.operational
    then EthercatDeviceState.operational
    else if state == s.ack
    then none_state
    else none_state

-- A device state that is translated for SOEM and read back from it is unchanged, provided that the
-- enumerators of `ec_state` are distinct.
pub map_from-map_to :
    (s : EcStates) (state : EthercatDeviceState)
    → DistinctStates s
    → map_from_soem_device_state s (map_to_soem_device_state s state) ≡ state
unfolding map_from_soem_device_state map_to_soem_device_state
map_from-map_to s none_state d = ground arith
map_from-map_to s init d = ground arith
map_from-map_to s pre_op d = ground arith
map_from-map_to s boot d = ground arith
map_from-map_to s safe_op d = ground arith
map_from-map_to s EthercatDeviceState.operational d = ground arith
