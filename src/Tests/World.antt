-- ===== src/Tests/World.antt =====
-- A SOEM library with two slaves, whose world is its error list, and buses on it.
use duatic_ethercat_interfac.Prelude.{
  ℕ, ◌+◌, refl, sym, ap, ◌∙◌, true, false, Option, none, some, List, [], ◌∷◌, replicate, ◌==◌,
  if◌then◌else◌,
}
use duatic_ethercat_interfac.Prelude.Int.{ℤ, pos, ◌+ℤ◌, ◌*ℤ◌}
use duatic_ethercat_interfac.Types.{DeviceInfo, BusState, ok}
use duatic_ethercat_interfac.Soem.{Slave, Context, EcError, EcStates, EcErrTypes, Soem, PopsErrors}
use duatic_ethercat_interfac.Diagnostics.{basic}
use duatic_ethercat_interfac.DcSync.{Double}
use duatic_ethercat_interfac.Device.{Device, make_device}
use duatic_ethercat_interfac.Bus.{Parameters, Bus, make_bus, Env}
use duatic_ethercat_interfac.Bus.Keeps.Hooks.{Quiet}
use duatic_ethercat_interfac.Bus.Sdo.Values.{Reachable}

-- The outputs of slave `i` are two bytes from `2 * i - 2` on, its inputs two bytes from `4` on.
abbrev pub slave : ℕ → Slave
slave i = record {
  name = "drive";
  eep_man = 1;
  eep_id = 2;
  eep_rev = 3;
  hasdc = true;
  parent = 0;
  activeports = 1;
  parentport = 0;
  entryport = 0;
  pdelay = pos 0;
  dc_next = 0;
  dc_previous = 0;
  dcrt_a = pos 0;
  dcrt_b = pos 0;
  dcrt_c = pos 0;
  dcrt_d = pos 0;
  obytes = 2;
  ibytes = 2;
  outputs = if i == 1 then 0 else 2;
  inputs = 4;
  state = 8;
  al_statuscode = 0;
  islost = false;
  configadr = 4096 + i;
}

abbrev pub context : List EcError → Context (List EcError)
context errors = record {
  slavelist = slave;
  slavecount = 2;
  outputs_wkc = 1;
  inputs_wkc = 1;
  block_lrw = 0;
  dc_time = pos 0;
  world = errors;
}

abbrev pub ec_states : EcStates
ec_states = record {
  none_state = 0;
  init = 1;
  pre_op = 2;
  boot = 3;
  safe_op = 4;
  operational = 8;
  ack = 16;
}

abbrev pub ec_err_types : EcErrTypes
ec_err_types = record {
  sdo_error = 0;
  emergency = 1;
  packet_error = 3;
  sdoinfo_error = 4;
  foe_error = 5;
  foe_buf2small = 6;
  foe_packetnumber = 7;
  soe_error = 8;
  mbx_error = 9;
  foe_file_notfound = 10;
  eoe_invalid_rx_data = 11;
}

abbrev pop : List EcError → Option EcError × List EcError
pop [] = (none, [])
pop (e ∷ es) = (some e, es)

abbrev pub soem : Soem (List EcError)
soem = record {
  ec_state = ec_states;
  err_type = ec_err_types;
  ec_sdoerror2string = λ code. "sdo";
  ec_soeerror2string = λ code. "soe";
  ec_mbxerror2string = λ code. "mbx";
  ecx_init = λ i c. (pos 1, c);
  ecx_config_init = λ c. (pos 2, c);
  ecx_close = λ c. c;
  ecx_config_map_group = λ io c. (pos 8, io, c);
  ecx_configdc = λ c. (true, c);
  ecx_dcsync0 = λ i cycle shift c. c;
  ecx_writestate = λ i c. (pos 1, c);
  ecx_statecheck = λ i s c. (s, c);
  ecx_readstate = λ c. c;
  ecx_send_processdata = λ io c. (pos 1, c);
  ecx_receive_processdata = λ io c. (pos 3, io, c);
  ecx_sdo_read = λ i index sub size buffer c. (pos 1, pos size, buffer, c);
  ecx_sdo_write = λ i index sub bytes c. (pos 1, c);
  ecx_foe_write = λ i file bytes c. (pos 1, c);
  ecx_foe_read = λ i file size buffer c. (pos 1, pos size, buffer, c);
  ecx_fprd = λ adr reg buffer c. (pos 1, buffer, c);
  ecx_fpwr = λ adr reg bytes c. (pos 1, c);
  ecx_read_od_list = λ i c. (none, c);
  ecx_read_od_description = λ i l c. (l, c);
  ecx_read_oe = λ i l c. (none, c);
  ecx_poperror = λ c. let (e, es) = pop c.world in (e, record c { world = es });
  pending = λ c. c.world;
  now = λ w. (7, w);
  is_up = λ i w. (true, w);
  try_lock = λ w. (true, w);
}

abbrev pub pops : PopsErrors soem
pops = record {
  pop_empty = λ c h.
      ap (λ w. ((pop w).0, record c { world = (pop w).1 })) h
      ∙ ap (λ w. (none, record c { world = w })) (sym h);
  pop_some = λ c e es h.
      (record c { world = es }, ap (λ w. ((pop w).0, record c { world = (pop w).1 })) h, refl);
  now_keeps = λ c. refl;
}

abbrev pub double : Double ℤ
double = record {
  zero_double = pos 0;
  default_p_gain = pos 1;
  default_i_gain = pos 0;
  of_int = λ a. a;
  to_int64 = λ a. a;
  add = λ a b. a +ℤ b;
  mul = λ a b. a *ℤ b;
  div = λ a b. a;
  half = pos 0;
}

abbrev pub env : Env (List EcError) ℤ
env = record { soem = soem; double = double; callback = λ f b. (ok tt, b) }

abbrev pub quiet : Quiet env
quiet = record { callback-state = λ f b. refl }

abbrev pub parameters : Parameters
parameters = record {
  interface = "eth0";
  pdo_buffer_size = 8;
  block_lrw = false;
  dc_enabled = true;
  dc_cycle_time = 1000000;
  dc_sync0_shift = pos 0;
  master_send_offset = pos 0;
  timeout_transition_operational = 5;
  diagnostics = record {
    pdo_diagnostics = basic;
    mailbox_diagnostics = basic;
    esc_diagnostics = basic;
    esc_port_diagnostics = basic;
  };
}

abbrev info : ℕ → DeviceInfo
info i = record {
  id = i;
  name = "drive";
  vendor_id = 1;
  product_id = 2;
  revision = 3;
  has_dc = true;
}

-- A device whose process data is configured.
abbrev pub device : ℕ → Device
device i = record (make_device (info i)) {
  pdo_initialized = true;
  rx_pdo = i ∷ 9 ∷ [];
  tx_pdo = 0 ∷ 0 ∷ [];
}

-- The bus as constructed, with these entries in the error list.
abbrev pub fresh_bus : List EcError → Bus (List EcError) ℤ
fresh_bus errors = make_bus double parameters (context errors) device

-- A bus in this state, with two devices.
abbrev pub bus_in : BusState → List EcError → Bus (List EcError) ℤ
bus_in s errors = record (make_bus double parameters (context errors) device) {
  state = s;
  devices = 1 ∷ 2 ∷ [];
  io_map = replicate 8 0;
}

abbrev pub reachable : (errors : List EcError) → Reachable 1 (bus_in BusState.operational errors)
reachable errors = record { usable = refl; on_bus = refl }
