-- ===== src/Soem.antt =====
-- What the backend sees of the SOEM library: the context of internal/soem/soem_context.hpp, the
-- constants and the calls that src/internal/soem/soem_backend.cpp and internal/soem/mailbox.hpp make.
-- SOEM is not part of the repository, so its calls are the fields of a record that the model takes
-- as a parameter. `W` is the type of all that the backend never looks at: the port, the caches, the
-- wire and the clock. Timeouts are constants of the source and are left out of the calls.
pub mod States
use Prim.Native.String.{String}
use duatic_ethercat_interfac.Prelude.{
  ℕ, suc, ◌≡◌, ◌≢◌, Bool, Option, none, some, List, [], ◌∷◌, ◌==◌, if◌then◌else◌,
}
use duatic_ethercat_interfac.Prelude.Int.{ℤ}

-- The fields of `ec_slavet` that the backend reads or writes. `outputs` and `inputs` point into the
-- IO map, so they are offsets in it.
pub record Slave : Type 0 where
  pub name : String
  pub eep_man : ℕ
  pub eep_id : ℕ
  pub eep_rev : ℕ
  pub hasdc : Bool
  pub parent : ℕ
  pub activeports : ℕ
  pub parentport : ℕ
  pub entryport : ℕ
  pub pdelay : ℤ
  pub dc_next : ℕ
  pub dc_previous : ℕ
  pub dcrt_a : ℤ
  pub dcrt_b : ℤ
  pub dcrt_c : ℤ
  pub dcrt_d : ℤ
  pub obytes : ℕ
  pub ibytes : ℕ
  pub outputs : ℕ
  pub inputs : ℕ
  pub state : ℕ
  pub al_statuscode : ℕ
  pub islost : Bool
  pub configadr : ℕ

-- `EthercatContext`: the slave list is a C array, entry 0 is the master.
pub record Context (W : Type 0) : Type 0 where
  pub slavelist : ℕ → Slave
  pub slavecount : ℕ
  pub outputs_wkc : ℕ
  pub inputs_wkc : ℕ
  pub block_lrw : ℕ
  pub dc_time : ℤ
  pub world : W

-- `context_.ecatSlavelist_[i] = s`.
abbrev pub set_slave : {W : Type 0} → ℕ → Slave → Context W → Context W
set_slave i s c = record c { slavelist = λ j. if j == i then s else c.slavelist j }

-- `ec_errort`, an entry of SOEM's error list.
pub record EcError : Type 0 where
  pub slave : ℕ
  pub etype : ℕ
  pub index : ℕ
  pub sub_idx : ℕ
  pub abort_code : ℕ
  pub error_code : ℕ
  pub error_reg : ℕ
  pub b1 : ℕ
  pub w1 : ℕ
  pub w2 : ℕ

-- `ec_ODlistt` and `ec_OElistt`: the number of entries, and the arrays by position.
pub record OdList : Type 0 where
  pub entries : ℕ
  pub index : ℕ → ℕ
  pub object_code : ℕ → ℕ
  pub data_type : ℕ → ℕ
  pub max_sub : ℕ → ℕ
  pub name : ℕ → String

pub record OeList : Type 0 where
  pub entries : ℕ
  pub name : ℕ → String
  pub data_type : ℕ → ℕ
  pub bit_length : ℕ → ℕ

-- The enumerators of SOEM's `ec_state`.
pub record EcStates : Type 0 where
  pub none_state : ℕ
  pub init : ℕ
  pub pre_op : ℕ
  pub boot : ℕ
  pub safe_op : ℕ
  pub operational : ℕ
  pub ack : ℕ

-- The enumerators of SOEM's `ec_err_type`.
pub record EcErrTypes : Type 0 where
  pub sdo_error : ℕ
  pub sdoinfo_error : ℕ
  pub emergency : ℕ
  pub soe_error : ℕ
  pub mbx_error : ℕ
  pub packet_error : ℕ
  pub foe_error : ℕ
  pub foe_buf2small : ℕ
  pub foe_packetnumber : ℕ
  pub foe_file_notfound : ℕ
  pub eoe_invalid_rx_data : ℕ

pub record Soem (W : Type 0) : Type 0 where
  pub ec_state : EcStates
  pub err_type : EcErrTypes
  pub ec_sdoerror2string : ℕ → String
  pub ec_soeerror2string : ℕ → String
  pub ec_mbxerror2string : ℕ → String
  pub ecx_init : String → Context W → ℤ × Context W
  pub ecx_config_init : Context W → ℤ × Context W
  pub ecx_close : Context W → Context W
  pub ecx_config_map_group : List ℕ → Context W → ℤ × List ℕ × Context W
  pub ecx_configdc : Context W → Bool × Context W
  pub ecx_dcsync0 : ℕ → ℕ → ℤ → Context W → Context W
  pub ecx_writestate : ℕ → Context W → ℤ × Context W
  pub ecx_statecheck : ℕ → ℕ → Context W → ℕ × Context W
  pub ecx_readstate : Context W → Context W
  pub ecx_send_processdata : List ℕ → Context W → ℤ × Context W
  pub ecx_receive_processdata : List ℕ → Context W → ℤ × List ℕ × Context W
  -- slave, index, sub index, size of the buffer, buffer: working counter, size read, buffer
  pub ecx_sdo_read : ℕ → ℕ → ℕ → ℕ → List ℕ → Context W → ℤ × ℤ × List ℕ × Context W
  pub ecx_sdo_write : ℕ → ℕ → ℕ → List ℕ → Context W → ℤ × Context W
  pub ecx_foe_write : ℕ → String → List ℕ → Context W → ℤ × Context W
  pub ecx_foe_read : ℕ → String → ℕ → List ℕ → Context W → ℤ × ℤ × List ℕ × Context W
  -- configured address, register address, buffer
  pub ecx_fprd : ℕ → ℕ → List ℕ → Context W → ℤ × List ℕ × Context W
  pub ecx_fpwr : ℕ → ℕ → List ℕ → Context W → ℤ × Context W
  pub ecx_read_od_list : ℕ → Context W → Option OdList × Context W
  pub ecx_read_od_description : ℕ → OdList → Context W → OdList × Context W
  pub ecx_read_oe : ℕ → OdList → Context W → Option OeList × Context W
  pub ecx_poperror : Context W → Option EcError × Context W
  -- The entries that wait in the error list, oldest first.
  pub pending : Context W → List EcError
  -- `HighPrecisionClock::now()`, `nic::is_up`, and whether a `try_lock` gets the mutex.
  pub now : W → ℕ × W
  pub is_up : String → W → Bool × W
  pub try_lock : W → Bool × W

-- The documented behaviour of `ecx_poperror`: it takes the oldest entry off the list and says
-- whether there was one. A look at the clock leaves the list alone.
pub record PopsErrors {W : Type 0} (soem : Soem W) : Type 0 where
  pub pop_empty : (c : Context W) → soem.pending c ≡ [] → soem.ecx_poperror c ≡ (none, c)
  pub pop_some :
      (c : Context W) (e : EcError) (es : List EcError)
      → soem.pending c ≡ e ∷ es
      → (c' : Context W) × (soem.ecx_poperror c ≡ (some e, c')) × (soem.pending c' ≡ es)
  pub now_keeps :
      (c : Context W) → soem.pending (record c { world = (soem.now c.world).1 }) ≡ soem.pending c

-- The `ec_state` enumerators are told apart, as the labels of one `switch` have to be.
pub record DistinctStates (s : EcStates) : Type 0 where
  pub none_init : s.none_state ≢ s.init
  pub none_pre_op : s.none_state ≢ s.pre_op
  pub none_boot : s.none_state ≢ s.boot
  pub none_safe_op : s.none_state ≢ s.safe_op
  pub none_operational : s.none_state ≢ s.operational
  pub init_pre_op : s.init ≢ s.pre_op
  pub init_boot : s.init ≢ s.boot
  pub init_safe_op : s.init ≢ s.safe_op
  pub init_operational : s.init ≢ s.operational
  pub pre_op_boot : s.pre_op ≢ s.boot
  pub pre_op_safe_op : s.pre_op ≢ s.safe_op
  pub pre_op_operational : s.pre_op ≢ s.operational
  pub boot_safe_op : s.boot ≢ s.safe_op
  pub boot_operational : s.boot ≢ s.operational
  pub safe_op_operational : s.safe_op ≢ s.operational
