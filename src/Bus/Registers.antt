-- ===== src/Bus/Registers.antt =====
-- ESC registers: `read_register_untyped`, `write_register_untyped`, and `EthercatBus::register_read`
-- and `register_write` of src/internal/soem/soem_backend.cpp.
pub mod Sizes
use duatic_ethercat_interfac.Wrapper.{ValueDiagnosticsWrapper}
use duatic_ethercat_interfac.Prelude.{
  ℕ, ◌%◌, ◌^◌, Bool, none, some, List, ltb, if◌then◌else◌, length, replicate,
}
use duatic_ethercat_interfac.Prelude.Int.{pos, ltb_ℤ}
use duatic_ethercat_interfac.Types.{RegisterReadResult, RegisterWriteResult, logic_error, literal}
use duatic_ethercat_interfac.Bus.{Env, Action, pure, throw_if, gets, on_context, ◌>>=◌, ◌>>◌}
use duatic_ethercat_interfac.Bus.Sdo.{check_access}

module _ {W F : Type 0} (env : Env W F) where
  unfoldable pub check_register : ℕ → List ℕ → Action W F (Unit {0})
  check_register device_id bytes = do
    check_access "Backend not initialized - cannot perform register operations" device_id
    throw_if (ltb 65535 (length bytes)) (logic_error (literal "Requested data size too large"))

  unfoldable pub read_register_untyped : List ℕ → ℕ → ℕ → Action W F RegisterReadResult
  unfolding check_register
  read_register_untyped buffer device_id address = do
    check_register device_id buffer
    config_adr ← gets λ b. (b.context.slavelist device_id).configadr
    (wkc, bytes) ← on_context λ c.
        let (wkc, bytes, c') = env.soem.ecx_fprd config_adr address buffer c in ((wkc, bytes), c')
    pure (record {
      success = ltb_ℤ (pos 0) wkc;
      working_counter = wkc;
      actual_size_read = length buffer % 2 ^ 16;
      bytes = bytes;
    })

  unfoldable pub write_register_untyped : List ℕ → ℕ → ℕ → Action W F RegisterWriteResult
  unfolding check_register
  write_register_untyped bytes device_id address = do
    check_register device_id bytes
    config_adr ← gets λ b. (b.context.slavelist device_id).configadr
    wkc ← on_context (env.soem.ecx_fpwr config_adr address bytes)
    pure (record { success = ltb_ℤ (pos 0) wkc; working_counter = wkc })

  -- `register_read<T>` for a type of `size` bytes.
  unfoldable pub register_read :
      ℕ → ℕ → ℕ → Action W F (ValueDiagnosticsWrapper (List ℕ) RegisterReadResult)
  register_read size device_id address = do
    result ← read_register_untyped (replicate size 0) device_id address
    pure (record {
      diagnostics = result;
      value = if result.success then some result.bytes else none;
    })

  unfoldable pub register_write : ℕ → ℕ → List ℕ → Action W F Bool
  register_write device_id address bytes = do
    result ← write_register_untyped bytes device_id address
    pure result.success
