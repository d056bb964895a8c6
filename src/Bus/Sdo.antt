-- ===== src/Bus/Sdo.antt =====
-- SDO access: `read_sdo_untyped`, `write_sdo_untyped`, their forms with a callback, and
-- `EthercatBus::sdo_read` and `sdo_write` of src/internal/soem/soem_backend.cpp. A value of a type
-- `T` is its bytes. What a call writes into the caller's buffer is part of its result.
pub mod Values
pub mod Transfers
use Prim.Native.String.{String}
use duatic_ethercat_interfac.Wrapper.{ValueDiagnosticsWrapper}
use duatic_ethercat_interfac.Prelude.{
  ℕ, Bool, true, false, not, ◌&&◌, ◌||◌, Option, none, some, List, [], ◌∷◌, ◌==◌, if◌then◌else◌,
  length, replicate, take, min,
}
use duatic_ethercat_interfac.Prelude.Int.{ℤ, pos, negsuc, eqb_ℤ}
use duatic_ethercat_interfac.Types.{
  pre_init, shut_down, canopen, SdoReadResult, SdoWriteResult, backend_error, device_not_found,
  soem, literal, ok,
}
use duatic_ethercat_interfac.Mailbox.{MailboxAccess}
use duatic_ethercat_interfac.Bus.{
  Env, Action, pure, throw_if, gets, modify, on_context, ◌>>=◌, ◌>>◌, soem_error, is_in,
  has_device_on_bus, device_not_on_bus,
}
use duatic_ethercat_interfac.Bus.MailboxAccess.{drain_all_mailbox_events, finish_mailbox_access}

abbrev pub maximum_visible_string_size : ℕ
maximum_visible_string_size = 255

-- The characters before the first NUL.
unfoldable pub until_nul : List ℕ → List ℕ
until_nul [] = []
until_nul (c ∷ cs) = if c == 0 then [] else c ∷ until_nul cs

-- `std::min<std::size_t>(static_cast<std::size_t>(n), bound)`: a negative `n` is a huge size.
abbrev pub min_size : ℤ → ℕ → ℕ
min_size (pos n) bound = min n bound
min_size (negsuc n) bound = bound

module _ {W F : Type 0} where
  -- The checks that mailbox and register calls begin with; `refusal` is the message of the first.
  unfoldable pub check_access : String → ℕ → Action W F (Unit {0})
  check_access refusal device_id = do
    throw_if (← gets λ b. is_in pre_init b || is_in shut_down b) (soem_error refusal)
    throw_if (not (← gets (has_device_on_bus device_id)))
        (device_not_found (device_not_on_bus device_id) soem)

module _ {W F : Type 0} (env : Env W F) where
  abbrev pub sdo_access : ℕ → ℕ → ℕ → MailboxAccess
  sdo_access device_id index sub_index = record {
    device_id = device_id;
    protocol = canopen;
    index = some index;
    sub_index = some sub_index;
  }

  -- `finish_mailbox_access` as an action: the event, and whether the access failed.
  unfoldable pub finish_sdo : ℕ → ℕ → ℕ → ℤ → Action W F (SdoWriteResult)
  finish_sdo device_id index sub_index wkc b =
      let (event, failed, b') =
        finish_mailbox_access env.soem (sdo_access device_id index sub_index) wkc b in
      (ok (record { success = not failed; working_counter = wkc; mailbox_diagnostics = event }), b')

  -- The result and the buffer after the read.
  unfoldable pub read_sdo_untyped : List ℕ → ℕ → ℕ → ℕ → Bool → Action W F (SdoReadResult × List ℕ)
  unfolding check_access finish_sdo
  read_sdo_untyped buffer device_id index sub_index check_size = do
    check_access "Backend not initialized - cannot perform SDO operations" device_id
    modify (drain_all_mailbox_events env.soem)
    (wkc, actual_size, bytes) ← on_context λ c.
        let (wkc, actual_size, bytes, c') =
          env.soem.ecx_sdo_read device_id index sub_index (length buffer) buffer c in
        ((wkc, actual_size, bytes), c')
    finished ← finish_sdo device_id index sub_index wkc
    let result : SdoReadResult = record {
      success = finished.success;
      actual_size_read = actual_size;
      working_counter = wkc;
      mailbox_diagnostics = finished.mailbox_diagnostics;
    }
    throw_if (finished.success && check_size && not (eqb_ℤ (pos (length buffer)) actual_size))
        (backend_error (literal "SDORead size mismatch") soem (some actual_size))
    pure (result, bytes)

  unfoldable pub write_sdo_untyped : List ℕ → ℕ → ℕ → ℕ → Action W F SdoWriteResult
  unfolding check_access finish_sdo
  write_sdo_untyped bytes device_id index sub_index = do
    check_access "Backend not initialized - cannot perform SDO operations" device_id
    modify (drain_all_mailbox_events env.soem)
    wkc ← on_context (env.soem.ecx_sdo_write device_id index sub_index bytes)
    finish_sdo device_id index sub_index wkc

  -- The form with a callback, which runs in the calling thread once the read is done.
  unfoldable pub read_sdo_untyped_async :
      (List ℕ → ℕ → ℕ → ℕ → SdoReadResult → Action W F (Unit {0}))
      → List ℕ
      → ℕ
      → ℕ
      → ℕ
      → Bool
      → Action W F (Unit {0})
  read_sdo_untyped_async cb buffer device_id index sub_index check_size = do
    (result, bytes) ← read_sdo_untyped buffer device_id index sub_index check_size
    cb bytes device_id index sub_index result

  unfoldable pub write_sdo_untyped_async :
      (ℕ → ℕ → ℕ → SdoWriteResult → Action W F (Unit {0}))
      → List ℕ
      → ℕ
      → ℕ
      → ℕ
      → Action W F (Unit {0})
  write_sdo_untyped_async cb bytes device_id index sub_index = do
    result ← write_sdo_untyped bytes device_id index sub_index
    cb device_id index sub_index result

  -- `sdo_read<T>` for a type of `size` bytes.
  unfoldable pub sdo_read :
      ℕ → ℕ → ℕ → ℕ → Action W F (ValueDiagnosticsWrapper (List ℕ) SdoReadResult)
  sdo_read size device_id index sub_index = do
    (result, bytes) ← read_sdo_untyped (replicate size 0) device_id index sub_index true
    pure (record { diagnostics = result; value = if result.success then some bytes else none })

  -- `sdo_read<std::string>`.
  unfoldable pub sdo_read_string :
      ℕ → ℕ → ℕ → Action W F (ValueDiagnosticsWrapper (List ℕ) SdoReadResult)
  unfolding until_nul
  sdo_read_string device_id index sub_index = do
    (result, bytes) ←
        read_sdo_untyped (replicate maximum_visible_string_size 0) device_id index sub_index false
    let text = until_nul (take (min_size result.actual_size_read maximum_visible_string_size) bytes)
    pure (record { diagnostics = result; value = if result.success then some text else none })
