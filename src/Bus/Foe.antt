-- ===== src/Bus/Foe.antt =====
-- File access over EtherCAT: `foe_write` and `foe_read` of src/internal/soem/soem_backend.cpp.
pub mod Values
use Prim.Native.String.{String}
use duatic_ethercat_interfac.Wrapper.{ValueDiagnosticsWrapper}
use duatic_ethercat_interfac.Prelude.{ℕ, not, none, some, List, if◌then◌else◌, length, take}
use duatic_ethercat_interfac.Prelude.Int.{ℤ}
use duatic_ethercat_interfac.Types.{foe, FoeReadResult, FoeWriteResult, ok}
use duatic_ethercat_interfac.Mailbox.{MailboxAccess}
use duatic_ethercat_interfac.Bus.{Env, Action, pure, modify, on_context, ◌>>=◌, ◌>>◌}
use duatic_ethercat_interfac.Bus.MailboxAccess.{drain_all_mailbox_events, finish_foe_access}
use duatic_ethercat_interfac.Bus.Sdo.{min_size, check_access}

module _ {W F : Type 0} (env : Env W F) where
  -- FoE carries no index.
  abbrev pub foe_access : ℕ → MailboxAccess
  foe_access device_id = record {
    device_id = device_id;
    protocol = foe;
    index = none;
    sub_index = none;
  }

  unfoldable pub finish_foe : ℕ → ℤ → Action W F FoeWriteResult
  finish_foe device_id wkc b =
      let (event, failed, b') = finish_foe_access env.soem (foe_access device_id) wkc b in
      (ok (record { success = not failed; working_counter = wkc; mailbox_diagnostics = event }), b')

  unfoldable pub foe_write : ℕ → String → List ℕ → Action W F FoeWriteResult
  unfolding finish_foe
  foe_write device_id file_name bytes = do
    check_access "Backend not initialized - cannot perform file operations" device_id
    modify (drain_all_mailbox_events env.soem)
    wkc ← on_context (env.soem.ecx_foe_write device_id file_name bytes)
    finish_foe device_id wkc

  -- The value is the part of the buffer that was filled.
  unfoldable pub foe_read :
      ℕ → String → List ℕ → Action W F (ValueDiagnosticsWrapper (List ℕ) FoeReadResult)
  unfolding finish_foe
  foe_read device_id file_name buffer = do
    check_access "Backend not initialized - cannot perform file operations" device_id
    modify (drain_all_mailbox_events env.soem)
    (wkc, actual_size, bytes) ← on_context λ c.
        let (wkc, actual_size, bytes, c') =
          env.soem.ecx_foe_read device_id file_name (length buffer) buffer c in
        ((wkc, actual_size, bytes), c')
    finished ← finish_foe device_id wkc
    let size = if finished.success then min_size actual_size (length buffer) else 0
    pure (record {
      diagnostics = record {
        success = finished.success;
        working_counter = wkc;
        actual_read_size = size;
        mailbox_diagnostics = finished.mailbox_diagnostics;
      };
      value = if finished.success then some (take size bytes) else none;
    })
