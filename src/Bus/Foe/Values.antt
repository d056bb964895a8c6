-- ===== src/Bus/Foe/Values.antt =====
-- What `foe_read` returns (src/internal/soem/soem_backend.cpp).
use Prim.Native.String.{String}
use duatic_ethercat_interfac.Prelude.{
  ℕ, ◌≤◌, ◌≡◌, refl, Bool, true, false, Option, none, some, List, length, length-take, arith,
  Bool-cases, inl, inr,
}
use duatic_ethercat_interfac.Types.{Returned}
use duatic_ethercat_interfac.Bus.{Bus, Env, ◌>>=◌}
use duatic_ethercat_interfac.Bus.MailboxAccess.{drain_all_mailbox_events, finish_foe_access}
use duatic_ethercat_interfac.Bus.Sdo.{min_size}
use duatic_ethercat_interfac.Bus.Sdo.Values.{Reachable, check_access_reachable, min_size-bound}
use duatic_ethercat_interfac.Bus.Foe.{foe_access, finish_foe, foe_read}

-- The value of a file read into a buffer of this size: none, with a size of 0, if the transfer
-- failed; otherwise as many bytes as are reported, and at most as many as the buffer holds.
abbrev pub FileValue : ℕ → Bool → ℕ → Option (List ℕ) → Type 0
FileValue capacity true size (some bytes) = (length bytes ≤ size) × (size ≤ capacity)
FileValue capacity true size none = ⊥
FileValue capacity false size (some bytes) = ⊥
FileValue capacity false size none = size ≡ 0

module _ {W F : Type 0} (env : Env W F) where
  -- A file read from a slave that can be reached always returns. If the transfer failed it has no
  -- value and reports no bytes; otherwise its value has at most the bytes that it reports, and these
  -- are never more than the buffer holds, whatever size SOEM reports.
  pub foe_read-FileValue :
      (id : ℕ) (file_name : String) (buffer : List ℕ) (b : Bus W F)
      → Reachable id b
      → Returned
          (λ v.
            FileValue (length buffer) v.diagnostics.success v.diagnostics.actual_read_size v.value)
          (foe_read env id file_name buffer b).0
  unfolding foe_read finish_foe ◌>>=◌
  foe_read-FileValue id file_name buffer b r =
      let b1 = drain_all_mailbox_events env.soem b in
      let (wkc, n, bytes, c) =
        env.soem.ecx_foe_read id file_name (length buffer) buffer b1.context in
      let failed =
        (finish_foe_access env.soem (foe_access env id) wkc (record b1 { context = c })).1 in
      rw (check_access_reachable _ id b r) elim (Bool-cases failed) [
        | inl f ↦ rw f refl
        | inr f ↦ rw f (
          omega (arith, length-take (min_size n (length buffer)) bytes),
          omega (arith, min_size-bound n (length buffer)),
        )
      ]
