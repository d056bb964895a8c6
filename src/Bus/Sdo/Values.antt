-- ===== src/Bus/Sdo/Values.antt =====
-- The values that `sdo_read` returns (src/internal/soem/soem_backend.cpp).
use Prim.Native.String.{String}
use duatic_ethercat_interfac.Wrapper.{ValueDiagnosticsWrapper}
use duatic_ethercat_interfac.Prelude.{
  is_some, ℕ, ◌≤◌, ◌≡◌, ◌≢◌, refl, true, false, ◌||◌, Option, none, some, List, [], ◌∷◌, length,
  length-take, length-replicate, Bool-cases, ◌⊎◌, inl, inr, take, replicate, arith,
}
use duatic_ethercat_interfac.Prelude.Int.{ℤ, pos, negsuc, eqb_ℤ}
use duatic_ethercat_interfac.Types.{
  pre_init, shut_down, Result, ok, err, backend_error, soem, literal, Returned, SdoReadResult,
}
use duatic_ethercat_interfac.Bus.{Bus, Env, is_in, has_device_on_bus, ◌>>=◌}
use duatic_ethercat_interfac.Bus.MailboxAccess.{drain_all_mailbox_events, finish_mailbox_access}
use duatic_ethercat_interfac.Bus.Sdo.{
  sdo_access, until_nul, min_size, check_access, finish_sdo, read_sdo_untyped, sdo_read,
  sdo_read_string,
}

module _ {W F : Type 0} where
  -- Mailbox and register calls can reach this slave.
  pub record Reachable (id : ℕ) (b : Bus W F) : Type 0 where
    pub usable : (is_in pre_init b || is_in shut_down b) ≡ false
    pub on_bus : has_device_on_bus id b ≡ true

module _ {W F : Type 0} where
  pub check_access_reachable :
      (refusal : String) (id : ℕ) (b : Bus W F)
      → Reachable id b
      → check_access refusal id b ≡ (ok tt, b)
  unfolding check_access ◌>>=◌
  check_access_reachable refusal id b r = ground (arith, r.usable, r.on_bus)

-- None of the characters is a NUL.
abbrev pub NoNul : List ℕ → Type 0
NoNul [] = Unit {0}
NoNul (c ∷ cs) = (c ≢ 0) × NoNul cs

until_nul-NoNul : (cs : List ℕ) → NoNul (until_nul cs)
unfolding until_nul
until_nul-NoNul [] = tt
until_nul-NoNul (c ∷ cs) = ground (arith, until_nul-NoNul cs)

length-until_nul : (cs : List ℕ) → length (until_nul cs) ≤ length cs
unfolding until_nul
length-until_nul [] = omega arith
length-until_nul (c ∷ cs) = ground (arith, length-until_nul cs)

pub min_size-bound : (n : ℤ) (bound : ℕ) → min_size n bound ≤ bound
min_size-bound (pos n) bound = omega arith
min_size-bound (negsuc n) bound = omega arith

-- A text without NUL of at most 255 characters, or nothing.
abbrev pub IsText : Option (List ℕ) → Type 0
IsText none = Unit {0}
IsText (some cs) = NoNul cs × (length cs ≤ 255)

until_nul-IsText :
    (n : ℤ) (bytes : List ℕ) → IsText (some (until_nul (take (min_size n 255) bytes)))
until_nul-IsText n bytes = (
  until_nul-NoNul _,
  omega (
    arith,
    length-until_nul (take (min_size n 255) bytes),
    length-take (min_size n 255) bytes,
    min_size-bound n 255,
  ),
)

module _ {W F : Type 0} (env : Env W F) where
  -- A string read of a slave that can be reached always returns. It has a value exactly if the read
  -- succeeded, and the value has at most 255 characters and no NUL, whatever size and bytes SOEM
  -- reports.
  pub sdo_read_string-IsText :
      (id index sub_index : ℕ) (b : Bus W F)
      → Reachable id b
      → Returned
          (λ v. (is_some v.value ≡ v.diagnostics.success) × IsText v.value)
          (sdo_read_string env id index sub_index b).0
  unfolding sdo_read_string read_sdo_untyped finish_sdo ◌>>=◌
  sdo_read_string-IsText id index sub_index b r =
      let (wkc, n, bytes, c) =
        env.soem.ecx_sdo_read id index sub_index 255 (replicate 255 0)
          (drain_all_mailbox_events env.soem b).context in
      rw (check_access_reachable _ id b r) (ground (arith, until_nul-IsText n bytes))

-- How a typed read ends: with the size mismatch as an error, with no value since the access failed,
-- or with a value and then the size that SOEM reports is the size of the type.
abbrev pub SdoReadEnds : ℕ → Result (ValueDiagnosticsWrapper (List ℕ) SdoReadResult) → Type 0
SdoReadEnds size (err e) =
    (n : ℤ) × (e ≡ backend_error (literal "SDORead size mismatch") soem (some n))
    × (eqb_ℤ (pos size) n ≡ false)
SdoReadEnds size (ok v) =
    (is_some v.value ≡ v.diagnostics.success)
    × ((v.diagnostics.success ≡ false) ⊎ (eqb_ℤ (pos size) v.diagnostics.actual_size_read ≡ true))

module _ {W F : Type 0} (env : Env W F) where
  -- A read of a type of some size, from a slave that can be reached, either returns a value, and
  -- then the access succeeded and SOEM read exactly that size, or returns no value since the access
  -- failed, or throws the size mismatch, and then the sizes differ.
  pub sdo_read-Ends :
      (size id index sub_index : ℕ) (b : Bus W F)
      → Reachable id b
      → SdoReadEnds size (sdo_read env size id index sub_index b).0
  unfolding sdo_read read_sdo_untyped finish_sdo ◌>>=◌
  sdo_read-Ends size id index sub_index b r =
      let b1 = drain_all_mailbox_events env.soem b in
      let (wkc, n, bytes, c) =
        env.soem.ecx_sdo_read id index sub_index size (replicate size 0) b1.context in
      let failed =
        (finish_mailbox_access env.soem (sdo_access env id index sub_index) wkc
          (record b1 { context = c })).1 in
      rw (check_access_reachable _ id b r, length-replicate {A = ℕ} size 0)
        elim (Bool-cases failed) [
          | inl f ↦ rw f (refl, inl refl)
          | inr f ↦ elim (Bool-cases (eqb_ℤ (pos size) n)) [
            | inl e ↦ rw (f, e) (refl, inr e)
            | inr e ↦ rw (f, e) (n, refl, e)
          ]
        ]
