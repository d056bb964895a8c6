-- ===== src/Bus/Diagnosing/Selection.antt =====
-- The slave that `update_diagnostics_slow` (src/internal/soem/soem_backend.cpp) looks at.
use duatic_ethercat_interfac.Prelude.{
  ℕ, zero, suc, ◌+◌, ◌-◌, ◌<◌, ◌≡◌, refl, ap, ◌∙◌, List, replicate, arith, leb, leb→le, Bool-cases,
  inl, inr, if◌then◌else◌,
}
use duatic_ethercat_interfac.Soem.{Soem, Context}
use duatic_ethercat_interfac.Bus.{Bus, Env, ◌>>=◌}
use duatic_ethercat_interfac.Bus.Diagnosing.{
  time_now, read_register_block, read_slave_port_diagnostics, selected_slave,
  update_diagnostics_slow,
}

-- A register read does not change the number of slaves.
pub record ReadsKeepCount {W : Type 0} (soem : Soem W) : Type 0 where
  pub count :
      (config_adr address : ℕ) (buffer : List ℕ) (c : Context W)
      → (soem.ecx_fprd config_adr address buffer c).2.slavecount ≡ c.slavecount

module _ {W F : Type 0} (env : Env W F) where
  -- The bus after some updates.
  unfoldable pub slow_updates : ℕ → Bus W F → Bus W F
  slow_updates zero b = b
  slow_updates (suc n) b = slow_updates n (update_diagnostics_slow env b).1

module _ {W F : Type 0} (env : Env W F) (reads : ReadsKeepCount env.soem) where
  update_diagnostics_slow-count :
      (b : Bus W F) → (update_diagnostics_slow env b).1.context.slavecount ≡ b.context.slavecount
  unfolding update_diagnostics_slow read_slave_port_diagnostics read_register_block time_now ◌>>=◌
  update_diagnostics_slow-count b =
      let adr = (b.context.slavelist (selected_slave b + 1)).configadr in
      let c1 = (env.soem.ecx_fprd adr 0x0110 (replicate 2 0) b.context).2 in
      let c2 = (env.soem.ecx_fprd adr 0x0300 (replicate 8 0) c1).2 in
      reads.count adr 0x0310 (replicate 4 0) c2
      ∙ reads.count adr 0x0300 (replicate 8 0) c1
      ∙ reads.count adr 0x0110 (replicate 2 0) b.context

  update_diagnostics_slow-next :
      (b : Bus W F)
      → (update_diagnostics_slow env b).1.current_selected_diagnostics_slave ≡ selected_slave b + 1
  unfolding update_diagnostics_slow read_slave_port_diagnostics read_register_block time_now ◌>>=◌
  update_diagnostics_slow-next b = refl

  selected_slave-bound :
      (b : Bus W F) → 0 < b.context.slavecount → selected_slave b < b.context.slavecount
  unfolding selected_slave
  selected_slave-bound b h = ground arith

  selected_slave-step :
      (b : Bus W F)
      → selected_slave (update_diagnostics_slow env b).1
        ≡ (if leb b.context.slavecount (selected_slave b + 1) then 0 else selected_slave b + 1)
  unfolding selected_slave
  selected_slave-step b =
      ground (arith, update_diagnostics_slow-count b, update_diagnostics_slow-next b)

  selects-after :
      (n : ℕ) (b : Bus W F)
      → selected_slave b + n < b.context.slavecount
      → (selected_slave (slow_updates env n b) ≡ selected_slave b + n)
        × ((slow_updates env n b).context.slavecount ≡ b.context.slavecount)
  unfolding slow_updates
  selects-after zero b h = (omega arith, refl)
  selects-after (suc n) b h =
      let b' = (update_diagnostics_slow env b).1 in
      let step = selected_slave-step b in
      let same = update_diagnostics_slow-count b in
      let moved : selected_slave b' ≡ selected_slave b + 1 = ground (arith, step, h) in
      let (selected, count) = selects-after n b' (omega (arith, moved, same, h)) in
      (omega (arith, selected, moved), count ∙ same)

  slow_updates-add :
      (m n : ℕ) (b : Bus W F)
      → slow_updates env (m + n) b ≡ slow_updates env n (slow_updates env m b)
  unfolding slow_updates
  slow_updates-add zero n b = let e : 0 + n ≡ n = omega arith in ap (λ k. slow_updates env k b) e
  slow_updates-add (suc m) n b =
      let e : suc m + n ≡ suc (m + n) = omega arith in
      ap (λ k. slow_updates env k b) e ∙ slow_updates-add m n (update_diagnostics_slow env b).1

  -- From the last slave the selection wraps to the first.
  wraps :
      (b : Bus W F)
      → selected_slave b + 1 ≡ b.context.slavecount
      → (selected_slave (slow_updates env 1 b) ≡ 0)
        × ((slow_updates env 1 b).context.slavecount ≡ b.context.slavecount)
  unfolding slow_updates
  wraps b h = (ground (arith, selected_slave-step b, h), update_diagnostics_slow-count b)

  -- If register reads do not change the number of slaves then, whichever slave is selected, every
  -- slave on the bus is selected within as many updates as there are slaves.
  pub every_slave_selected :
      (target : ℕ) (b : Bus W F)
      → target < b.context.slavecount
      → (n : ℕ) × (n < b.context.slavecount) × (selected_slave (slow_updates env n b) ≡ target)
  every_slave_selected target b h =
      let bound = selected_slave-bound b (omega (arith, h)) in
      elim (Bool-cases (leb (selected_slave b) target)) [
        | inl later ↦
            let le = leb→le (selected_slave b) target later in
            let (e, count) = selects-after (target - selected_slave b) b (omega arith) in
            (target - selected_slave b, omega arith, omega (arith, e))
        | inr before ↦
            let lt : target < selected_slave b = ground (arith, before) in
            let n = b.context.slavecount - 1 - selected_slave b in
            let b1 = slow_updates env n b in
            let (e1, c1) = selects-after n b (omega arith) in
            let (e2, c2) = wraps b1 (omega (arith, e1, c1)) in
            let b2 = slow_updates env 1 b1 in
            let (e3, c3) = selects-after target b2 (omega (arith, e2, c2, c1, h)) in
            (
              n + (1 + target),
              omega arith,
              ap selected_slave (slow_updates-add n (1 + target) b ∙ slow_updates-add 1 target b1)
                  ∙ omega (arith, e3, e2),
            )
      ]
