-- ===== src/Bus/Owner/Dangling.antt =====
-- What the destruction of a bus leaves of its devices (`~EthercatBus` of
-- src/internal/soem/soem_backend.cpp).
use duatic_ethercat_interfac.Prelude.{ℕ, ◌≡◌, refl, ap, ◌∙◌, List, [], ◌∷◌, ◌&&◌, not, arith}
use duatic_ethercat_interfac.Types.{initialized, shut_down}
use duatic_ethercat_interfac.Device.{clear_bus}
use duatic_ethercat_interfac.Bus.{Bus, Env, contains, ◌>>=◌}
use duatic_ethercat_interfac.Bus.Pdo.{update_device}
use duatic_ethercat_interfac.Bus.Lifecycle.{shutdown}
use duatic_ethercat_interfac.Bus.Owner.{clear_all, destroy}

module _ {W F : Type 0} where
  -- The destructor takes the bus away from exactly the devices that the backend still lists.
  clear_all_lem :
      (ids : List ℕ) (id : ℕ) (b : Bus W F)
      → ((clear_all ids b).store id).has_bus ≡ ((b.store id).has_bus && not (contains id ids))
  unfolding clear_all clear_bus
  clear_all_lem [] id b = ground arith
  clear_all_lem (i ∷ is) id b = ground (arith, clear_all_lem is id (update_device i clear_bus b))

module _ {W F : Type 0} (env : Env W F) where
  closed :
      (b : Bus W F)
      → b.state ≡ initialized
      → ((shutdown env b).1.devices ≡ [])
        × ((shutdown env b).1.store ≡ b.store)
        × ((shutdown env b).1.state ≡ shut_down)
  unfolding shutdown ◌>>=◌
  closed b h = (ground (arith, h), ground (arith, h), ground (arith, h))

  destroyed :
      (b : Bus W F) → b.state ≡ shut_down → b.devices ≡ [] → (destroy env b).1.store ≡ b.store
  unfolding destroy shutdown clear_all ◌>>=◌
  destroyed b h e = rw (e, h) refl

  -- A bus that is destroyed after a shutdown from the initialized state takes the bus away from no
  -- device: the list is empty by then, so that a device that the user still holds keeps its pointer to
  -- the destroyed bus.
  pub destroy-shutdown_dangling :
      (id : ℕ) (b : Bus W F)
      → b.state ≡ initialized
      → ((destroy env (shutdown env b).1).1.store id).has_bus ≡ (b.store id).has_bus
  destroy-shutdown_dangling id b h =
      let (none_left, kept, down) = closed b h in
      ap (λ s. (s id).has_bus) (destroyed (shutdown env b).1 down none_left ∙ kept)
