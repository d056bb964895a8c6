-- ===== src/Bus/Lifecycle/Devices.antt =====
-- The devices that `initialize` creates and `acquire_device` hands out
-- (src/internal/soem/soem_backend.cpp).
use duatic_ethercat_interfac.Prelude.{
  ℕ, zero, suc, ◌+◌, ◌%◌, ◌^◌, ◌<◌, ◌≤◌, ◌≡◌, refl, sym, ap, ◌∙◌, true, false, List, [], ◌∷◌, ◌++◌,
  range_from, resize, arith, leb, ltb, ◌&&◌, ◌||◌,
}
use duatic_ethercat_interfac.Types.{pre_init, initialized, ok}
use duatic_ethercat_interfac.Device.{make_device}
use duatic_ethercat_interfac.Bus.{
  Bus, Env, pure, is_in, has_device_on_bus, slave_ids, has_device, contains, for_each, ◌>>=◌,
}
use duatic_ethercat_interfac.Bus.Returns.{is_ok}
use duatic_ethercat_interfac.Bus.Slaves.{device_info, scan_device, acquire_device}
use duatic_ethercat_interfac.Bus.Pdo.{update_device}
use duatic_ethercat_interfac.Bus.Lifecycle.{
  add_device, initialize, with_slaves, capture_topology, capture_links,
}
use duatic_ethercat_interfac.Prelude.Int.{pos, leb_ℤ}
use duatic_ethercat_interfac.Diagnostics.{default_esc_status}

append-nil : (xs : List ℕ) → xs ++ [] ≡ xs
append-nil [] = refl
append-nil (x ∷ xs) = ap (λ l. x ∷ l) (append-nil xs)

append-append : (xs : List ℕ) (y : ℕ) (zs : List ℕ) → (xs ++ y ∷ []) ++ zs ≡ xs ++ y ∷ zs
append-append [] y zs = refl
append-append (x ∷ xs) y zs = ap (λ l. x ∷ l) (append-append xs y zs)

module _ {W F : Type 0} where
  -- The bus with one more device.
  abbrev with_device : ℕ → Bus W F → Bus W F
  with_device i b =
      let info = device_info i (b.context.slavelist i) in
      record (update_device info.id (λ d. make_device info) b) {
        devices = b.devices ++ info.id ∷ [];
      }

  abbrev with_devices : List ℕ → Bus W F → Bus W F
  with_devices [] b = b
  with_devices (i ∷ is) b = with_devices is (with_device i b)

module _ {W F : Type 0} (env : Env W F) where
  add_device_lem :
      (i : ℕ) (b : Bus W F)
      → is_in pre_init b ≡ false
      → 0 < i
      → i ≤ b.context.slavecount
      → i < 2 ^ 16
      → add_device env i b ≡ (ok tt, with_device i b)
  unfolding add_device scan_device ◌>>=◌
  add_device_lem i b h more below small =
      let e : i % 2 ^ 16 ≡ i = omega arith in
      let on_bus : has_device_on_bus (i % 2 ^ 16) b ≡ true = ground (arith, e, more, below) in
      let added : add_device env i b ≡ (ok tt, with_device (i % 2 ^ 16) b) = rw (h, on_bus) refl in
      added ∙ ap (λ j. (ok tt, with_device j b)) e

  add_devices_lem :
      (count first : ℕ) (b : Bus W F)
      → is_in pre_init b ≡ false
      → 0 < first
      → first + count ≤ suc b.context.slavecount
      → first + count ≤ 2 ^ 16
      → for_each (range_from first count) (add_device env) b
        ≡ (ok tt, with_devices (range_from first count) b)
  unfolding for_each pure ◌>>=◌
  add_devices_lem zero first b h more below small = refl
  add_devices_lem (suc count) first b h more below small =
      rw (add_device_lem first b h more (omega arith) (omega arith)) (
        add_devices_lem count (suc first) (with_device first b) h (omega arith) (omega arith)
          (omega arith))

module _ {W F : Type 0} where
  devices-with_devices :
      (count first : ℕ) (b : Bus W F)
      → first + count ≤ 2 ^ 16
      → (with_devices (range_from first count) b).devices ≡ b.devices ++ range_from first count
  devices-with_devices zero first b small = sym (append-nil b.devices)
  devices-with_devices (suc count) first b small =
      let e : first % 2 ^ 16 ≡ first = omega arith in
      devices-with_devices count (suc first) (with_device first b) (omega arith)
      ∙ append-append b.devices (first % 2 ^ 16) (range_from (suc first) count)
      ∙ ap (λ i. b.devices ++ i ∷ range_from (suc first) count) e

contains-append :
    (id : ℕ) (xs ys : List ℕ) → contains id (xs ++ ys) ≡ (contains id xs || contains id ys)
contains-append id [] ys = refl
contains-append id (x ∷ xs) ys = ground (arith, contains-append id xs ys)

contains-range :
    (id count first : ℕ)
    → contains id (range_from first count) ≡ (leb first id && ltb id (first + count))
contains-range id zero first = ground arith
contains-range id (suc count) first = ground (arith, contains-range id count (suc first))

-- SOEM opens the interface and finds this many devices, as `ecx_config_init` documents: the number is
-- what it returns and what it leaves in the context. Ids have 16 bits.
pub record Finds {W F : Type 0} (env : Env W F) (b : Bus W F) (n : ℕ) : Type 0 where
  pub opens : leb_ℤ (env.soem.ecx_init b.params.interface b.context).0 (pos 0) ≡ false
  pub returned :
      (env.soem.ecx_config_init (env.soem.ecx_init b.params.interface b.context).1).0 ≡ pos n
  pub left :
      (env.soem.ecx_config_init (env.soem.ecx_init b.params.interface b.context).1).1.slavecount ≡ n
  pub some_device : 0 < n
  pub ids_fit : n < 2 ^ 16

module _ {W F : Type 0} (env : Env W F) where
  -- The bus before the devices are created.
  abbrev ready : Bus W F → Bus W F
  ready b =
      let c = (env.soem.ecx_config_init (env.soem.ecx_init b.params.interface b.context).1).1 in
      let (up, w) = env.soem.is_up b.params.interface c.world in
      let b1 =
        with_slaves
          (λ b. resize b.context.slavecount default_esc_status b.latest_diagnostics.slaves)
          (record b { context = c }) in
      let b2 =
        with_slaves
          (λ b. capture_topology capture_links b.context (slave_ids b) b.latest_diagnostics.slaves)
          b1 in
      record b2 {
        context = record c { world = w };
        latest_diagnostics = record b2.latest_diagnostics {
          bus = record b2.latest_diagnostics.bus { link_up = up };
        };
        state = initialized;
      }

  initialize-ready :
      (n : ℕ) (b : Bus W F)
      → b.state ≡ pre_init
      → Finds env b n
      → initialize env b
        ≡ (for_each (range_from 1 n) (add_device env) >>= λ x. pure (pos n)) (ready b)
  unfolding initialize ◌>>=◌
  initialize-ready n b h f =
      let returned : leb_ℤ (pos n) (pos 0) ≡ false = ground (arith, f.some_device) in
      let here : is_in pre_init b ≡ true = ground (arith, h) in
      rw (here, f.opens, f.returned, returned) refl

  ready-context : (n : ℕ) (b : Bus W F) → Finds env b n → (ready b).context.slavecount ≡ n
  ready-context n b f = f.left

  state-with_devices : (is : List ℕ) (b : Bus W F) → (with_devices is b).state ≡ b.state
  state-with_devices [] b = refl
  state-with_devices (i ∷ is) b = state-with_devices is (with_device i b)

  initialized_bus :
      (n : ℕ) (b : Bus W F)
      → b.state ≡ pre_init
      → Finds env b n
      → initialize env b ≡ (ok (pos n), with_devices (range_from 1 n) (ready b))
  unfolding pure ◌>>=◌
  initialized_bus n b h f =
      let added =
        add_devices_lem env n 1 (ready b) refl (omega arith) (omega (arith, ready-context n b f))
          (omega (arith, f.ids_fit)) in
      initialize-ready n b h f ∙ rw added refl

  -- If a bus has no devices yet and SOEM opens the interface and finds some devices, fewer than 65536,
  -- then a call of initialize before initialization returns their number and leaves the bus
  -- initialized, and `has_device` holds for the ids from 1 to that number and for no other.
  pub initialize_lem :
      (n id : ℕ) (b : Bus W F)
      → b.state ≡ pre_init
      → b.devices ≡ []
      → Finds env b n
      → let b' = (initialize env b).1 in
        ((initialize env b).0 ≡ ok (pos n))
        × (b'.state ≡ initialized)
        × (has_device id b' ≡ (ltb 0 id && leb id n))
  initialize_lem n id b h none_yet f = rw (initialized_bus n b h f) (
    refl,
    state-with_devices (range_from 1 n) (ready b),
    ap (contains id) (devices-with_devices n 1 (ready b) (omega (arith, f.ids_fit)))
        ∙ ap (λ l. contains id (l ++ range_from 1 n)) none_yet
        ∙ contains-range id n 1
        ∙ ground arith,
  )

module _ {W F : Type 0} where
  -- On an initialized bus `acquire_device` hands out exactly the devices that `has_device` tells of,
  -- and never changes the bus.
  pub acquire_device-has_device :
      (id : ℕ) (b : Bus W F)
      → b.state ≡ initialized
      → (is_ok (acquire_device id b).0 ≡ has_device id b) × ((acquire_device id b).1 ≡ b)
  unfolding acquire_device ◌>>=◌
  acquire_device-has_device id b h = (ground (arith, h), ground (arith, h))
