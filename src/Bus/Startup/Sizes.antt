-- ===== src/Bus/Startup/Sizes.antt =====
-- The buffers of the devices after `startup` (src/internal/soem/soem_backend.cpp, with
-- `on_pdo_configured` of include/duatic_ethercat_interface/ethercat_device.hpp).
use duatic_ethercat_interfac.Prelude.{
  ℕ, ◌≡◌, refl, sym, ap, ◌∙◌, subst, true, Option, none, some, List, [], ◌∷◌, length, length-resize,
  resize, arith,
}
use duatic_ethercat_interfac.Types.{Result, ok, err}
use duatic_ethercat_interfac.Bus.{Bus, Env, Action, gets, for_each, continue, pure, ◌>>=◌}
use duatic_ethercat_interfac.Bus.Diagnosing.{time_now}
use duatic_ethercat_interfac.Bus.Pdo.{update_device, call_hook, on_pdo_configured}
use duatic_ethercat_interfac.Bus.Startup.{notify_configured, startup}

module _ {W F : Type 0} where
  -- The buffers of a device have the sizes of its slave's process data.
  pub record Sized (id : ℕ) (b : Bus W F) : Type 0 where
    pub initialized : (b.store id).pdo_initialized ≡ true
    pub rx : length (b.store id).rx_pdo ≡ (b.context.slavelist id).obytes
    pub tx : length (b.store id).tx_pdo ≡ (b.context.slavelist id).ibytes

  abbrev pub AllSized : List ℕ → Bus W F → Type 0
  AllSized [] b = Unit {0}
  AllSized (id ∷ ids) b = Sized id b × AllSized ids b

-- The callbacks that users register keep the list of the devices and the sizes of their buffers.
pub record KeepsSizes {W F : Type 0} (env : Env W F) : Type 0 where
  pub same_devices : (f : ℕ) (b : Bus W F) → (env.callback f b).1.devices ≡ b.devices
  pub sized_on : (f id : ℕ) (b : Bus W F) → Sized id b → Sized id (env.callback f b).1

module _ {W F : Type 0} (env : Env W F) where
  abbrev later : Bus W F → Bus W F
  later b = (time_now env b).1

  -- The bus once one device has its buffers, before its callback.
  with_rx : ℕ → ℕ → Bus W F → Bus W F
  unfolding time_now
  with_rx id size b =
      update_device id
        (λ d. record d {
          rx_pdo = resize size 0 d.rx_pdo;
          rx_pdo_last_write_time = (env.soem.now b.context.world).0;
        })
        (later b)

  with_tx : ℕ → ℕ → Bus W F → Bus W F
  unfolding time_now
  with_tx id size b =
      update_device id
        (λ d. record d {
          tx_pdo = resize size 0 d.tx_pdo;
          tx_pdo_last_read_time = (env.soem.now b.context.world).0;
          pdo_initialized = true;
        })
        (later b)

  with_buffers : ℕ → Bus W F → Bus W F
  unfolding with_rx with_tx
  with_buffers id b =
      with_tx id (b.context.slavelist id).ibytes (with_rx id (b.context.slavelist id).obytes b)

  notify_lem :
      (id : ℕ) (b : Bus W F)
      → notify_configured env id b
        ≡ call_hook env ((with_buffers id b).store id).hooks.on_pdo_configured (with_buffers id b)
  unfolding notify_configured on_pdo_configured with_buffers ◌>>=◌
  notify_lem id b = refl

  with_buffers-Sized : (id : ℕ) (b : Bus W F) → Sized id (with_buffers id b)
  unfolding with_buffers time_now ◌>>=◌
  with_buffers-Sized id b = record {
    initialized = ground arith;
    rx =
        ground (arith, length-resize {A = ℕ} (b.context.slavelist id).obytes 0 (b.store id).rx_pdo);
    tx =
        ground (arith, length-resize {A = ℕ} (b.context.slavelist id).ibytes 0 (b.store id).tx_pdo);
  }

  with_buffers-Sized_other : (id j : ℕ) (b : Bus W F) → Sized j b → Sized j (with_buffers id b)
  unfolding with_buffers time_now ◌>>=◌
  with_buffers-Sized_other id j b h = record {
    initialized = ground (arith, h.initialized);
    rx =
        ground (
          arith,
          h.rx,
          length-resize {A = ℕ} (b.context.slavelist id).obytes 0 (b.store id).rx_pdo,
        );
    tx =
        ground (
          arith,
          h.tx,
          length-resize {A = ℕ} (b.context.slavelist id).ibytes 0 (b.store id).tx_pdo,
        );
  }

  with_buffers-devices : (id : ℕ) (b : Bus W F) → (with_buffers id b).devices ≡ b.devices
  unfolding with_buffers time_now ◌>>=◌
  with_buffers-devices id b = refl

module _ {W F : Type 0} (env : Env W F) (keeps : KeepsSizes env) where
  call_hook-Sized :
      (hook : Option ℕ) (j : ℕ) (b : Bus W F) → Sized j b → Sized j (call_hook env hook b).1
  unfolding call_hook pure
  call_hook-Sized none j b h = h
  call_hook-Sized (some f) j b h = keeps.sized_on f j b h

  call_hook-devices : (hook : Option ℕ) (b : Bus W F) → (call_hook env hook b).1.devices ≡ b.devices
  unfolding call_hook pure
  call_hook-devices none b = refl
  call_hook-devices (some f) b = keeps.same_devices f b

  notify-Sized : (id : ℕ) (b : Bus W F) → Sized id (notify_configured env id b).1
  notify-Sized id b =
      subst (λ p. Sized id p.1) (sym (notify_lem env id b))
        (call_hook-Sized _ id (with_buffers env id b) (with_buffers-Sized env id b))

  notify-Sized_other : (id j : ℕ) (b : Bus W F) → Sized j b → Sized j (notify_configured env id b).1
  notify-Sized_other id j b h =
      subst (λ p. Sized j p.1) (sym (notify_lem env id b))
        (call_hook-Sized _ j (with_buffers env id b) (with_buffers-Sized_other env id j b h))

  notify-devices : (id : ℕ) (b : Bus W F) → (notify_configured env id b).1.devices ≡ b.devices
  notify-devices id b =
      ap (λ p. p.1.devices) (notify_lem env id b)
      ∙ call_hook-devices _ (with_buffers env id b)
      ∙ with_buffers-devices env id b

-- What a call that returned has left behind; nothing is said of one that threw.
abbrev pub Post : {W F A : Type 0} → (Bus W F → Type 0) → Result A × Bus W F → Type 0
Post P (ok a, b) = P b
Post P (err e, b) = Unit {0}

-- What the loop over these devices leaves behind.
record Served {W F : Type 0} (ids : List ℕ) (b b' : Bus W F) : Type 0 where
  devices : b'.devices ≡ b.devices
  sized : AllSized ids b'
  others : (j : ℕ) → Sized j b → Sized j b'

module _ {W F : Type 0} where
  serve_first :
      (id : ℕ) (ids : List ℕ) (b b1 : Bus W F) (p : Result (Unit {0}) × Bus W F)
      → Sized id b1
      → ((j : ℕ) → Sized j b → Sized j b1)
      → b1.devices ≡ b.devices
      → Post (Served ids b1) p
      → Post (Served (id ∷ ids) b) p
  serve_first id ids b b1 (ok u, b') s o d h = record {
    devices = h.devices ∙ d;
    sized = (h.others id s, h.sized);
    others = λ j k. h.others j (o j k);
  }
  serve_first id ids b b1 (err e, b') s o d h = tt

  serve_rest :
      (id : ℕ) (ids : List ℕ) (b : Bus W F) (f : Action W F (Unit {0}))
      (p : Result (Unit {0}) × Bus W F)
      → Sized id p.1
      → ((j : ℕ) → Sized j b → Sized j p.1)
      → p.1.devices ≡ b.devices
      → ((b1 : Bus W F) → Post (Served ids b1) (f b1))
      → Post (Served (id ∷ ids) b) (continue p.0 (λ u. f) p.1)
  serve_rest id ids b f (ok u, b1) s o d rest = serve_first id ids b b1 (f b1) s o d (rest b1)
  serve_rest id ids b f (err e, b1) s o d rest = tt

  -- The action establishes this whenever it returns.
  record Establishes {A : Type 0} (P : Bus W F → Type 0) (m : Action W F A) : Type 0 where
    at : (b : Bus W F) → Post P (m b)

  establishes_next :
      {A B : Type 0} {P : Bus W F → Type 0} (p : Result A × Bus W F) (f : A → Action W F B)
      → ((a : A) → Establishes P (f a))
      → Post P (continue p.0 f p.1)
  establishes_next (ok a, b) f k = (k a).at b
  establishes_next (err e, b) f k = tt

  Establishes-bind :
      {A B : Type 0} {P : Bus W F → Type 0} (m : Action W F A) (f : A → Action W F B)
      → ((a : A) → Establishes P (f a))
      → Establishes P (m >>= f)
  unfolding ◌>>=◌
  Establishes-bind m f k = record { at = λ b. establishes_next (m b) f k }

  all-Served :
      (b : Bus W F) (p : Result (Unit {0}) × Bus W F)
      → Post (Served b.devices b) p
      → Post (λ b'. AllSized b'.devices b') p
  all-Served b (ok u, b') h = subst (λ ids. AllSized ids b') (sym h.devices) h.sized
  all-Served b (err e, b') h = tt

module _ {W F : Type 0} (env : Env W F) (keeps : KeepsSizes env) where
  loop_lem :
      (ids : List ℕ) (b : Bus W F) → Post (Served ids b) (for_each ids (notify_configured env) b)
  unfolding for_each ◌>>=◌
  loop_lem [] b = record { devices = refl; sized = tt; others = λ j h. h }
  loop_lem (id ∷ ids) b =
      serve_rest id ids b (for_each ids (notify_configured env)) (notify_configured env id b)
        (notify-Sized env keeps id b) (λ j. notify-Sized_other env keeps id j b)
        (notify-devices env keeps id b) (loop_lem ids)

  notifies_all :
      Establishes
        (λ b. AllSized b.devices b)
        (gets (λ (b : Bus W F). b.devices) >>= λ devices. for_each devices (notify_configured env))
  unfolding ◌>>=◌
  notifies_all = record { at = λ b. all-Served b _ (loop_lem b.devices b) }

  -- If startup returns, whatever state it began in and whatever SOEM mapped, then every device of the
  -- bus has its process data configured, and its buffers have exactly the sizes of its slave's outputs
  -- and inputs, as the exchange of process data requires. The registered callbacks have to keep the
  -- list of the devices and the sizes of configured buffers.
  pub startup-AllSized : (b : Bus W F) → Post (λ b'. AllSized b'.devices b') (startup env b)
  unfolding startup
  startup-AllSized =
      (Establishes-bind _ _ λ _. Establishes-bind _ _ λ _. Establishes-bind _ _ λ _.
        Establishes-bind _ _ λ _.
          Establishes-bind _ _
            λ _. Establishes-bind _ _ λ _. Establishes-bind _ _ λ _. notifies_all).at
