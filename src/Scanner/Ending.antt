-- ===== src/Scanner/Ending.antt =====
-- How src/tools/bus_scanner.cpp ends.
use Prim.Native.String.{String}
use text.Mathlib.Text.{◌==◌ as str_eq}
use duatic_ethercat_interfac.Prelude.{
  ℕ, ◌≡◌, refl, Bool, true, Option, none, some, List, [], ◌∷◌, ◌++◌, ◌⊎◌, inl, inr, Bool-cases,
  if◌then◌else◌,
}
use duatic_ethercat_interfac.Prelude.Int.{ℤ, pos, negsuc}
use duatic_ethercat_interfac.Types.{
  pre_init, shut_down, Text, str, DeviceInfo, Error, backend_error, device_not_found,
  device_configuration_error, executor_error, runtime_error, invalid_argument, logic_error, foreign,
  is_runtime_error, is_exception, Result, ok, err,
}
use duatic_ethercat_interfac.Soem.{Context}
use duatic_ethercat_interfac.Device.{Device}
use duatic_ethercat_interfac.Bus.{Bus, Env}
use duatic_ethercat_interfac.Bus.Keeps.Access.{scan-Keeps}
use duatic_ethercat_interfac.Bus.Throws.{RuntimeOnly, Throws-scan}
use duatic_ethercat_interfac.Bus.Interfaces.{Adapters, list_interfaces, result_of}
use duatic_ethercat_interfac.Bus.Owner.{destroy}
use duatic_ethercat_interfac.SdoPrint.{Texts}
use duatic_ethercat_interfac.Scanner.Console.{Session, print, ◌>>=◌}
use duatic_ethercat_interfac.Scanner.Sessions.{
  Decent, Decent-print, Decent-call, Decent-bind, Decent-for_all, print_device-Decent,
}
use duatic_ethercat_interfac.Scanner.Printing.{print_info, print_device}
use duatic_ethercat_interfac.Scanner.Closing.{
  Worked, initializing, Closed, destroy-initialized, destroy-Early,
}
use duatic_ethercat_interfac.Scanner.{
  Arguments, Exit, after_destroy, exit_code, print_count, report_devices, scan_session, sdo_session,
  with_bus, listing, handle_list_interfaces, handle_scan, handle_sdo, run_verb, is_verb, check_verb,
  main,
}

caught_exception :
    (e : Error)
    → is_runtime_error e ≡ true
    → ◌≡◌ {A = Result ℤ} (if is_exception e then ok (negsuc 1) else err e) (ok (negsuc 1))
caught_exception (backend_error message backend ec) h = refl
caught_exception (device_not_found message backend) h = refl
caught_exception (device_configuration_error message) h = refl
caught_exception (executor_error message) h = refl
caught_exception (runtime_error message) h = refl
caught_exception (invalid_argument message) h = absurd (cc h)
caught_exception (logic_error message) h = absurd (cc h)
caught_exception (foreign f) h = absurd (cc h)

module _ {W F : Type 0} (env : Env W F) where
  -- Exit codes: with no bus 0, -1 or -2; with a bus 0 and the connection closed, or -2.
  abbrev pub CleanExit : Result ℤ → Option (Bus W F) → Type 0
  CleanExit code none = (code ≡ ok (pos 0)) ⊎ ((code ≡ ok (negsuc 0)) ⊎ (code ≡ ok (negsuc 1)))
  CleanExit code (some b) =
      ((code ≡ ok (pos 0)) × Closed env b) ⊎ ((code ≡ ok (negsuc 1)) × (b.state ≡ shut_down))

  exit-CleanExit :
      (r : Result (Unit {0})) (out : Text) (b : Bus W F)
      → Worked r b.state
      → let x = exit_code (after_destroy (destroy env b).0 r) out (some (destroy env b).1) in
        CleanExit x.code x.bus
  exit-CleanExit (ok u) out b h = let (d, c) = destroy-initialized env b h in rw d (inl (refl, c))
  exit-CleanExit (err e) out b (h, s) =
      let (d, c) = destroy-Early env b s in rw d (inr (caught_exception e h, c))

module _ {W F : Type 0} (env : Env W F) (texts : Texts) where
  report_devices-Decent :
      (report : DeviceInfo → Session W F (Unit {0})) (device_count : ℤ)
      → ((info : DeviceInfo) → Decent (report info))
      → Decent (report_devices env texts report device_count)
  unfolding report_devices print_count
  report_devices-Decent report device_count d = Decent-bind _ _ (Decent-print _) λ _.
      Decent-bind _ _ (Decent-call _ (Throws-scan env) scan-Keeps)
        λ infos. Decent-for_all infos report d

  print_info-Decent : (info : DeviceInfo) → Decent {W = W} {F = F} (print_info info)
  unfolding print_info
  print_info-Decent info = Decent-print _

  scan_session-Worked :
      (interface : String) (x : Bus W F × Text)
      → x.0.state ≡ pre_init
      → let y = scan_session env texts interface x in Worked y.0 y.1.0.state
  unfolding scan_session print ◌>>=◌
  scan_session-Worked interface x e =
      initializing env (report_devices env texts print_info)
        (x.0, x.1 ++ str "scanning bus: " ∷ str interface ∷ str " for devices\n" ∷ [])
        (λ count. report_devices-Decent print_info count print_info-Decent) e

  sdo_session-Worked :
      (read_sdos : Bool) (x : Bus W F × Text)
      → x.0.state ≡ pre_init
      → let y = sdo_session env texts read_sdos x in Worked y.0 y.1.0.state
  unfolding sdo_session
  sdo_session-Worked read_sdos x e =
      initializing env (report_devices env texts (print_device env texts read_sdos)) x
        (λ count. report_devices-Decent _ count (print_device-Decent env texts read_sdos)) e

module _ {W F : Type 0} (env : Env W F) (texts : Texts) (adapters : Adapters W) (help : Text) where
  listing-RuntimeOnly :
      (p : List String × W) → RuntimeOnly (listing env texts (result_of adapters p).0).0
  unfolding listing result_of
  listing-RuntimeOnly ([], w) = refl
  listing-RuntimeOnly (name ∷ names, w) = tt

  no_bus-CleanExit :
      (r : Result (Unit {0})) (out : Text)
      → RuntimeOnly r
      → let x = exit_code {W = W} {F = F} r out none in CleanExit env x.code x.bus
  no_bus-CleanExit (ok u) out h = inl refl
  no_bus-CleanExit (err e) out h = inr (inr (caught_exception e h))

  run_verb-CleanExit :
      (args : Arguments) (verb : String) (context : Context W) (store : ℕ → Device)
      → let x = run_verb env texts adapters help args verb context store in
        CleanExit env x.code x.bus
  unfolding run_verb handle_list_interfaces list_interfaces handle_scan handle_sdo with_bus
  run_verb-CleanExit args verb context store = elim (Bool-cases (str_eq verb "list_interfaces")) [
    | inl l ↦
        rw l (no_bus-CleanExit _ _ (listing-RuntimeOnly (adapters.ec_find_adapters context.world)))
    | inr nl ↦ elim (Bool-cases (str_eq verb "scan")) [
      | inl sc ↦
          rw (nl, sc) (exit-CleanExit env _ _ _ (scan_session-Worked env texts args.bus _ refl))
      | inr ns ↦ elim (Bool-cases (str_eq verb "sdo")) [
        | inl sd ↦
            rw (nl, ns, sd)
              (exit-CleanExit env _ _ _ (sdo_session-Worked env texts args.read _ refl))
        | inr other ↦ rw (nl, ns, other) (inl refl)
      ]
    ]
  ]

  check_verb-CleanExit :
      (args : Arguments) (verb : Option String) (context : Context W) (store : ℕ → Device)
      → let x = check_verb env texts adapters help args verb context store in
        CleanExit env x.code x.bus
  unfolding check_verb
  check_verb-CleanExit args none context store = inl refl
  check_verb-CleanExit args (some verb) context store = elim (Bool-cases args.help) [
    | inl h ↦ rw h (inl refl)
    | inr h ↦ elim (Bool-cases (is_verb env texts adapters help verb)) [
      | inl v ↦ rw (h, v) (run_verb-CleanExit args verb context store)
      | inr v ↦ rw (h, v) (inr (inl refl))
    ]
  ]

  -- How the tool ends, by what the parser of its arguments does.
  abbrev pub Ended : Result Arguments → Exit W F → Type 0
  Ended (ok args) x = CleanExit env x.code x.bus
  Ended (err e) x = (x.code ≡ err e) × (x.bus ≡ none)

  -- Whatever the bus and SOEM do: an exception of the parser of the arguments leaves the tool before it
  -- has used a bus. With arguments that are parsed the tool ends with 0, -1 or -2, and no exception gets
  -- out of it. If it has used a bus then it ends with 0 or -2 and leaves the bus shut down, and with 0
  -- only if the last thing that was done to the connection was to close it.
  pub main-CleanExit :
      (parsed : Result Arguments) (context : Context W) (store : ℕ → Device)
      → Ended parsed (main env texts adapters help parsed context store)
  unfolding main
  main-CleanExit (err e) context store = (refl, refl)
  main-CleanExit (ok args) context store = check_verb-CleanExit args args.verb context store
