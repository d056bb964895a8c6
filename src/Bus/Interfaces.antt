-- ===== src/Bus/Interfaces.antt =====
-- The static functions of `EthercatBus`: `list_interfaces` and `used_backend` of
-- src/internal/soem/soem_backend.cpp.
use Prim.Native.String.{String}
use duatic_ethercat_interfac.Prelude.{List, [], ◌∷◌}
use duatic_ethercat_interfac.Types.{Backend, soem, runtime_error, literal, Result, ok, err}

-- SOEM's list of the network adapters, by their names: `[]` is a null pointer.
pub record Adapters (W : Type 0) : Type 0 where
  pub ec_find_adapters : W → List String × W
  pub ec_free_adapters : List String → W → W

-- What the loop from `iter` on adds to `result`.
unfoldable pub collect_names : List String → List String
collect_names [] = []
collect_names (name ∷ next) = name ∷ collect_names next

unfoldable pub result_of : {W : Type 0} → Adapters W → List String × W → Result (List String) × W
unfolding collect_names
result_of adapters ([], w) = (err (runtime_error (literal "Error calling ec_find_adapters")), w)
result_of adapters (name ∷ next, w) =
    (ok (collect_names (name ∷ next)), adapters.ec_free_adapters (name ∷ next) w)

unfoldable pub list_interfaces : {W : Type 0} → Adapters W → W → Result (List String) × W
unfolding result_of
list_interfaces adapters w = result_of adapters (adapters.ec_find_adapters w)

abbrev pub used_backend : Backend
used_backend = soem
