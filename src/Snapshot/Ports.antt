-- ===== src/Snapshot/Ports.antt =====
-- The ports in the text of a snapshot (src/bus_diagnostics.cpp).
use mathlib.Core.List.{append-nil, append_assoc}
use duatic_ethercat_interfac.Prelude.{
  ℕ, suc, ◌≡◌, refl, ap, ◌∙◌, sym, Bool, true, false, List, [], ◌∷◌, ◌++◌, if◌then◌else◌,
  Bool-cases, inl, inr,
}
use duatic_ethercat_interfac.Prelude.Int.{pos}
use duatic_ethercat_interfac.Types.{Text, Piece, str, num}
use duatic_ethercat_interfac.Diagnostics.{EscPortHealth}
use duatic_ethercat_interfac.Snapshot.{is_quiet, print_port, print_ports, list_active}

-- The positions of the active ports from `p` on.
pub active_from : ℕ → List Bool → List ℕ
active_from p [] = []
active_from p (true ∷ ports) = p ∷ active_from (suc p) ports
active_from p (false ∷ ports) = active_from (suc p) ports

-- A comma before each number.
with_commas : List ℕ → Text
with_commas [] = []
with_commas (n ∷ ns) = str "," ∷ num (pos n) ∷ with_commas ns

pub joined : List ℕ → Text
unfolding with_commas
joined [] = []
joined (n ∷ ns) = num (pos n) ∷ with_commas ns

list_active_on :
    (x : Piece) (list : Text) (p : ℕ) (ports : List Bool)
    → list_active (x ∷ list) p ports ≡ (x ∷ list) ++ with_commas (active_from p ports)
unfolding list_active active_from with_commas
list_active_on x list p [] = sym (append-nil (x ∷ list))
list_active_on x list p (true ∷ ports) =
    list_active_on x (list ++ str "," ∷ num (pos p) ∷ []) (suc p) ports
    ∙ ap (λ r. x ∷ r)
        (append_assoc list (str "," ∷ num (pos p) ∷ []) (with_commas (active_from (suc p) ports)))
list_active_on x list p (false ∷ ports) = list_active_on x list (suc p) ports

-- The list of the active ports is their positions, in order and separated by commas.
pub list_active_lem :
    (p : ℕ) (ports : List Bool) → list_active [] p ports ≡ joined (active_from p ports)
unfolding list_active active_from joined
list_active_lem p [] = refl
list_active_lem p (true ∷ ports) = list_active_on (num (pos p)) [] (suc p) ports
list_active_lem p (false ∷ ports) = list_active_lem (suc p) ports

-- The ports that are not quiet, with their positions.
pub wired_from : ℕ → List EscPortHealth → List (ℕ × EscPortHealth)
wired_from p [] = []
wired_from p (port ∷ ports) =
    let rest = wired_from (suc p) ports in if is_quiet port then rest else (p, port) ∷ rest

pub print_all : List (ℕ × EscPortHealth) → Text
print_all [] = []
print_all ((p, port) ∷ ports) = print_port p port ++ print_all ports

-- Exactly the ports that are up or have errors are printed, each with its own position.
pub print_ports_lem :
    (p : ℕ) (ports : List EscPortHealth) → print_ports p ports ≡ print_all (wired_from p ports)
unfolding print_ports wired_from print_all
print_ports_lem p [] = refl
print_ports_lem p (port ∷ ports) = elim (Bool-cases (is_quiet port)) [
  | inl q ↦ rw q (print_ports_lem (suc p) ports)
  | inr q ↦ rw q (ap (λ r. print_port p port ++ r) (print_ports_lem (suc p) ports))
]
