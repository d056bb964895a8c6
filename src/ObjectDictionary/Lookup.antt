-- ===== src/ObjectDictionary/Lookup.antt =====
-- The lookup maps of include/duatic_ethercat_interface/object_dictionary.hpp.
use duatic_ethercat_interfac.Prelude.{
  ℕ, suc, Bool, Option, none, some, is_some, List, [], ◌∷◌, ◌++◌, get_elem?, if◌then◌else◌,
}

module _ {K : Type 0} (same : K → K → Bool) where
  unfoldable pub find : K → List (K × ℕ) → Option ℕ
  find k [] = none
  find k ((k', p) ∷ m) = if same k' k then some p else find k m

  -- `emplace`: the entry of a key that is there already stays.
  unfoldable pub emplace : K → ℕ → List (K × ℕ) → List (K × ℕ)
  unfolding find
  emplace k p m = if is_some (find k m) then m else m ++ (k, p) ∷ []

  -- The loop of `rebuild_lookup` for one map, from the entry at position `p` on.
  unfoldable pub rebuild : {E : Type 0} → (E → K) → ℕ → List E → List (K × ℕ) → List (K × ℕ)
  unfolding emplace
  rebuild key p [] m = m
  rebuild key p (e ∷ es) m = rebuild key (suc p) es (emplace (key e) p m)

-- The entry that a lookup points to.
abbrev pub deref : {E : Type 0} → List E → Option ℕ → Option E
deref es none = none
deref es (some p) = get_elem? es p
