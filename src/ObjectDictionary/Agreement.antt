-- ===== src/ObjectDictionary/Agreement.antt =====
-- What the dictionary of include/duatic_ethercat_interface/object_dictionary.hpp finds, against a
-- search of the entries from the front.
use Prim.Native.String.{String}
use Prim.Native.Nat.{Ordering}
use text.Mathlib.Text.{is_eq}
use text.Mathlib.TextEquality.{path_by_compare}
use text.Mathlib.TextPositions.{compare_refl}
use duatic_ethercat_interfac.Prelude.{
  ℕ, suc, ◌+◌, ◌≡◌, ◌↔◌, refl, sym, ap, ◌∙◌, Bool, true, Option, none, some, is_some, List, [], ◌∷◌,
  ◌++◌, get_elem?, ==_iff, arith, Bool-cases, inl, inr, if◌then◌else◌,
}
use duatic_ethercat_interfac.ObjectDictionary.{
  SdoEntry, same_index, same_name, make_dictionary, copy_dictionary, has_index, has_name, at_index,
  at_name, find, emplace, rebuild, deref,
}

-- The first entry with this key.
pub first_with : {K E : Type 0} → (K → K → Bool) → (E → K) → K → List E → Option E
first_with same key k [] = none
first_with same key k (e ∷ es) = if same (key e) k then some e else first_with same key k es

-- A key test decides equality.
abbrev pub Decides : {K : Type 0} → (K → K → Bool) → Type 0
Decides {K} same = (a b : K) → (same a b ≡ true) ↔ (a ≡ b)

-- What the maps find after the rest of the entries are added: an older entry stays.
abbrev or_first : {E : Type 0} → Option E → Option E → Option E
or_first none later = later
or_first (some e) later = some e

module _ {K : Type 0} (same : K → K → Bool) where
  find-append :
      (k k' : K) (p : ℕ) (m : List (K × ℕ))
      → find same k (m ++ (k', p) ∷ [])
        ≡ elim (find same k m) [ some q ↦ some q | none ↦ (if same k' k then some p else none) ]
  unfolding find
  find-append k k' p [] = refl
  find-append k k' p ((x, q) ∷ m) = ground (arith, find-append k k' p m)

  -- The position of the first entry with this key, where the list begins at position `p`.
  position : {E : Type 0} → (E → K) → K → ℕ → List E → Option ℕ
  position key k p [] = none
  position key k p (e ∷ es) = if same (key e) k then some p else position key k (suc p) es

  find-emplace :
      {E : Type 0} (key : E → K) (k : K) (p : ℕ) (e : E) (later : Option ℕ) (m : List (K × ℕ))
      → Decides same
      → or_first (find same k (emplace same (key e) p m)) later
        ≡ or_first (find same k m) (if same (key e) k then some p else later)
  unfolding emplace
  find-emplace key k p e later m decides = elim (Bool-cases (same (key e) k)) [
    | inl mine ↦
        let e' = ap (λ x. find same x m) ((decides (key e) k).0 mine) in
        ground (arith, mine, e', find-append k (key e) p m)
    | inr other ↦ ground (arith, other, find-append k (key e) p m)
  ]

  find-rebuild :
      {E : Type 0} (key : E → K) (k : K) (p : ℕ) (es : List E) (m : List (K × ℕ))
      → Decides same
      → find same k (rebuild same key p es m) ≡ or_first (find same k m) (position key k p es)
  unfolding rebuild position
  find-rebuild key k p [] m decides = ground arith
  find-rebuild key k p (e ∷ es) m decides =
      find-rebuild key k (suc p) es (emplace same (key e) p m) decides
      ∙ find-emplace key k p e (position key k (suc p) es) m decides

  deref-position :
      {E : Type 0} (key : E → K) (k : K) (p : ℕ) (es all : List E)
      → ((i : ℕ) → get_elem? all (p + i) ≡ get_elem? es i)
      → deref all (position key k p es) ≡ first_with same key k es
  unfolding position first_with
  deref-position key k p [] all h = refl
  deref-position key k p (e ∷ es) all h =
      let here : get_elem? all p ≡ some e =
        (let z : p ≡ p + 0 = omega arith in ap (get_elem? all) z ∙ h 0) in
      let rest =
        deref-position key k (suc p) es all
          λ i. (let z : suc p + i ≡ p + suc i = omega arith in ap (get_elem? all) z ∙ h (suc i)) in
      elim (Bool-cases (same (key e) k)) [ inl mine ↦ rw mine here | inr other ↦ rw other rest ]

  lookup_lem :
      {E : Type 0} (key : E → K) (k : K) (es : List E)
      → Decides same
      → deref es (find same k (rebuild same key 0 es [])) ≡ first_with same key k es
  unfolding find
  lookup_lem key k es decides =
      ap (deref es) (find-rebuild key k 0 es [] decides)
      ∙ deref-position key k 0 es es λ i. (let z : 0 + i ≡ i = omega arith in ap (get_elem? es) z)

module _ {K : Type 0} (same : K → K → Bool) where
  position-first :
      {E : Type 0} (key : E → K) (k : K) (p : ℕ) (es : List E)
      → is_some (position same key k p es) ≡ is_some (first_with same key k es)
  unfolding position first_with
  position-first key k p [] = refl
  position-first key k p (e ∷ es) = ground (arith, position-first key k (suc p) es)

  has_lem :
      {E : Type 0} (key : E → K) (k : K) (es : List E)
      → Decides same
      → is_some (find same k (rebuild same key 0 es [])) ≡ is_some (first_with same key k es)
  unfolding find
  has_lem key k es decides =
      ap is_some (find-rebuild same key k 0 es [] decides) ∙ position-first key k 0 es

same_index-Decides : Decides same_index
same_index-Decides a b = ==_iff a b

is_eq-eq : (o : Ordering) → is_eq o ≡ true → o ≡ Ordering.eq
is_eq-eq o h = ground (arith, h)

same_name-Decides : Decides same_name
same_name-Decides a b = (
  λ h. path_by_compare a b (is_eq-eq _ h),
  λ e. ap (λ x. same_name a x) (sym e) ∙ ap is_eq (compare_refl a),
)

-- In a dictionary made of entries, and in every copy of it, a lookup by index finds the first entry
-- with that index, and `has_index` says whether there is one.
pub at_index-first :
    (index : ℕ) (entries : List SdoEntry)
    → let first = first_with same_index (λ e. e.index) index entries in
      let od = make_dictionary entries in
      (at_index index od ≡ first)
      × (at_index index (copy_dictionary od) ≡ first)
      × (has_index index od ≡ is_some first)
unfolding make_dictionary copy_dictionary
at_index-first index entries =
    let found = lookup_lem same_index (λ e. e.index) index entries same_index-Decides in
    (found, found, has_lem same_index (λ e. e.index) index entries same_index-Decides)

-- In a dictionary made of entries, and in every copy of it, a lookup by name finds the first entry
-- with that name, and `has_name` says whether there is one.
pub at_name-first :
    (name : String) (entries : List SdoEntry)
    → let first = first_with same_name (λ e. e.name) name entries in
      let od = make_dictionary entries in
      (at_name name od ≡ first)
      × (at_name name (copy_dictionary od) ≡ first)
      × (has_name name od ≡ is_some first)
unfolding make_dictionary copy_dictionary
at_name-first name entries =
    let found = lookup_lem same_name (λ e. e.name) name entries same_name-Decides in
    (found, found, has_lem same_name (λ e. e.name) name entries same_name-Decides)
