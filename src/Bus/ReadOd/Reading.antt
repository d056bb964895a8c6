-- ===== src/Bus/ReadOd/Reading.antt =====
-- What is read off a device, `read_od_from_device` of src/internal/soem/soem_backend.cpp.
use duatic_ethercat_interfac.Prelude.{
  ℕ, ◌<◌, ◌≤◌, ◌+◌, ◌%◌, ◌^◌, ◌≡◌, ◌≢◌, arith, zero, suc, map, ap, refl, sym, subst, Bool, true,
  false, Option, none, some, List, [], ◌∷◌, range_from, ◌==◌, ◌⊎◌, if◌then◌else◌, Bool-cases,
  Option-cases, inl, inr,
}
use duatic_ethercat_interfac.Types.{Result, ok, err, Returned}
use duatic_ethercat_interfac.Soem.{OdList, OeList, Context}
use duatic_ethercat_interfac.ObjectDictionary.{SdoEntry, SdoSubEntry}
use duatic_ethercat_interfac.Bus.{Bus, Env, pure, continue, ◌>>=◌}
use duatic_ethercat_interfac.Bus.ReadOd.{od_sub_entry, item_index, expand_object, expand_objects}

found-none :
    (c : Bool) (k : ℕ) (r : Option ℕ) → (if c then some k else r) ≡ none → (c ≡ false) × (r ≡ none)
found-none true k r h = absurd (cc h)
found-none false k r h = (refl, h)

found-some :
    (c : Bool) (k j : ℕ) (r : Option ℕ)
    → (if c then some k else r) ≡ some j
    → ((c ≡ true) × (k ≡ j)) ⊎ (r ≡ some j)
found-some true k j r h = inl (refl, cc h)
found-some false k j r h = inr h

-- Where no position is found, none of the positions has the index.
item_index-none :
    (od_list : OdList) (index k n : ℕ)
    → item_index od_list index (range_from k n) ≡ none
    → (i : ℕ) → k ≤ i
    → i < k + n
    → od_list.index i ≢ index
unfolding item_index
item_index-none od_list index k zero h i l u = absurd (omega (arith, l, u))
item_index-none od_list index k (suc n) h i l u =
    let (c, r) =
      found-none (od_list.index k == index) k (item_index od_list index (range_from (suc k) n)) h in
    elim (Bool-cases (i == k)) [
      | inl here ↦ λ at. ground (arith, here, c, at)
      | inr there ↦
          item_index-none od_list index (suc k) n r i (ground (arith, there, l)) (omega (arith, u))
    ]

-- A position that is found has the index.
item_index-some :
    (od_list : OdList) (index k n j : ℕ)
    → item_index od_list index (range_from k n) ≡ some j
    → (j < k + n) × (od_list.index j ≡ index)
unfolding item_index
item_index-some od_list index k zero j h = absurd (cc h)
item_index-some od_list index k (suc n) j h =
    elim (found-some (od_list.index k == index) k j
      (item_index od_list index (range_from (suc k) n)) h) [
        | inl (c, e) ↦ (omega (arith, e), ground (arith, c, e))
        | inr r ↦
            let (u, at) = item_index-some od_list index (suc k) n j r in (omega (arith, u), at)
      ]

module _ {W F : Type 0} (env : Env W F) where
  -- The sub entries that SOEM answers with.
  abbrev answered : Option OeList → List SdoSubEntry
  answered none = []
  answered (some oe_list) = map (od_sub_entry oe_list) (range_from 0 oe_list.entries)

  -- The sub entries of an object that is at this position of the list, or at none.
  abbrev pub SubEntries : OdList → ℕ → Option ℕ → List SdoSubEntry → Type 0
  SubEntries od_list index none subs =
      ((i : ℕ) → i < od_list.entries → od_list.index i ≢ index) × (subs ≡ [])
  SubEntries od_list index (some i) subs =
      (i < od_list.entries)
      × (od_list.index i ≡ index)
      × ((c : Context W) × (subs ≡ answered (env.soem.ecx_read_oe (i % 2 ^ 16) od_list c).0))

  -- An expanded object against the object, by whether the object is a variable: a variable is left as
  -- it is, and any other object gets the sub entries that SOEM reads of it, and is the same else.
  abbrev pub Expands : OdList → Bool → SdoEntry → SdoEntry → Type 0
  Expands od_list true obj expanded = expanded ≡ obj
  Expands od_list false obj expanded =
      (record expanded { sub_entries = obj.sub_entries } ≡ obj)
      × ((item : Option ℕ) × SubEntries od_list obj.index item expanded.sub_entries)

  -- The expanded objects, one for each.
  abbrev pub AllExpand : OdList → List SdoEntry → List SdoEntry → Type 0
  AllExpand od_list [] [] = Unit {0}
  AllExpand od_list [] (x ∷ xs) = ⊥
  AllExpand od_list (o ∷ os) [] = ⊥
  AllExpand od_list (o ∷ os) (x ∷ xs) =
      Expands od_list (o.obj_type == 7) o x × AllExpand od_list os xs

  expand_other :
      (od_list : OdList) (obj : SdoEntry) (item : Option ℕ) (b : Bus W F)
      → (obj.obj_type == 7) ≡ false
      → item_index od_list obj.index (range_from 0 od_list.entries) ≡ item
      → Returned (Expands od_list false obj) (expand_object env od_list obj b).0
  unfolding expand_object pure ◌>>=◌
  expand_other od_list obj none b other e =
      rw (other, e)
        (
          refl,
          (
            none,
            (
              λ i l.
                  item_index-none od_list obj.index 0 od_list.entries e i (omega arith)
                    (omega (arith, l)),
              refl,
            ),
          ),
        )
  expand_other od_list obj (some i) b other e =
      let (l, at) = item_index-some od_list obj.index 0 od_list.entries i e in
      elim (Option-cases (env.soem.ecx_read_oe (i % 2 ^ 16) od_list b.context).0) [
        | inl h ↦
            rw (other, e, h)
              (refl, (some i, (omega (arith, l), at, (b.context, sym (ap answered h)))))
        | inr (oe, h) ↦
            rw (other, e, h)
              (refl, (some i, (omega (arith, l), at, (b.context, sym (ap answered h)))))
      ]

  expand_var :
      (od_list : OdList) (obj : SdoEntry) (b : Bus W F)
      → (obj.obj_type == 7) ≡ true
      → Returned (Expands od_list true obj) (expand_object env od_list obj b).0
  unfolding expand_object pure
  expand_var od_list obj b var = rw var refl

  expand_object-Expands :
      (od_list : OdList) (obj : SdoEntry) (b : Bus W F)
      → Returned (Expands od_list (obj.obj_type == 7) obj) (expand_object env od_list obj b).0
  expand_object-Expands od_list obj b = elim (Bool-cases (obj.obj_type == 7)) [
    | inl var ↦
        subst (λ c. Returned (Expands od_list c obj) (expand_object env od_list obj b).0) (sym var)
          (expand_var od_list obj b var)
    | inr other ↦
        subst (λ c. Returned (Expands od_list c obj) (expand_object env od_list obj b).0)
          (sym other) (expand_other od_list obj _ b other refl)
  ]

  cons_all :
      (od_list : OdList) (o x : SdoEntry) (os : List SdoEntry) (r : Result (List SdoEntry))
      (b : Bus W F)
      → Expands od_list (o.obj_type == 7) o x
      → Returned (AllExpand od_list os) r
      → Returned (AllExpand od_list (o ∷ os)) (continue r (λ xs. pure (x ∷ xs)) b).0
  unfolding pure
  cons_all od_list o x os (ok xs) b h hs = (h, hs)
  cons_all od_list o x os (err e) b h hs = hs

  then_all :
      (o : SdoEntry) (os : List SdoEntry) (od_list : OdList) (r : Result SdoEntry) (b : Bus W F)
      → Returned (Expands od_list (o.obj_type == 7) o) r
      → ((b' : Bus W F) → Returned (AllExpand od_list os) (expand_objects env od_list os b').0)
      → Returned
          (AllExpand od_list (o ∷ os))
          (continue r (λ x. expand_objects env od_list os >>= λ xs. pure (x ∷ xs)) b).0
  unfolding ◌>>=◌
  then_all o os od_list (ok x) b h hs =
      let (r, b') = expand_objects env od_list os b in cons_all od_list o x os r b' h (hs b)
  then_all o os od_list (err e) b h hs = h

  -- The full read of an object dictionary expands its objects one by one: if it returns then with as
  -- many, in the same order. Variables are as in the plain read. Any other object differs from the plain
  -- read in its sub entries at most: they are those that SOEM reads at a position of its list that has
  -- the index of the object, or none if that read fails or there is no such position.
  pub expand_objects-AllExpand :
      (od_list : OdList) (objs : List SdoEntry) (b : Bus W F)
      → Returned (AllExpand od_list objs) (expand_objects env od_list objs b).0
  unfolding expand_objects pure ◌>>=◌
  expand_objects-AllExpand od_list [] b = tt
  expand_objects-AllExpand od_list (o ∷ os) b =
      let (r, b') = expand_object env od_list o b in
      then_all o os od_list r b' (expand_object-Expands od_list o b)
        λ b''. expand_objects-AllExpand od_list os b''
