-- ===== src/Bus/Diagnosing/Publishing.antt =====
-- The loop of `update_diagnostics_fast` (src/internal/soem/soem_backend.cpp) over the slaves.
use mathlib.Core.Option
use duatic_ethercat_interfac.Prelude.{
  ℕ, zero, suc, ◌+◌, ◌≤◌, ◌<◌, ◌≡◌, refl, ◌∙◌, subst, List, [], ◌∷◌, length, get_elem?,
  length-modify_at, get_elem?-modify_at_same, get_elem?-modify_at_other, range_from, modify_at,
  arith, ltb, ltb→lt, Bool-cases, inl, inr, if◌then◌else◌,
}
use duatic_ethercat_interfac.Diagnostics.{EscStatus}
use duatic_ethercat_interfac.Bus.Diagnosing.{for_slaves}

for_slaves-before :
    (f : ℕ → EscStatus → EscStatus) (count first i : ℕ) (slaves : List EscStatus)
    → i < first
    → get_elem? (for_slaves f (range_from first count) slaves) i ≡ get_elem? slaves i
unfolding for_slaves
for_slaves-before f zero first i slaves h = refl
for_slaves-before f (suc count) first i slaves h =
    for_slaves-before f count (suc first) i (modify_at first (f first) slaves) (omega arith)
    ∙ get_elem?-modify_at_other first i (f first) slaves (omega arith)

for_slaves_from :
    (f : ℕ → EscStatus → EscStatus) (count first i : ℕ) (slaves : List EscStatus)
    → first ≤ i
    → get_elem? (for_slaves f (range_from first count) slaves) i ≡ (
        if ltb i (first + count) then Option.map (f i) (get_elem? slaves i) else get_elem? slaves i)
unfolding for_slaves
for_slaves_from f zero first i slaves h = ground arith
for_slaves_from f (suc count) first i slaves h =
    let next = modify_at first (f first) slaves in
    elim (Bool-cases (ltb first i)) [
      | inl past ↦
          let lt = ltb→lt first i past in
          for_slaves_from f count (suc first) i next (omega arith)
          ∙ rw (get_elem?-modify_at_other first i (f first) slaves (omega arith)) (ground arith)
      | inr here ↦
          let e : first ≡ i = ground (arith, here) in
          subst
            (λ j. get_elem? (for_slaves f (range_from (suc first) count) next) j ≡ (
              if ltb j (first + suc count)
              then Option.map (f j) (get_elem? slaves j)
              else get_elem? slaves j))
            e
            (for_slaves-before f count (suc first) first next (omega arith)
              ∙ get_elem?-modify_at_same first (f first) slaves
              ∙ ground arith)
    ]

pub length-for_slaves :
    (f : ℕ → EscStatus → EscStatus) (is : List ℕ) (slaves : List EscStatus)
    → length (for_slaves f is slaves) ≡ length slaves
unfolding for_slaves
length-for_slaves f [] slaves = refl
length-for_slaves f (i ∷ is) slaves =
    length-for_slaves f is (modify_at i (f i) slaves) ∙ length-modify_at i (f i) slaves

-- The loop applies the update to each of the first slaves exactly once, and to no other.
pub for_slaves_lem :
    (f : ℕ → EscStatus → EscStatus) (count i : ℕ) (slaves : List EscStatus)
    → get_elem? (for_slaves f (range_from 0 count) slaves) i
      ≡ (if ltb i count then Option.map (f i) (get_elem? slaves i) else get_elem? slaves i)
for_slaves_lem f count i slaves = for_slaves_from f count 0 i slaves (omega arith) ∙ ground arith
