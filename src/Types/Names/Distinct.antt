-- ===== src/Types/Names/Distinct.antt =====
-- That the text of a code tells the code (include/duatic_ethercat_interface/types.hpp).
use Prim.Native.String.{String}
use text.Mathlib.Text.{◌==◌ as str_eq}
use text.Mathlib.TextEquality.{eq_iff}
use duatic_ethercat_interfac.Prelude.{
  ℕ, ◌≡◌, refl, sym, ◌∙◌, Bool, true, ◌&&◌, ◌||◌, not, Option, none, some, List, [], ◌∷◌, ◌==◌,
  arith,
}
use duatic_ethercat_interfac.Types.Names.{
  find_code, name_or_code, object_code_names, object_code_to_string, data_type_names,
  data_type_to_string,
}

-- No code but this one has this name in the table.
only_named : ℕ → String → List (ℕ × String) → Bool
only_named code name [] = true
only_named code name ((c, n) ∷ cases) =
    (not (str_eq n name) || c == code) && only_named code name cases

-- Each name stands for one code.
all_distinct : List (ℕ × String) → List (ℕ × String) → Bool
unfolding only_named
all_distinct [] table = true
all_distinct ((c, n) ∷ cases) table = only_named c n table && all_distinct cases table

only_named_lem :
    (code : ℕ) (name : String) (cases : List (ℕ × String)) (c : ℕ)
    → only_named code name cases ≡ true
    → find_code c cases ≡ some name
    → c ≡ code
unfolding only_named find_code
only_named_lem code name [] c h f = absurd (cc f)
only_named_lem code name ((d, n) ∷ cases) c h f =
    ground (arith, eq_iff n name, only_named_lem code name cases c)

all_distinct_lem :
    (cases table : List (ℕ × String)) (a b : ℕ) (name : String)
    → all_distinct cases table ≡ true
    → find_code a cases ≡ some name
    → find_code b table ≡ some name
    → b ≡ a
unfolding all_distinct find_code
all_distinct_lem [] table a b name h f g = absurd (cc f)
all_distinct_lem ((d, n) ∷ cases) table a b name h f g =
    ground (arith, eq_iff n name, only_named_lem d n table b, all_distinct_lem cases table a b name)

module _ (table : List (ℕ × String)) (distinct : all_distinct table table ≡ true) where
  name_or_code-distinct :
      (a b : ℕ) (o p : Option String)
      → find_code a table ≡ o
      → find_code b table ≡ p
      → name_or_code a o ≡ name_or_code b p
      → b ≡ a
  name_or_code-distinct a b none none f g h = ground (arith, h)
  name_or_code-distinct a b none (some q) f g h = absurd (cc h)
  name_or_code-distinct a b (some n) none f g h = absurd (cc h)
  name_or_code-distinct a b (some n) (some q) f g h =
      all_distinct_lem table table a b n distinct f (g ∙ cc (sym h))

data_types_distinct : all_distinct data_type_names data_type_names ≡ true
unfolding all_distinct
data_types_distinct = refl

object_codes_distinct : all_distinct object_code_names object_code_names ≡ true
unfolding all_distinct
object_codes_distinct = refl

-- Two codes of data types, or of object types, that are printed alike are equal, codes that the
-- enumeration does not name included.
pub to_string-distinct :
    (a b : ℕ)
    → (data_type_to_string a ≡ data_type_to_string b → b ≡ a)
      × (object_code_to_string a ≡ object_code_to_string b → b ≡ a)
unfolding data_type_to_string object_code_to_string
to_string-distinct a b = (
  name_or_code-distinct data_type_names data_types_distinct a b _ _ refl refl,
  name_or_code-distinct object_code_names object_codes_distinct a b _ _ refl refl,
)
