-- ===== src/Wrapper.antt =====
-- A read value with its diagnostics: `ValueDiagnosticsWrapper` of
-- include/duatic_ethercat_interface/value_diagnostics_wrapper.hpp. The overloads for lvalues and for
-- rvalues give the same; the moved-from object is not looked at.
use duatic_ethercat_interfac.Prelude.{◌≡◌, refl, Bool, true, false, Option, none, some, is_some}

pub record ValueDiagnosticsWrapper (T D : Type 0) : Type 0 where
  pub diagnostics : D
  pub value : Option T

-- What `value()` does: it returns, or it throws `std::bad_optional_access`.
pub data Access (T : Type 0) : Type 0 where
  returned : T → Access T
  bad_optional_access : Access T

module _ {T : Type 0} where
  abbrev pub access : Option T → Access T
  access none = bad_optional_access
  access (some v) = returned v

  abbrev pub optional_or : T → Option T → T
  optional_or fallback none = fallback
  optional_or fallback (some v) = v

module _ {T D : Type 0} where
  -- The constructors.
  abbrev pub without_value : D → ValueDiagnosticsWrapper T D
  without_value diagnostics = record { diagnostics = diagnostics; value = none }

  abbrev pub with_value : D → T → ValueDiagnosticsWrapper T D
  with_value diagnostics value = record { diagnostics = diagnostics; value = some value }

  -- Also the conversion to `bool`.
  abbrev pub has_value : ValueDiagnosticsWrapper T D → Bool
  has_value w = is_some w.value

  abbrev pub get_value : ValueDiagnosticsWrapper T D → Access T
  get_value w = access w.value

  abbrev pub value_or : T → ValueDiagnosticsWrapper T D → T
  value_or fallback w = optional_or fallback w.value

  abbrev pub as_optional : ValueDiagnosticsWrapper T D → Option T
  as_optional w = w.value

module _ {T U D : Type 0} (func : T → U) where
  abbrev pub transform_optional : D → Option T → ValueDiagnosticsWrapper U D
  transform_optional diagnostics none = without_value diagnostics
  transform_optional diagnostics (some v) = with_value diagnostics (func v)

  abbrev pub transform : ValueDiagnosticsWrapper T D → ValueDiagnosticsWrapper U D
  transform w = transform_optional w.diagnostics w.value

-- `value()` returns what `value_or` gives for any fallback if there is a value, and throws otherwise.
abbrev Accesses : {T : Type 0} → Access T → Bool → T → Type 0
Accesses (returned v) b w = (b ≡ true) × (v ≡ w)
Accesses bad_optional_access b w = b ≡ false

module _ {T U D : Type 0} (func : T → U) where
  optional_lem :
      (fallback : T) (d : D) (o : Option T)
      → (value_or (func fallback) (transform_optional func d o) ≡ func (optional_or fallback o))
        × ((transform_optional func d o).diagnostics ≡ d)
        × (has_value (transform_optional func d o) ≡ is_some o)
        × Accesses (access o) (is_some o) (optional_or fallback o)
  optional_lem fallback d none = (refl, refl, refl, refl)
  optional_lem fallback d (some v) = (refl, refl, refl, (refl, refl))

  -- The accessors agree: `transform` applies the function to what `value_or` gives, and keeps the
  -- diagnostics and whether there is a value; `value()` returns what `value_or` gives if there is a
  -- value and throws otherwise.
  pub transform_lem :
      (fallback : T) (w : ValueDiagnosticsWrapper T D)
      → (value_or (func fallback) (transform func w) ≡ func (value_or fallback w))
        × ((transform func w).diagnostics ≡ w.diagnostics)
        × (has_value (transform func w) ≡ has_value w)
        × Accesses (get_value w) (has_value w) (value_or fallback w)
  transform_lem fallback w = optional_lem fallback w.diagnostics w.value
