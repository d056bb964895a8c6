-- ===== src/SdoPrint/Printing.antt =====
-- What `sdo_print_helper` prints for an integer
-- (include/duatic_ethercat_interface/internal/tools/sdo_print_helper.hpp).
use duatic_ethercat_interfac.Prelude.{
  ℕ, ◌≤◌, ◌<◌, ◌≡◌, refl, sym, subst, ap, Bool, true, false, not, ◌&&◌, Option, none, some, List,
  [], ◌∷◌, replicate, length, ltb, leb, ◌==◌, if◌then◌else◌, arith, Bool-cases, inl, inr,
}
use duatic_ethercat_interfac.Types.{Text, literal, num, Result, ok, SdoReadResult}
use duatic_ethercat_interfac.Types.Names.{find_code}
use duatic_ethercat_interfac.Bus.{Bus, Env, ◌>>=◌}
use duatic_ethercat_interfac.Bus.Sdo.{read_sdo_untyped, sdo_read}
use duatic_ethercat_interfac.SdoPrint.{
  bool_type, int_type, real_type, Reading, read_as, read_as_string, read_odd_int, switch_table,
  Texts, odd_int, native_int, sdo_read_as, sdo_read_odd_int, read_case, caught, sdo_print_helper,
}
use duatic_ethercat_interfac.SdoPrint.Integers.{AllBytes, odd_int-native_int}

-- The integer types of CANopen: the code of each, its bytes, and whether it is signed.
abbrev pub integer_types : List (ℕ × (ℕ × Bool))
integer_types =
    (0x02, (1, true))
    ∷ (0x03, (2, true))
    ∷ (0x10, (3, true))
    ∷ (0x04, (4, true))
    ∷ (0x12, (5, true))
    ∷ (0x13, (6, true))
    ∷ (0x14, (7, true))
    ∷ (0x15, (8, true))
    ∷ (0x05, (1, false))
    ∷ (0x06, (2, false))
    ∷ (0x16, (3, false))
    ∷ (0x07, (4, false))
    ∷ (0x18, (5, false))
    ∷ (0x19, (6, false))
    ∷ (0x1a, (7, false))
    ∷ (0x1b, (8, false))
    ∷ []

abbrev same_sign : Bool → Bool → Bool
same_sign true s = s
same_sign false s = not s

same_sign_lem : (s t : Bool) → same_sign s t ≡ true → s ≡ t
same_sign_lem true t h = sym h
same_sign_lem false t h = ground (arith, h)

-- The reading is one of an integer of this type.
abbrev is_reading_of : Option Reading → ℕ → Bool → Bool
is_reading_of (some (read_as (int_type m t))) n s = m == n && same_sign t s
is_reading_of (some (read_odd_int m t)) n s = m == n && same_sign t s && ltb 0 m && leb m 8
is_reading_of _ n s = false

covered : ℕ → ℕ → Bool → Bool
unfolding find_code
covered c n s = not (leb 0x30 c && leb c 0x37) && is_reading_of (find_code c switch_table) n s

all_types : (ℕ → ℕ → Bool → Bool) → List (ℕ × (ℕ × Bool)) → Bool
all_types P [] = true
all_types P ((c, (n, s)) ∷ types) = P c n s && all_types P types

both : (p q : Bool) → (not p && q) ≡ true → (p ≡ false) × (q ≡ true)
both true q h = absurd (cc h)
both false q h = (refl, h)

types_covered : all_types covered integer_types ≡ true
unfolding all_types covered
types_covered = refl

all_types_lem :
    (P : ℕ → ℕ → Bool → Bool) (types : List (ℕ × (ℕ × Bool))) (code n : ℕ) (s : Bool)
    → all_types P types ≡ true
    → find_code code types ≡ some (n, s)
    → P code n s ≡ true
unfolding all_types find_code
all_types_lem P [] code n s h f = absurd (cc f)
all_types_lem P ((c, (m, t)) ∷ types) code n s h f = ground (arith, all_types_lem P types code n s)

module _ {W F : Type 0} (env : Env W F) (texts : Texts) where
  caught_ok :
      (p : Result Text × Bus W F) (text : Text) (b' : Bus W F)
      → p ≡ (ok text, b')
      → caught env texts p ≡ (ok text, b')
  caught_ok p text b' h = ap (caught env texts) h

  read_as_int :
      (n id index sub_index : ℕ) (is_signed : Bool) (result : SdoReadResult) (bytes : List ℕ)
      (b b' : Bus W F)
      → read_sdo_untyped env (replicate n 0) id index sub_index true b ≡ (ok (result, bytes), b')
      → sdo_read_as env texts (int_type n is_signed) id index sub_index b ≡ (
        ok (if result.success then num (native_int n is_signed bytes) ∷ [] else literal "error"),
        b',
      )
  unfolding sdo_read_as sdo_read ◌>>=◌
  read_as_int n id index sub_index is_signed result bytes b b' h =
      elim (Bool-cases result.success) [ inl s ↦ rw (h, s) refl | inr s ↦ rw (h, s) refl ]

  read_odd :
      (n id index sub_index : ℕ) (is_signed : Bool) (result : SdoReadResult) (bytes : List ℕ)
      (b b' : Bus W F)
      → read_sdo_untyped env (replicate n 0) id index sub_index true b ≡ (ok (result, bytes), b')
      → AllBytes bytes
      → n ≡ length bytes
      → 0 < n
      → n ≤ 8
      → sdo_read_odd_int env texts id index sub_index n is_signed b ≡ (
        ok (if result.success then num (native_int n is_signed bytes) ∷ [] else literal "error"),
        b',
      )
  unfolding sdo_read_odd_int ◌>>=◌
  read_odd n id index sub_index is_signed result bytes b b' h all e low high =
      let same : odd_int n is_signed bytes ≡ native_int n is_signed bytes =
        subst (λ m. odd_int m is_signed bytes ≡ native_int m is_signed bytes) (sym e)
          (odd_int-native_int is_signed bytes all (omega (arith, low, e))
            (omega (arith, high, e))) in
      rw (h, same) refl

  -- The case of the switch, for a reading of an integer of this type.
  read_int :
      (reading : Option Reading) (n id index sub_index : ℕ) (is_signed : Bool)
      (result : SdoReadResult) (bytes : List ℕ) (b b' : Bus W F)
      → is_reading_of reading n is_signed ≡ true
      → read_sdo_untyped env (replicate n 0) id index sub_index true b ≡ (ok (result, bytes), b')
      → AllBytes bytes
      → n ≡ length bytes
      → read_case env texts id index sub_index reading b ≡ (
        ok (if result.success then num (native_int n is_signed bytes) ∷ [] else literal "error"),
        b',
      )
  unfolding read_case
  read_int none n id index sub_index is_signed result bytes b b' r h all e = absurd (cc r)
  read_int (some (read_as bool_type)) n id index sub_index is_signed result bytes b b' r h all e =
      absurd (cc r)
  read_int (some (read_as (real_type m))) n id index sub_index is_signed result bytes b b' r h all
        e =
      absurd (cc r)
  read_int (some read_as_string) n id index sub_index is_signed result bytes b b' r h all e =
      absurd (cc r)
  read_int (some (read_as (int_type m t))) n id index sub_index is_signed result bytes b b' r h all
        e =
      let same_size : m ≡ n = ground (arith, r) in
      let same : t ≡ is_signed = same_sign_lem t is_signed (ground (arith, r)) in
      rw (same_size, same) (read_as_int n id index sub_index is_signed result bytes b b' h)
  read_int (some (read_odd_int m t)) n id index sub_index is_signed result bytes b b' r h all e =
      let same_size : m ≡ n = ground (arith, r) in
      let same : t ≡ is_signed = same_sign_lem t is_signed (ground (arith, r)) in
      rw (same_size, same)
        (read_odd n id index sub_index is_signed result bytes b b' h all e (ground (arith, r))
          (ground (arith, r)))

  -- For every integer type of CANopen, of 8 to 64 bits and signed or not: if the bytes of its size can
  -- be read, what sdo_print_helper gives is the number that they mean in two's complement, least
  -- significant byte first, or the text error if the device did not answer with success. The bus is
  -- left as by the read.
  pub sdo_print_helper-integers :
      (code n id index sub_index : ℕ) (is_signed : Bool) (result : SdoReadResult) (bytes : List ℕ)
      (b b' : Bus W F)
      → find_code code integer_types ≡ some (n, is_signed)
      → read_sdo_untyped env (replicate n 0) id index sub_index true b ≡ (ok (result, bytes), b')
      → AllBytes bytes
      → n ≡ length bytes
      → sdo_print_helper env texts id index sub_index code b ≡ (
        ok (if result.success then num (native_int n is_signed bytes) ∷ [] else literal "error"),
        b',
      )
  unfolding sdo_print_helper covered
  sdo_print_helper-integers code n id index sub_index is_signed result bytes b b' f h all e =
      let c : covered code n is_signed ≡ true =
        all_types_lem covered integer_types code n is_signed types_covered f in
      let (no_bits, reads) =
        both (leb 0x30 code && leb code 0x37)
          (is_reading_of (find_code code switch_table) n is_signed) c in
      rw no_bits (
        caught_ok _ _ b' (
          read_int (find_code code switch_table) n id index sub_index is_signed result bytes b b'
            reads h all e))
