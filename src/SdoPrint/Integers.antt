-- ===== src/SdoPrint/Integers.antt =====
-- That integers of 24, 40, 48 and 56 bits are decoded like native ones
-- (`sdo_read_odd_int` of include/duatic_ethercat_interface/internal/tools/sdo_print_helper.hpp).
use Prim.Native.Nat.{bit_or, bit_xor}
use native.Mathlib.Decide.{dec_lt}
use native.Mathlib.Numerals.{towards_suc}
use native.Mathlib.Nat.{pow-suc, one-le-pow, pow-le-pow_right}
use duatic_ethercat_interfac.Prelude.{
  ℕ, suc, ◌+◌, ◌-◌, ◌*◌, ◌%◌, ◌^◌, ◌≤◌, ◌<◌, ◌≡◌, refl, ap, ◌∙◌, sym, Bool, true, false, List, [],
  ◌∷◌, length, take, arith, leb, if◌then◌else◌,
}
use duatic_ethercat_interfac.Prelude.Int.{pos, negsuc}
use duatic_ethercat_interfac.Prelude.Bits.{bit_or-above, bit_xor-set, bit_xor-clear}
use duatic_ethercat_interfac.SdoPrint.{assemble, to_int64, odd_int, little_endian, native_int}

abbrev pub AllBytes : List ℕ → Type 0
AllBytes [] = Unit {0}
AllBytes (b ∷ bs) = (b < 256) × AllBytes bs

-- The weight of a byte.
place-suc : (i : ℕ) → 2 ^ (8 * suc i) ≡ 256 * 2 ^ (8 * i)
place-suc i = let e : 8 * suc i ≡ 8 * i + 8 = omega arith in rw e (simp towards_suc (omega arith))

place-le : (i : ℕ) → i ≤ 8 → 2 ^ (8 * i) ≤ 2 ^ 64
place-le i h = pow-le-pow_right {n = 2} (omega arith) {i = 8 * i} {j = 64} (omega arith)

little_endian-lt : (bs : List ℕ) → AllBytes bs → little_endian bs < 2 ^ (8 * length bs)
unfolding little_endian
little_endian-lt [] h = omega arith
little_endian-lt (b ∷ bs) h = omega (arith, place-suc (length bs), little_endian-lt bs h.1)

-- The shift does not wrap.
shifted : (b i : ℕ) → b < 256 → suc i ≤ 8 → b * 2 ^ (8 * i) % 2 ^ 64 ≡ b * 2 ^ (8 * i)
shifted b i h k =
    let p = 2 ^ (8 * i) in
    let b_le : b * p ≤ 255 * p = grind arith in
    let p_pos : 0 < p = one-le-pow (8 * i) 2 (omega arith) in
    omega (arith, b_le, p_pos, place-suc i, place-le (suc i) k)

assemble_lem :
    (bs : List ℕ) (v i : ℕ)
    → AllBytes bs
    → i + length bs ≤ 8
    → v < 2 ^ (8 * i)
    → assemble v i bs ≡ v + 2 ^ (8 * i) * little_endian bs
unfolding assemble little_endian
assemble_lem [] v i h k l = omega arith
assemble_lem (b ∷ bs) v i h k l =
    let p = 2 ^ (8 * i) in
    let low : bit_or v (b * p % 2 ^ 64) ≡ v + b * p =
      ap (bit_or v) (shifted b i h.0 (omega (arith, k))) ∙ bit_or-above (8 * i) b v l in
    let b_le : b * p ≤ 255 * p = grind arith in
    let fits : v + b * p < 2 ^ (8 * suc i) = omega (arith, place-suc i, b_le, l) in
    let rest = little_endian bs in
    let weight : 2 ^ (8 * suc i) * rest ≡ 256 * (p * rest) =
      omega (arith, ap (λ (t : ℕ). t * rest) (place-suc i)) in
    let split : p * (b + 256 * rest) ≡ b * p + 256 * (p * rest) = grind arith in
    ap (λ w. assemble w (suc i) bs) low
    ∙ assemble_lem bs (v + b * p) (suc i) h.1 (omega (arith, k)) fits
    ∙ omega (arith, weight, split)

-- What the loop reads.
take_all : {A : Type 0} (xs : List A) → take (length xs) xs ≡ xs
take_all [] = refl
take_all (x ∷ xs) = ap (λ l. x ∷ l) (take_all xs)

assembled :
    (bs : List ℕ)
    → AllBytes bs
    → length bs ≤ 8
    → assemble 0 0 (take (length bs) bs) ≡ little_endian bs
assembled bs h k =
    ap (assemble 0 0) (take_all bs)
    ∙ assemble_lem bs 0 0 h (omega (arith, k)) (omega arith)
    ∙ omega arith

sign_weight : (n : ℕ) → 0 < n → 2 ^ (n * 8) ≡ 2 * 2 ^ (n * 8 - 1)
sign_weight n h =
    let k : n * 8 ≡ suc (n * 8 - 1) = omega (arith, h) in
    ap (λ e. 2 ^ e) k ∙ omega (arith, pow-suc 2 (n * 8 - 1))

-- Sign extension of a number whose sign bit weighs `2 ^ k`.
sign_extended :
    (k v : ℕ)
    → k ≤ 63
    → v < 2 * 2 ^ k
    → to_int64 ((bit_xor v (2 ^ k) + 2 ^ 64 - 2 ^ k) % 2 ^ 64)
      ≡ (if leb (2 ^ k) v then negsuc (2 * 2 ^ k - v - 1) else pos v)
sign_extended k v h l =
    let s_le : 2 ^ k ≤ 2 ^ 63 = pow-le-pow_right {n = 2} (omega arith) {i = k} {j = 63} h in
    elim (dec_lt v (2 ^ k)) [
      | yes small ↦
          ap (λ w. to_int64 ((w + 2 ^ 64 - 2 ^ k) % 2 ^ 64)) (bit_xor-set k v small)
          ∙ ground (arith, s_le)
      | no big ↦
          let r = v - 2 ^ k in
          let e : v ≡ 2 ^ k + r = omega (arith, big) in
          ap (λ w. to_int64 ((w + 2 ^ 64 - 2 ^ k) % 2 ^ 64))
            (ap (λ w. bit_xor w (2 ^ k)) e ∙ bit_xor-clear k r (omega (arith, l)))
          ∙ ground (arith, s_le, big)
    ]

-- For every integer type of one to eight bytes, signed or not, the number that is assembled by
-- shifts and sign-extended by hand is the number that the bytes mean in two's complement.
pub odd_int-native_int :
    (is_signed : Bool) (bs : List ℕ)
    → AllBytes bs
    → 0 < length bs
    → length bs ≤ 8
    → odd_int (length bs) is_signed bs ≡ native_int (length bs) is_signed bs
unfolding odd_int native_int
odd_int-native_int false bs h k l = ap pos (assembled bs h l)
odd_int-native_int true bs h k l =
    let n = length bs in
    let sign_bit = 2 ^ (n * 8 - 1) in
    let v = little_endian bs in
    let bits : 8 * n ≡ n * 8 = omega arith in
    let below : v < 2 * sign_bit =
      omega (arith, little_endian-lt bs h, ap (λ (e : ℕ). 2 ^ e) bits, sign_weight n k) in
    ap (λ w. to_int64 ((bit_xor w sign_bit + 2 ^ 64 - sign_bit) % 2 ^ 64)) (assembled bs h l)
    ∙ sign_extended (n * 8 - 1) v (omega (arith, l)) below
    ∙ ap (λ (t : ℕ). if leb sign_bit v then negsuc (t - v - 1) else pos v) (sym (sign_weight n k))
