-- ===== src/Prelude/Bits.antt =====
-- `|` and `^` as arithmetic where the bits do not overlap.
use Prim.Native.Nat.{
  ℕ, zero, suc, ◌+◌, ◌*◌, ◌/◌, ◌%◌, ◌^◌, ◌≤◌, ◌<◌, max, differ, digits, bitwise, bit_or, bit_xor,
  bit_or-bitwise, bit_xor-bitwise,
}
use mathlib.Core.Path.{◌≡◌, refl, ap, ◌∙◌}
use native.Mathlib.Nat.{pow-suc, le_refl}
use native.Mathlib.Omega.{arith}

-- The recursion on binary digits that `|` and `^` stand for needs no more fuel than its first number.
module _ (f : ℕ → ℕ → ℕ) where
  enough_fuel : (n m a b : ℕ) → a ≤ n → a ≤ m → digits (λ y. y) f n a b ≡ digits (λ y. y) f m a b
  enough_fuel zero zero a b p q = refl
  enough_fuel zero (suc m) zero b p q = refl
  enough_fuel zero (suc m) (suc a) b p q = absurd (omega arith)
  enough_fuel (suc n) zero zero b p q = refl
  enough_fuel (suc n) zero (suc a) b p q = absurd (omega arith)
  enough_fuel (suc n) (suc m) zero b p q = refl
  enough_fuel (suc n) (suc m) (suc a) b p q =
      rw (enough_fuel n m (suc a / 2) (b / 2) (omega arith) (omega arith))

  lowest_digit :
      (a b : ℕ)
      → bitwise (λ y. y) f (suc a) b
        ≡ bitwise (λ y. y) f (suc a / 2) (b / 2) * 2 + f (suc a % 2) (b % 2)
  lowest_digit a b =
      omega (arith, enough_fuel a (suc a / 2) (suc a / 2) (b / 2) (omega arith) (le_refl _))

zero-bit_or : (b : ℕ) → bit_or 0 b ≡ b
zero-bit_or b = bit_or-bitwise 0 b

zero-bit_xor : (b : ℕ) → bit_xor 0 b ≡ b
zero-bit_xor b = bit_xor-bitwise 0 b

bit_or_digit : (a b : ℕ) → bit_or a b ≡ bit_or (a / 2) (b / 2) * 2 + max (a % 2) (b % 2)
bit_or_digit zero b = omega (arith, zero-bit_or b, zero-bit_or (b / 2))
bit_or_digit (suc a) b = simp bit_or-bitwise (lowest_digit max a b)

bit_xor_digit : (a b : ℕ) → bit_xor a b ≡ bit_xor (a / 2) (b / 2) * 2 + differ (a % 2) (b % 2)
bit_xor_digit zero b = omega (arith, zero-bit_xor b, zero-bit_xor (b / 2))
bit_xor_digit (suc a) b = simp bit_xor-bitwise (lowest_digit differ a b)

double_place : (q k : ℕ) → q * 2 ^ suc k ≡ 2 * (q * 2 ^ k)
double_place q k = omega (arith, ap (λ (t : ℕ). q * t) (pow-suc 2 k))

-- `r | (q << k)` is a sum when `r` fits in `k` bits.
pub bit_or-above : (k q r : ℕ) → r < 2 ^ k → bit_or r (q * 2 ^ k) ≡ r + q * 2 ^ k
bit_or-above zero q r fits = ground (arith, zero-bit_or q)
bit_or-above (suc k) q r fits =
    ground (
      arith,
      bit_or_digit r (q * 2 ^ suc k),
      double_place q k,
      pow-suc 2 k,
      bit_or-above k q (r / 2),
    )

differ-zero : (x : ℕ) → differ x 0 ≡ x
differ-zero zero = refl
differ-zero (suc x) = refl

bit_xor-even : (a b c : ℕ) → b ≡ 2 * c → bit_xor a b ≡ bit_xor (a / 2) c * 2 + a % 2
bit_xor-even a b c e =
    let half : b / 2 ≡ c = omega (arith, e) in
    let even : b % 2 ≡ 0 = omega (arith, e) in
    bit_xor_digit a b
    ∙ ap (λ h. bit_xor (a / 2) h * 2 + differ (a % 2) (b % 2)) half
    ∙ ap (λ d. bit_xor (a / 2) c * 2 + differ (a % 2) d) even
    ∙ ap (λ d. bit_xor (a / 2) c * 2 + d) (differ-zero (a % 2))

-- `^` with the bit above sets it where it is clear, and clears it where it is set.
pub bit_xor-set : (k r : ℕ) → r < 2 ^ k → bit_xor r (2 ^ k) ≡ r + 2 ^ k
bit_xor-set zero r fits = ground (arith, zero-bit_xor 1)
bit_xor-set (suc k) r fits =
    let twice : 2 ^ suc k ≡ 2 * 2 ^ k = omega (arith, pow-suc 2 k) in
    omega
      (arith, bit_xor-even r (2 ^ suc k) (2 ^ k) twice, twice, bit_xor-set k (r / 2) (omega arith))

bit_xor-one : bit_xor 1 1 ≡ 0
bit_xor-one = refl

pub bit_xor-clear : (k r : ℕ) → r < 2 ^ k → bit_xor (2 ^ k + r) (2 ^ k) ≡ r
bit_xor-clear zero r fits = ground (arith, bit_xor-one)
bit_xor-clear (suc k) r fits =
    let twice : 2 ^ suc k ≡ 2 * 2 ^ k = omega (arith, pow-suc 2 k) in
    let half : (2 ^ suc k + r) / 2 ≡ 2 ^ k + r / 2 = omega (arith, twice) in
    bit_xor-even (2 ^ suc k + r) (2 ^ suc k) (2 ^ k) twice
    ∙ ap (λ h. bit_xor h (2 ^ k) * 2 + (2 ^ suc k + r) % 2) half
    ∙ omega (arith, twice, bit_xor-clear k (r / 2) (omega arith))
