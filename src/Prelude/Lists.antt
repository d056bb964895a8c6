-- ===== src/Prelude/Lists.antt =====
-- Lists measured and indexed by native numbers, under the library's names.
use mathlib.Core.Option
use Prim.Native.Nat.{ℕ, zero, suc, ◌+◌, ◌-◌, ◌≤◌, min}
use mathlib.Core.Path.{◌≡◌, refl, ap}
use mathlib.Core.List.{List, [], ◌∷◌, ◌++◌}
use mathlib.Core.Option.{Option, none, some}
use mathlib.Core.Logic.{◌≢◌, ◌⊎◌, inl, inr}
use native.Mathlib.Omega.{arith}

module _ {ℓ} {A : Type ℓ} where
  abbrev pub length : List A → ℕ
  length [] = 0
  length (x ∷ xs) = suc (length xs)

  abbrev pub get_elem? : List A → ℕ → Option A
  get_elem? [] i = none
  get_elem? (x ∷ xs) zero = some x
  get_elem? (x ∷ xs) (suc i) = get_elem? xs i

  abbrev pub take : ℕ → List A → List A
  take zero xs = []
  take (suc n) [] = []
  take (suc n) (x ∷ xs) = x ∷ take n xs

  abbrev pub drop : ℕ → List A → List A
  drop zero xs = xs
  drop (suc n) [] = []
  drop (suc n) (x ∷ xs) = drop n xs

  abbrev pub replicate : ℕ → A → List A
  replicate zero a = []
  replicate (suc n) a = a ∷ replicate n a

  -- `std::vector::resize`: cut, or filled up with `a`.
  abbrev pub resize : ℕ → A → List A → List A
  resize zero a xs = []
  resize (suc n) a [] = a ∷ resize n a []
  resize (suc n) a (x ∷ xs) = x ∷ resize n a xs

  -- A write out of bounds changes nothing.
  abbrev pub set : List A → ℕ → A → List A
  set [] i v = []
  set (x ∷ xs) zero v = v ∷ xs
  set (x ∷ xs) (suc i) v = x ∷ set xs i v

module _ {ℓ} {A : Type ℓ} where
  pub length-resize : (n : ℕ) (a : A) (xs : List A) → length (resize n a xs) ≡ n
  length-resize zero a xs = refl
  length-resize (suc n) a [] = ap suc (length-resize n a [])
  length-resize (suc n) a (x ∷ xs) = ap suc (length-resize n a xs)

  pub length-append : (xs ys : List A) → length (xs ++ ys) ≡ length xs + length ys
  length-append [] ys = omega arith
  length-append (x ∷ xs) ys = omega (arith, length-append xs ys)

  pub length-drop : (n : ℕ) (xs : List A) → length (drop n xs) ≡ length xs - n
  length-drop zero xs = omega arith
  length-drop (suc n) [] = omega arith
  length-drop (suc n) (x ∷ xs) = omega (arith, length-drop n xs)

  pub length-replicate : (n : ℕ) (a : A) → length (replicate n a) ≡ n
  length-replicate zero a = refl
  length-replicate (suc n) a = ap suc (length-replicate n a)

  pub length-set : (xs : List A) (i : ℕ) (v : A) → length (set xs i v) ≡ length xs
  length-set [] i v = refl
  length-set (x ∷ xs) zero v = refl
  length-set (x ∷ xs) (suc i) v = ap suc (length-set xs i v)

  pub length-take : (n : ℕ) (xs : List A) → length (take n xs) ≡ min n (length xs)
  length-take zero xs = omega arith
  length-take (suc n) [] = omega arith
  length-take (suc n) (x ∷ xs) = omega (arith, length-take n xs)

module _ {ℓ} {A : Type ℓ} where
  -- `v[i] = f(v[i])`.
  abbrev pub modify_at : ℕ → (A → A) → List A → List A
  modify_at i f [] = []
  modify_at zero f (x ∷ xs) = f x ∷ xs
  modify_at (suc i) f (x ∷ xs) = x ∷ modify_at i f xs

  -- `memcpy(&memory[offset], bytes)`; a write past the end is lost.
  abbrev pub write_at : ℕ → List A → List A → List A
  write_at offset bytes [] = []
  write_at zero [] (x ∷ xs) = x ∷ xs
  write_at zero (b ∷ bs) (x ∷ xs) = b ∷ write_at zero bs xs
  write_at (suc offset) bytes (x ∷ xs) = x ∷ write_at offset bytes xs

  -- The `size` elements from `offset` on.
  abbrev pub slice : ℕ → ℕ → List A → List A
  slice offset size xs = take size (drop offset xs)

  pub length-modify_at : (i : ℕ) (f : A → A) (xs : List A) → length (modify_at i f xs) ≡ length xs
  length-modify_at i f [] = refl
  length-modify_at zero f (x ∷ xs) = refl
  length-modify_at (suc i) f (x ∷ xs) = ap suc (length-modify_at i f xs)

  pub length-write_at :
      (offset : ℕ) (bytes xs : List A) → length (write_at offset bytes xs) ≡ length xs
  length-write_at offset bytes [] = refl
  length-write_at zero [] (x ∷ xs) = refl
  length-write_at zero (b ∷ bs) (x ∷ xs) = ap suc (length-write_at zero bs xs)
  length-write_at (suc offset) bytes (x ∷ xs) = ap suc (length-write_at offset bytes xs)

  -- What has been written inside the memory is read back.
  pub slice-write_at :
      (offset : ℕ) (bytes xs : List A)
      → offset + length bytes ≤ length xs
      → slice offset (length bytes) (write_at offset bytes xs) ≡ bytes
  slice-write_at zero [] [] h = refl
  slice-write_at zero [] (x ∷ xs) h = refl
  slice-write_at zero (b ∷ bs) [] h = absurd (omega arith)
  slice-write_at zero (b ∷ bs) (x ∷ xs) h =
      ap (λ l. b ∷ l) (slice-write_at zero bs xs (omega arith))
  slice-write_at (suc offset) bytes [] h = absurd (omega arith)
  slice-write_at (suc offset) bytes (x ∷ xs) h = slice-write_at offset bytes xs (omega arith)

module _ {ℓ} {A : Type ℓ} where
  slice-write_at-zero :
      (from size : ℕ) (bytes xs : List A)
      → length bytes ≤ from
      → slice from size (write_at zero bytes xs) ≡ slice from size xs
  slice-write_at-zero from size bytes [] h = refl
  slice-write_at-zero from size [] (x ∷ xs) h = refl
  slice-write_at-zero zero size (b ∷ bs) (x ∷ xs) h = absurd (omega arith)
  slice-write_at-zero (suc from) size (b ∷ bs) (x ∷ xs) h =
      slice-write_at-zero from size bs xs (omega arith)

  take-write_at :
      (size offset : ℕ) (bytes xs : List A)
      → size ≤ offset
      → take size (write_at offset bytes xs) ≡ take size xs
  take-write_at size offset bytes [] h = refl
  take-write_at zero offset bytes (x ∷ xs) h = refl
  take-write_at (suc size) zero bytes (x ∷ xs) h = absurd (omega arith)
  take-write_at (suc size) (suc offset) bytes (x ∷ xs) h =
      ap (λ l. x ∷ l) (take-write_at size offset bytes xs (omega arith))

  -- A part of the memory that the write does not touch.
  pub slice-write_at_apart :
      (from size offset : ℕ) (bytes xs : List A)
      → (from + size ≤ offset) ⊎ (offset + length bytes ≤ from)
      → slice from size (write_at offset bytes xs) ≡ slice from size xs
  slice-write_at_apart from size offset bytes [] h = refl
  slice-write_at_apart from size zero bytes (x ∷ xs) (inr h) =
      slice-write_at-zero from size bytes (x ∷ xs) (omega arith)
  slice-write_at_apart zero size (suc offset) bytes (x ∷ xs) (inr h) = absurd (omega arith)
  slice-write_at_apart (suc from) size (suc offset) bytes (x ∷ xs) (inr h) =
      slice-write_at_apart from size offset bytes xs (inr (omega arith))
  slice-write_at_apart zero size offset bytes (x ∷ xs) (inl h) =
      take-write_at size offset bytes (x ∷ xs) (omega arith)
  slice-write_at_apart (suc from) size zero bytes (x ∷ xs) (inl h) = absurd (omega arith)
  slice-write_at_apart (suc from) size (suc offset) bytes (x ∷ xs) (inl h) =
      slice-write_at_apart from size offset bytes xs (inl (omega arith))

-- `first, first + 1, …`, `count` numbers.
abbrev pub range_from : ℕ → ℕ → List ℕ
range_from first zero = []
range_from first (suc count) = first ∷ range_from (suc first) count

module _ {ℓ} {A : Type ℓ} where
  pub get_elem?-modify_at_same :
      (i : ℕ) (f : A → A) (xs : List A)
      → get_elem? (modify_at i f xs) i ≡ Option.map f (get_elem? xs i)
  get_elem?-modify_at_same i f [] = refl
  get_elem?-modify_at_same zero f (x ∷ xs) = refl
  get_elem?-modify_at_same (suc i) f (x ∷ xs) = get_elem?-modify_at_same i f xs

  pub get_elem?-modify_at_other :
      (i j : ℕ) (f : A → A) (xs : List A) → i ≢ j → get_elem? (modify_at i f xs) j ≡ get_elem? xs j
  get_elem?-modify_at_other i j f [] h = refl
  get_elem?-modify_at_other zero zero f (x ∷ xs) h = absurd (h refl)
  get_elem?-modify_at_other zero (suc j) f (x ∷ xs) h = refl
  get_elem?-modify_at_other (suc i) zero f (x ∷ xs) h = refl
  get_elem?-modify_at_other (suc i) (suc j) f (x ∷ xs) h =
      get_elem?-modify_at_other i j f xs (omega (arith, h))
