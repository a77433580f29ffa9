-- ===== src/Base/Decimal.antt =====
-- Decimal notation.
use Prim.Native.Nat.{ℕ, zero, suc, ◌+◌, ◌-◌, ◌*◌, ◌/◌, ◌%◌, ◌^◌, ◌≤◌, ◌<◌}
use mathlib.Core.Path.{◌≡◌, ◌∙◌}
use mathlib.Core.Logic.{inl, inr}
use mathlib.Core.List.{List, [], ◌∷◌, reverse, reverse_aux, reverse-reverse}
use native.Mathlib.Omega.{arith}
use native.Mathlib.Nat.{pow-suc}
use my_moduo.Base.Tests.{◌==◌, if◌then◌else◌, Bool-cases}
use my_moduo.Base.Lists.{length}

-- The digits of `n`, the last one first, on fuel.
unfoldable pub low_digits : ℕ → ℕ → List ℕ
low_digits zero n = []
low_digits (suc f) n =
    let rest = low_digits f (n / 10) in (b'0' + n % 10) ∷ (if n / 10 == 0 then [] else rest)

-- The number that a list of digits stands for, the last one first.
unfoldable pub value_of : List ℕ → ℕ
value_of [] = 0
value_of (d ∷ ds) = (d - b'0') + 10 * value_of ds

value_of-low_digits : (f n : ℕ) → n < f → value_of (low_digits f n) ≡ n
unfolding value_of low_digits
value_of-low_digits zero n h = absurd (omega arith)
value_of-low_digits (suc f) n h = elim (Bool-cases (n / 10 == 0)) [
  | inl last ↦ rw last (ground arith)
  | inr more ↦ rw (more, value_of-low_digits f (n / 10) (ground arith)) (omega arith)
]

pub length-low_digits : (f n k : ℕ) → n < 10 ^ suc k → length (low_digits f n) ≤ suc k
unfolding low_digits
length-low_digits zero n k h = omega arith
length-low_digits (suc f) n zero h = ground arith
length-low_digits (suc f) n (suc k) h =
    ground (arith, pow-suc 10 (suc k), length-low_digits f (n / 10) k)

-- `std::to_string` of a number that is not negative.
unfoldable pub to_decimal : ℕ → List ℕ
unfolding low_digits
to_decimal n = reverse (low_digits (suc n) n)

pub length-reverse_aux : (xs ys : List ℕ) → length (reverse_aux xs ys) ≡ length xs + length ys
length-reverse_aux [] ys = omega arith
length-reverse_aux (x ∷ xs) ys = length-reverse_aux xs (x ∷ ys) ∙ omega arith

pub length-reverse : (xs : List ℕ) → length (reverse xs) ≡ length xs
length-reverse xs = length-reverse_aux xs [] ∙ omega arith

pub length-to_decimal : (n k : ℕ) → n < 10 ^ suc k → length (to_decimal n) ≤ suc k
unfolding to_decimal
length-to_decimal n k h =
    omega (arith, length-reverse (low_digits (suc n) n), length-low_digits (suc n) n k h)

-- Reading a text in decimal notation.
unfoldable pub of_decimal : List ℕ → ℕ
unfolding value_of
of_decimal xs = value_of (reverse xs)

pub of_decimal-to_decimal : (n : ℕ) → of_decimal (to_decimal n) ≡ n
unfolding of_decimal to_decimal
of_decimal-to_decimal n =
    rw (reverse-reverse (low_digits (suc n) n)) (value_of-low_digits (suc n) n (omega arith))
