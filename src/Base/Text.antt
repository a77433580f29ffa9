-- ===== src/Base/Text.antt =====
-- Text as a list of bytes.
use Prim.Native.Char.{code}
use Prim.Native.String.{String}
use Prim.Native.Nat.{ℕ}
use mathlib.Core.Path.{◌≡◌, refl, ap}
use mathlib.Core.Logic.{◌↔◌, inl, inr}
use mathlib.Core.Bool.{Bool, true, false, ◌&&◌}
use mathlib.Core.List.{List, [], ◌∷◌, ◌++◌}
use mathlib.Core.Option.{Option, none, some}
use native.Mathlib.Omega.{arith}
use my_moduo.Base.Tests.{◌==◌, if◌then◌else◌, Bool-cases, ◌>>=◌}

abbrev pub Bytes : Type 0
Bytes = List ℕ

-- The bytes of an ASCII literal.
abbrev pub codes : String → Bytes
codes String.[] = []
codes (String.◌∷◌ c s) = code c ∷ codes s

-- `std::string::operator==`
unfoldable pub eq_bytes : Bytes → Bytes → Bool
eq_bytes [] [] = true
eq_bytes (x ∷ xs) (y ∷ ys) = x == y && eq_bytes xs ys
eq_bytes _ _ = false

pub eq_bytes_iff : (xs ys : Bytes) → (eq_bytes xs ys ≡ true) ↔ (xs ≡ ys)
unfolding eq_bytes
eq_bytes_iff (x ∷ xs) (y ∷ ys) = ground (arith, eq_bytes_iff xs ys)
eq_bytes_iff _ _ = ground arith

eq_bytes_refl : (xs : Bytes) → eq_bytes xs xs ≡ true
eq_bytes_refl xs = (eq_bytes_iff xs xs).1 refl

-- `std::find`: what stands before the first `c`, and what stands behind it.
unfoldable pub break_at : ℕ → Bytes → Option (Bytes × Bytes)
break_at c [] = none
break_at c (x ∷ xs) =
    if x == c
    then some ([], xs)
    else (break_at c xs >>= λ (before, after). some (x ∷ before, after))

-- No byte of the text is `c`.
abbrev pub Lacks : ℕ → Bytes → Type 0
Lacks c [] = Unit {0}
Lacks c (x ∷ xs) = ((x == c) ≡ false) × Lacks c xs

pub Lacks-append : (c : ℕ) (xs ys : Bytes) → Lacks c xs → Lacks c ys → Lacks c (xs ++ ys)
Lacks-append c [] ys h k = k
Lacks-append c (x ∷ xs) ys h k = (h.0, Lacks-append c xs ys h.1 k)

pub break_at-Lacks : (c : ℕ) (xs : Bytes) → Lacks c xs → break_at c xs ≡ none
unfolding break_at
break_at-Lacks c [] h = refl
break_at-Lacks c (x ∷ xs) h = rw (h.0, break_at-Lacks c xs h.1)

pub break_at-append :
    (c : ℕ) (xs ys : Bytes) → Lacks c xs → break_at c (xs ++ (c ∷ ys)) ≡ some (xs, ys)
unfolding break_at
break_at-append c [] ys h = ground arith
break_at-append c (x ∷ xs) ys h = rw (h.0, break_at-append c xs ys h.1)

-- The two parts of a text that `break_at` splits, or that there is nothing to split at.
abbrev pub Breaks : ℕ → Bytes → Option (Bytes × Bytes) → Type 0
Breaks c xs none = Lacks c xs
Breaks c xs (some (before, after)) = (xs ≡ before ++ (c ∷ after)) × Lacks c before

cons-Breaks :
    (c x : ℕ) (xs : Bytes) (r : Option (Bytes × Bytes))
    → (x == c) ≡ false
    → Breaks c xs r
    → Breaks c (x ∷ xs) (r >>= λ (before, after). some (x ∷ before, after))
cons-Breaks c x xs none h b = (h, b)
cons-Breaks c x xs (some (before, after)) h b = (ap (◌∷◌ x) b.0, (h, b.1))

pub break_at-Breaks : (c : ℕ) (xs : Bytes) → Breaks c xs (break_at c xs)
unfolding break_at
break_at-Breaks c [] = tt
break_at-Breaks c (x ∷ xs) = elim (Bool-cases (x == c)) [
  | inl hit ↦ rw hit (ground arith, tt)
  | inr miss ↦ rw miss (cons-Breaks c x xs (break_at c xs) miss (break_at-Breaks c xs))
]
