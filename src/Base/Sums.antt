-- ===== src/Base/Sums.antt =====
-- Sums over lists.
use Prim.Native.Nat.{ℕ, zero, suc, ◌+◌, ◌<◌}
use mathlib.Core.Path.{◌≡◌, refl, ap}
use mathlib.Core.Logic.{◌⊎◌, inl, inr}
use mathlib.Core.List.{List, [], ◌∷◌, ◌++◌}
use native.Mathlib.Omega.{arith}

unfoldable pub tally {ℓ} : {A : Type ℓ} → (A → ℕ) → List A → ℕ
tally f [] = 0
tally f (w ∷ ts) = f w + tally f ts

pub tally-at {ℓ} :
    {A : Type ℓ} (f : A → ℕ) (before : List A) (w : A) (after : List A)
    → tally f (before ++ w ∷ after) ≡ f w + (tally f before + tally f after)
unfolding tally
tally-at f [] w after = omega arith
tally-at f (v ∷ before) w after = omega (arith, tally-at f before w after)

pub tally-append {ℓ} :
    {A : Type ℓ} (f : A → ℕ) (xs ys : List A) → tally f (xs ++ ys) ≡ tally f xs + tally f ys
unfolding tally
tally-append f [] ys = omega arith
tally-append f (x ∷ xs) ys = omega (arith, tally-append f xs ys)

pub zero_or_less : (n : ℕ) → (n ≡ 0) ⊎ (0 < n)
zero_or_less zero = inl refl
zero_or_less (suc n) = inr (omega arith)

pub tally-end {ℓ} : {A : Type ℓ} (f : A → ℕ) (ts : List A) → tally f ts + tally f [] ≡ tally f ts
unfolding tally
tally-end f ts = omega arith

-- An element of which the sum has a part.
pub tally_split {ℓ} :
    {A : Type ℓ} (f : A → ℕ) (ts : List A)
    → 0 < tally f ts
    → (before : List A) × (w : A) × (after : List A) × (ts ≡ before ++ w ∷ after) × (0 < f w)
unfolding tally
tally_split f [] h = absurd (omega (arith, h))
tally_split f (w ∷ ts) h = elim (zero_or_less (f w)) [
  | inl e ↦
      let (before, v, after, same, some_of) = tally_split f ts (omega (arith, h, e)) in
      (w ∷ before, v, after, ap (◌∷◌ w) same, some_of)
  | inr l ↦ ([], w, ts, refl, l)
]

-- An element that goes from `v` to `w`.
pub tally_moved {ℓ} :
    {A : Type ℓ} (f : A → ℕ) (ts before : List A) (v w : A) (after : List A)
    → ts ≡ before ++ v ∷ after
    → tally f (before ++ w ∷ after) + f v ≡ tally f ts + f w
tally_moved f ts before v w after e =
    omega (arith, ap (tally f) e, tally-at f before v after, tally-at f before w after)

-- An element that is taken out.
pub tally_removed {ℓ} :
    {A : Type ℓ} (f : A → ℕ) (ts before : List A) (v : A) (after : List A)
    → ts ≡ before ++ v ∷ after
    → tally f ts ≡ f v + tally f (before ++ after)
tally_removed f ts before v after e =
    omega (arith, ap (tally f) e, tally-at f before v after, tally-append f before after)
