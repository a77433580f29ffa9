-- ===== src/Base/Slices.antt =====
-- Slices of a list, and writes into one.
use Prim.Native.Nat.{ℕ, ◌+◌, ◌-◌, ◌≤◌, ◌<◌}
use mathlib.Core.Path.{◌≡◌, ap, ◌∙◌}
use mathlib.Core.List.{List, ◌++◌}
use native.Mathlib.Omega.{arith}
use my_moduo.Base.Tests.{ltb, lt→ltb, if◌then◌else◌}
use my_moduo.Base.Lists.{
  length, take, drop, replicate, length-append, length-take, length-drop, length-replicate,
  take-append_left, drop-append_left, take-append_add, take-append_length, drop-take, drop-drop,
  take-take,
}

module _ {ℓ} {A : Type ℓ} where
  -- The `n` elements from index `i` on.
  abbrev pub slice : ℕ → ℕ → List A → List A
  slice i n xs = take n (drop i xs)

  -- `std::copy(ys.begin(), ys.end(), xs + i)`.
  unfoldable pub copy_to : List A → ℕ → List A → List A
  copy_to xs i ys = take i xs ++ (ys ++ drop (i + length ys) xs)

  -- `std::vector::resize`, which fills up with `a`.
  pub resize : ℕ → A → List A → List A
  resize n a xs = if ltb (length xs) n then xs ++ replicate (n - length xs) a else take n xs

  pub length-slice : (i n : ℕ) (xs : List A) → i + n ≤ length xs → length (slice i n xs) ≡ n
  length-slice i n xs h = omega (arith, length-take n (drop i xs), length-drop i xs)

  pub length-copy_to :
      (xs : List A) (i : ℕ) (ys : List A)
      → i + length ys ≤ length xs
      → length (copy_to xs i ys) ≡ length xs
  unfolding copy_to
  length-copy_to xs i ys h = omega (
    arith,
    length-append (take i xs) (ys ++ drop (i + length ys) xs),
    length-append ys (drop (i + length ys) xs),
    length-take i xs,
    length-drop (i + length ys) xs,
  )

  pub length-resize : (n : ℕ) (a : A) (xs : List A) → length (resize n a xs) ≡ n
  unfolding resize
  length-resize n a xs = ground (
    arith,
    length-append xs (replicate (n - length xs) a),
    length-replicate (n - length xs) a,
    length-take n xs,
  )

  pub slice-resize :
      (i n m : ℕ) (a : A) (xs : List A)
      → i + n ≤ length xs
      → length xs < m
      → slice i n (resize m a xs) ≡ slice i n xs
  unfolding resize
  slice-resize i n m a xs h k =
      rw (lt→ltb _ _ k, drop-append_left i xs _ (omega arith))
        (take-append_left n (drop i xs) _ (omega (arith, length-drop i xs)))

  -- A slice, extended by what is written right behind it.
  pub slice-copy_to :
      (i n : ℕ) (xs ys : List A)
      → i + n ≤ length xs
      → slice i (n + length ys) (copy_to xs (i + n) ys) ≡ slice i n xs ++ ys
  unfolding copy_to
  slice-copy_to i n xs ys h = rw (
    drop-append_left i (take (i + n) xs) _ (omega (arith, length-take (i + n) xs)),
    drop-take i n xs,
    take-append_add n (length ys) (slice i n xs) _ (length-slice i n xs h),
    take-append_length,
  )

  pub drop-slice : (k i n : ℕ) (xs : List A) → drop k (slice i (k + n) xs) ≡ slice (i + k) n xs
  drop-slice k i n xs = drop-take k n (drop i xs) ∙ ap (take n) (drop-drop k i xs)

  pub drop-slice_sub :
      (k i n : ℕ) (xs : List A) → k ≤ n → drop k (slice i n xs) ≡ slice (i + k) (n - k) xs
  drop-slice_sub k i n xs h =
      ap (λ m. drop k (slice i m xs)) (omega arith) ∙ drop-slice k i (n - k) xs

  pub take-slice : (k i n : ℕ) (xs : List A) → k ≤ n → take k (slice i n xs) ≡ slice i k xs
  take-slice k i n xs h = take-take k n (drop i xs) h
