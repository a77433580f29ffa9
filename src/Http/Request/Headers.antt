-- ===== src/Http/Request/Headers.antt =====
-- `addHeader`, and the map that it writes into.
use mathlib.Core.List.{reverse, reverse-append, reverse-reverse, reverse-cons}
use my_moduo.Base.{
  ◌≡◌, refl, true, false, [], ◌∷◌, ◌++◌, some, arith, Bytes, eq_bytes, eq_bytes_iff, if◌then◌else◌,
  append-nil,
}
use my_moduo.Http.Request.{
  Fields, HttpRequest, assign, find, header, is_space, skip_spaces, drop_trailing_spaces,
  add_header,
}

find-assign :
    (k j v : Bytes) (m : Fields)
    → find j (assign k v m) ≡ (if eq_bytes k j then some v else find j m)
unfolding assign find
find-assign k j v [] = refl
find-assign k j v ((i, w) ∷ m) =
    ground (arith, eq_bytes_iff k j, eq_bytes_iff i k, eq_bytes_iff i j, find-assign k j v m)

-- Spaces only.
abbrev pub AllSpace : Bytes → Type 0
AllSpace [] = Unit {0}
AllSpace (c ∷ cs) = (is_space c ≡ true) × AllSpace cs

-- No space in front.
abbrev pub StartsClean : Bytes → Type 0
StartsClean [] = Unit {0}
StartsClean (c ∷ cs) = is_space c ≡ false

abbrev pub IsTrimmed : Bytes → Type 0
IsTrimmed xs = StartsClean xs × StartsClean (reverse xs)

skip_spaces-append : (xs ys : Bytes) → AllSpace xs → skip_spaces (xs ++ ys) ≡ skip_spaces ys
unfolding skip_spaces
skip_spaces-append [] ys h = refl
skip_spaces-append (c ∷ xs) ys h = rw h.0 (skip_spaces-append xs ys h.1)

skip_spaces-StartsClean : (xs : Bytes) → StartsClean xs → skip_spaces xs ≡ xs
unfolding skip_spaces
skip_spaces-StartsClean [] h = refl
skip_spaces-StartsClean (c ∷ xs) h = rw h

AllSpace-append : (xs ys : Bytes) → AllSpace xs → AllSpace ys → AllSpace (xs ++ ys)
AllSpace-append [] ys h k = k
AllSpace-append (c ∷ xs) ys h k = (h.0, AllSpace-append xs ys h.1 k)

AllSpace-reverse : (xs : Bytes) → AllSpace xs → AllSpace (reverse xs)
AllSpace-reverse [] h = tt
AllSpace-reverse (c ∷ xs) h =
    rw (reverse-cons c xs)
      (AllSpace-append (reverse xs) (c ∷ []) (AllSpace-reverse xs h.1) (h.0, tt))

drop_trailing_spaces-append :
    (value back : Bytes)
    → AllSpace back
    → StartsClean (reverse value)
    → drop_trailing_spaces (value ++ back) ≡ value
unfolding drop_trailing_spaces
drop_trailing_spaces-append value back h k =
    rw
      (
        reverse-append value back,
        skip_spaces-append (reverse back) (reverse value) (AllSpace-reverse back h),
        skip_spaces-StartsClean (reverse value) k,
      )
      (reverse-reverse value)

-- The spaces round a field's value go.
pub trim_value :
    (front value back : Bytes)
    → AllSpace front
    → AllSpace back
    → IsTrimmed value
    → drop_trailing_spaces (skip_spaces (front ++ (value ++ back))) ≡ value
trim_value front [] back h k t =
    rw (skip_spaces-append front back h, ← append-nil back, skip_spaces-append back [] k)
      (unfold skip_spaces drop_trailing_spaces in refl)
trim_value front (c ∷ value) back h k t =
    rw (skip_spaces-append front _ h, skip_spaces-StartsClean (c ∷ (value ++ back)) t.0)
      (drop_trailing_spaces-append (c ∷ value) back k t.1)

-- `addHeader` stores the value without the spaces round it, over an older value of the field, and
-- leaves every other field as it was.
header-add_header :
    (r : HttpRequest) (field front value back other : Bytes)
    → AllSpace front
    → AllSpace back
    → IsTrimmed value
    → header (add_header r field (front ++ (value ++ back))) other
      ≡ (if eq_bytes field other then some value else header r other)
unfolding header add_header
header-add_header r field front value back other h k t =
    ground (arith, trim_value front value back h k t, find-assign field other value r.headers)
