-- ===== src/Net/TcpServer/Ledger.antt =====
-- Who holds the objects of a server, as numbers: `T i` counts what holds object `i` while it is in
-- the table, `D i` what holds it afterwards.
use my_moduo.Base.{
  inl, inr, Bool-cases, ℕ, ◌+◌, ◌<◌, ◌≤◌, ◌≡◌, ◌≢◌, Option, none, some, arith, ◌==◌, if◌then◌else◌,
}
use my_moduo.Net.Epoller.{put}

abbrev pub single : ℕ → ℕ → ℕ
single i j = if j == i then 1 else 0

-- An object has one holder at most; the table has exactly the objects that are held in it, under
-- their descriptors; no two objects that are held have the same descriptor.
pub record Ledger (T D : ℕ → ℕ) (table : ℕ → Option ℕ) (fd_of : ℕ → ℕ) (made : ℕ) : Type 0 where
  pub one : (i : ℕ) → T i + D i ≤ 1
  pub listed : (i : ℕ) → 0 < T i → table (fd_of i) ≡ some i
  pub only : (fd i : ℕ) → table fd ≡ some i → (fd_of i ≡ fd) × (0 < T i)
  pub alone : (i j : ℕ) → 0 < T i + D i → 0 < T j + D j → fd_of i ≡ fd_of j → i ≡ j
  pub fresh : (i : ℕ) → made ≤ i → T i + D i ≡ 0

module _ {T D : ℕ → ℕ} {table : ℕ → Option ℕ} {fd_of : ℕ → ℕ} {made : ℕ} where
  -- The holders change, and not their numbers.
  pub Ledger-same :
      (U E : ℕ → ℕ)
      → Ledger T D table fd_of made
      → ((j : ℕ) → U j ≡ T j)
      → ((j : ℕ) → E j ≡ D j)
      → Ledger U E table fd_of made
  Ledger-same U E h t d = record {
    one = λ i. omega (arith, h.one i, t i, d i);
    listed = λ i k. h.listed i (omega (arith, k, t i));
    only = λ fd i e. let (a, b) = h.only fd i e in (a, omega (arith, b, t i));
    alone = λ i j a b e. h.alone i j (omega (arith, a, t i, d i)) (omega (arith, b, t j, d j)) e;
    fresh = λ i k. omega (arith, h.fresh i k, t i, d i);
  }

  listed_still :
      (u v i j : ℕ)
      → Ledger T D table fd_of made
      → u + single i i ≡ T i
      → v + single i j ≡ T j
      → 0 < v
      → put (fd_of i) none table (fd_of j) ≡ some j
  listed_still u v i j h ti tj k =
      let other : fd_of j ≢ fd_of i = λ e.
        ground
          (arith, ti, tj, k, h.one j, h.alone j i (ground (arith, tj, k)) (ground (arith, ti)) e) in
      ground (arith, other, h.listed j (ground (arith, tj, k)))

  only_still :
      (u v i fd j : ℕ)
      → Ledger T D table fd_of made
      → u + single i i ≡ T i
      → v + single i j ≡ T j
      → put (fd_of i) none table fd ≡ some j
      → (fd_of j ≡ fd) × (0 < v)
  only_still u v i fd j h ti tj e =
      let there : (fd ≢ fd_of i) × (table fd ≡ some j) = ground (arith, e) in
      let (same, held) = h.only fd j there.1 in
      let other : j ≢ i = λ k. ground (arith, there.0, same, k) in
      (same, ground (arith, held, other, tj))

  -- Object `i` leaves the table.
  pub Ledger-erased :
      (i : ℕ) (U E : ℕ → ℕ)
      → Ledger T D table fd_of made
      → ((j : ℕ) → U j + single i j ≡ T j)
      → ((j : ℕ) → E j ≡ D j + single i j)
      → Ledger U E (put (fd_of i) none table) fd_of made
  Ledger-erased i U E h t d = record {
    one = λ j. omega (arith, h.one j, t j, d j);
    listed = λ j k. listed_still (U i) (U j) i j h (t i) (t j) k;
    only = λ fd j e. only_still (U i) (U j) i fd j h (t i) (t j) e;
    alone = λ j k a b e. h.alone j k (omega (arith, a, t j, d j)) (omega (arith, b, t k, d k)) e;
    fresh = λ j k. omega (arith, h.fresh j k, t j, d j);
  }

  -- Object `i`, which had left the table, is held no more.
  pub Ledger-dropped :
      (i : ℕ) (E : ℕ → ℕ)
      → Ledger T D table fd_of made
      → ((j : ℕ) → E j + single i j ≡ D j)
      → Ledger T E table fd_of made
  Ledger-dropped i E h d = record {
    one = λ j. omega (arith, h.one j, d j);
    listed = h.listed;
    only = h.only;
    alone = λ j k a b e. h.alone j k (omega (arith, a, d j)) (omega (arith, b, d k)) e;
    fresh = λ j k. omega (arith, h.fresh j k, d j);
  }

  listed_new :
      (u fd j : ℕ)
      → Ledger T D table fd_of made
      → ((j : ℕ) → 0 < T j + D j → fd_of j ≢ fd)
      → u ≡ T j + single made j
      → 0 < u
      → put fd (some made) table (put made fd fd_of j) ≡ some j
  listed_new u fd j h free t k = elim (Bool-cases (j == made)) [
    | inl e ↦ ground (arith, e)
    | inr e ↦ ground (arith, e, t, k, free j, h.listed j)
  ]

  only_new :
      (u fd fd' j : ℕ)
      → Ledger T D table fd_of made
      → ((j : ℕ) → 0 < T j + D j → fd_of j ≢ fd)
      → u ≡ T j + single made j
      → put fd (some made) table fd' ≡ some j
      → (put made fd fd_of j ≡ fd') × (0 < u)
  only_new u fd fd' j h free t e = elim (Bool-cases (fd' == fd)) [
    | inl k ↦ ground (arith, k, e, t)
    | inr k ↦
        let there : table fd' ≡ some j = ground (arith, k, e) in
        let (same, held) = h.only fd' j there in
        let other : j ≢ made = λ m. ground (arith, h.fresh j, held, m) in
        ground (arith, same, held, other, t)
  ]

  alone_new :
      (u v fd j k : ℕ)
      → Ledger T D table fd_of made
      → ((j : ℕ) → 0 < T j + D j → fd_of j ≢ fd)
      → u ≡ T j + single made j
      → v ≡ T k + single made k
      → 0 < u + D j
      → 0 < v + D k
      → put made fd fd_of j ≡ put made fd fd_of k
      → j ≡ k
  alone_new u v fd j k h free tj tk a b e = elim (Bool-cases (j == made)) [
    | inl m ↦ elim (Bool-cases (k == made)) [
      | inl n ↦ ground (arith, m, n)
      | inr n ↦ absurd (ground (arith, m, n, e, free k, tk, b))
    ]
    | inr m ↦ elim (Bool-cases (k == made)) [
      | inl n ↦ absurd (ground (arith, m, n, e, free j, tj, a))
      | inr n ↦
          h.alone j k (ground (arith, m, tj, a)) (ground (arith, n, tk, b))
            (ground (arith, m, n, e))
    ]
  ]

  -- A new object, under a descriptor that no object has that is held.
  pub Ledger-added :
      (fd : ℕ) (U : ℕ → ℕ)
      → Ledger T D table fd_of made
      → ((j : ℕ) → 0 < T j + D j → fd_of j ≢ fd)
      → ((j : ℕ) → U j ≡ T j + single made j)
      → Ledger U D (put fd (some made) table) (put made fd fd_of) (made + 1)
  Ledger-added fd U h free t = record {
    one = λ j. ground (arith, h.one j, h.fresh j, t j);
    listed = λ j k. listed_new (U j) fd j h free (t j) k;
    only = λ fd' j e. only_new (U j) fd fd' j h free (t j) e;
    alone = λ j k a b e. alone_new (U j) (U k) fd j k h free (t j) (t k) a b e;
    fresh = λ j k. ground (arith, h.fresh j, t j, k);
  }
