-- ===== src/Logging/Logger/Names.antt =====
-- The name of a source file without its directories.
use mathlib.Core.Path.{subst}
use my_moduo.Base.{
  ◌≡◌, refl, sym, ap, ◌∙◌, ◌⊎◌, inl, inr, [], ◌∷◌, ◌++◌, Bytes, Lacks, ◌==◌, Bool-cases, ==_iff,
}
use my_moduo.Logging.Logger.{source_file, behind_slash}

-- `name` is the last part of `path`.
abbrev pub IsName : Bytes → Bytes → Type 0
IsName path name =
    Lacks b'/' name × ((path ≡ name) ⊎ ((dir : Bytes) × (path ≡ dir ++ (b'/' ∷ name))))

-- What `behind_slash` makes of a rest that it is to look through.
abbrev EndsIn : Bytes → Bytes → Bytes → Type 0
EndsIn found rest name =
    ((name ≡ found) × Lacks b'/' rest)
    ⊎ (Lacks b'/' name × ((dir : Bytes) × (rest ≡ dir ++ (b'/' ∷ name))))

behind_slash-EndsIn : (found rest : Bytes) → EndsIn found rest (behind_slash found rest)
unfolding behind_slash
behind_slash-EndsIn found [] = inl (refl, tt)
behind_slash-EndsIn found (c ∷ rest) = elim (Bool-cases (c == b'/')) [
  | inl slash ↦ rw slash (elim (behind_slash-EndsIn rest rest) [
    | inl (e, none) ↦ inr (
      subst (Lacks b'/') (sym e) none,
      ([], ap (◌∷◌ c) (sym e) ∙ ap (λ d. d ∷ behind_slash rest rest) ((==_iff c b'/').0 slash)),
    )
    | inr (none, (dir, e)) ↦ inr (none, (c ∷ dir, ap (◌∷◌ c) e))
  ])
  | inr other ↦ rw other (elim (behind_slash-EndsIn found rest) [
    | inl (e, none) ↦ inl (e, (refl, none))
    | inr (none, (dir, e)) ↦ inr (none, (c ∷ dir, ap (◌∷◌ c) e))
  ])
]

-- `SourceFile` keeps what stands behind the last slash of the path, or all of it if it has none.
source_file-IsName : (path : Bytes) → IsName path (source_file path)
unfolding source_file
source_file-IsName path = elim (behind_slash-EndsIn path path) [
  | inl (e, none) ↦ (subst (Lacks b'/') (sym e) none, inl (sym e))
  | inr (none, (dir, e)) ↦ (none, inr (dir, e))
]
