-- ===== src/Health/Status/Names.antt =====
-- internal/health/status.go: the kind of a process, from its name.
use Prim.Native.Char.{code}
use Prim.Native.String.{String, [], ◌∷◌}
use splitter.Prelude.{
  ◌≡◌, refl, sym, inl, inr, none, some, arith, ◌==◌, if◌then◌else◌, Option-cases, split_once,
}
use splitter.Health.Status.{category}

-- The characters of a text up to its first dash.
abbrev pub before_dash : String → String
before_dash [] = []
before_dash (c ∷ s) = let rest = before_dash s in if code c == 45 then [] else c ∷ rest

no_dash : (name : String) → split_once "-" name ≡ none → before_dash name ≡ name
unfolding split_once
no_dash [] h = refl
no_dash (c ∷ s) h = ground (arith, no_dash s)

first_dash :
    (name kind rest : String) → split_once "-" name ≡ some (kind, rest) → before_dash name ≡ kind
unfolding split_once
first_dash [] kind rest h = ground arith
first_dash (c ∷ s) kind rest h = elim (Option-cases (split_once "-" s)) [
  | inl f ↦ ground arith
  | inr ((a, b), f) ↦ let ih = first_dash s a b f in ground arith
]

pub category_lem : (name : String) → category name ≡ before_dash name
category_lem name = elim (Option-cases (split_once "-" name)) [
  | inl f ↦ rw (f, category) (sym (no_dash name f))
  | inr ((kind, rest), f) ↦ rw (f, category) (sym (first_dash name kind rest f))
]
