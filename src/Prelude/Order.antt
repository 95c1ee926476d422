-- ===== src/Prelude/Order.antt =====
-- Go's `sort.Strings`: the order of texts by their bytes, which is that of their characters, and a list
-- put in order.
use Prim.Native.Char.{code}
use Prim.Native.String.{String}
use mathlib.Core.Path.{◌≡◌, refl}
use mathlib.Core.Logic.{inl, inr}
use mathlib.Core.Bool.{Bool, true, false}
use mathlib.Core.List.{List, [], ◌∷◌}
use native.Mathlib.Omega.{arith}
use splitter.Prelude.Tests.{ltb, ◌==◌, if◌then◌else◌, Bool-cases}
use splitter.Prelude.Shuffle.{count, IsPermutation}

unfoldable pub str_leb : String → String → Bool
str_leb String.[] t = true
str_leb (String.◌∷◌ c s) String.[] = false
str_leb (String.◌∷◌ c s) (String.◌∷◌ d t) =
    let rest = str_leb s t in
    if ltb (code c) (code d) then true else if code c == code d then rest else false

-- An order in which of two elements one at least comes before the other.
abbrev pub IsTotal {ℓ} : {A : Type ℓ} → (A → A → Bool) → Type ℓ
IsTotal {A = A} le = (x y : A) → le x y ≡ false → le y x ≡ true

pub str_leb-IsTotal : IsTotal str_leb
unfolding str_leb
str_leb-IsTotal String.[] t h = ground arith
str_leb-IsTotal (String.◌∷◌ c s) String.[] h = refl
str_leb-IsTotal (String.◌∷◌ c s) (String.◌∷◌ d t) h =
    let ih = str_leb-IsTotal s t in ground (arith, ih)

module _ {ℓ} {A : Type ℓ} (le : A → A → Bool) where
  abbrev pub insert : A → List A → List A
  insert x [] = x ∷ []
  insert x (y ∷ ys) = let rest = insert x ys in if le x y then x ∷ y ∷ ys else y ∷ rest

  abbrev pub sort : List A → List A
  sort [] = []
  sort (x ∷ xs) = insert x (sort xs)

  abbrev pub IsSorted : List A → Type 0
  IsSorted [] = Unit
  IsSorted (x ∷ []) = Unit
  IsSorted (x ∷ y ∷ ys) = (le x y ≡ true) × IsSorted (y ∷ ys)

  insert_behind :
      (total : IsTotal le) (x y : A) (ys : List A)
      → le x y ≡ false
      → IsSorted (y ∷ ys)
      → IsSorted (insert x ys)
      → IsSorted (y ∷ insert x ys)
  insert_behind total x y [] h s r = (total x y h, tt)
  insert_behind total x y (z ∷ zs) h (k, s) r = elim (Bool-cases (le x z)) [
    | inl e ↦ rw e (total x y h, rw e at r)
    | inr e ↦ rw e (k, rw e at r)
  ]

  insert-IsSorted : IsTotal le → (x : A) (ys : List A) → IsSorted ys → IsSorted (insert x ys)
  insert-IsSorted total x [] s = tt
  insert-IsSorted total x (y ∷ ys) s = elim (Bool-cases (le x y)) [
    | inl e ↦ rw e (e, s)
    | inr e ↦ rw e (insert_behind total x y ys e s (insert-IsSorted total x ys (tail y ys s)))
  ]
    where
      tail : (y : A) (ys : List A) → IsSorted (y ∷ ys) → IsSorted ys
      tail y [] s = tt
      tail y (z ∷ zs) s = s.1

  pub sort-IsSorted : IsTotal le → (xs : List A) → IsSorted (sort xs)
  sort-IsSorted total [] = tt
  sort-IsSorted total (x ∷ xs) = insert-IsSorted total x (sort xs) (sort-IsSorted total xs)

  count-insert : (p : A → Bool) (x : A) (ys : List A) → count p (insert x ys) ≡ count p (x ∷ ys)
  count-insert p x [] = refl
  count-insert p x (y ∷ ys) = elim (Bool-cases (le x y)) [
    | inl e ↦ rw e refl
    | inr e ↦ rw e (omega (arith, count-insert p x ys))
  ]

  pub sort-IsPermutation : (xs : List A) → IsPermutation (sort xs) xs
  sort-IsPermutation [] p = refl
  sort-IsPermutation (x ∷ xs) p = omega (arith, count-insert p x (sort xs), sort-IsPermutation xs p)
