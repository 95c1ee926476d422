-- ===== src/Prelude/Shuffle.antt =====
-- Go's `rand.Shuffle(n, swap)`: the exchanges that it asks for, as a parameter, and what they do to a
-- slice. `none` is the panic on an index out of range.
use Prim.Native.Nat.{ℕ, zero, suc, ◌+◌, ◌≤◌, ◌<◌}
use mathlib.Core.Path.{◌≡◌, refl, ap, ◌∙◌}
use mathlib.Core.Bool.{Bool, true, ◌&&◌}
use mathlib.Core.List.{List, [], ◌∷◌}
use mathlib.Core.Option.{Option, none, some}
use mathlib.Core.Logic.{inl, inr}
use native.Mathlib.Omega.{arith}
use splitter.Prelude.Tests.{if◌then◌else◌, ◌==◌, Bool-cases, some-inj}
use splitter.Prelude.Lists.{length, get_elem?, take, All, keep}

module _ {ℓ} {A : Type ℓ} where
  abbrev pub set_elem : ℕ → A → List A → List A
  set_elem i a [] = []
  set_elem zero a (x ∷ xs) = a ∷ xs
  set_elem (suc i) a (x ∷ xs) = x ∷ set_elem i a xs

  abbrev pub exchange : ℕ → ℕ → List A → Option A → Option A → Option (List A)
  exchange i j xs (some a) (some b) = some (set_elem j a (set_elem i b xs))
  exchange i j xs _ _ = none

  -- `xs[i], xs[j] = xs[j], xs[i]`
  abbrev pub swap : ℕ → ℕ → List A → Option (List A)
  swap i j xs = exchange i j xs (get_elem? xs i) (get_elem? xs j)

  abbrev pub swap_all : List (ℕ × ℕ) → List A → Option (List A)
  swap_all [] xs = some xs
  swap_all ((i, j) ∷ rest) xs = elim (swap i j xs) [ none ↦ none | some ys ↦ swap_all rest ys ]

  -- The exchanges of `shuffle` for a slice of this length.
  abbrev pub shuffled : (ℕ → List (ℕ × ℕ)) → List A → Option (List A)
  shuffled shuffle xs = swap_all (shuffle (length xs)) xs

  -- How many elements pass a test.
  abbrev pub count : (A → Bool) → List A → ℕ
  count p [] = 0
  count p (x ∷ xs) = (if p x then 1 else 0) + count p xs

  -- Two lists hold the same elements, as often.
  abbrev pub IsPermutation : List A → List A → Type ℓ
  IsPermutation xs ys = (p : A → Bool) → count p xs ≡ count p ys

  length-set_elem : (i : ℕ) (a : A) (xs : List A) → length (set_elem i a xs) ≡ length xs
  length-set_elem i a [] = refl
  length-set_elem zero a (x ∷ xs) = refl
  length-set_elem (suc i) a (x ∷ xs) = ap suc (length-set_elem i a xs)

  count-set_elem :
      (p : A → Bool) (i : ℕ) (a b : A) (xs : List A)
      → get_elem? xs i ≡ some a
      → count p (set_elem i b xs) + (if p a then 1 else 0) ≡ count p xs + (if p b then 1 else 0)
  count-set_elem p i a b [] h = ground arith
  count-set_elem p zero a b (x ∷ xs) h = let e : x ≡ a = some-inj h in rw e (omega arith)
  count-set_elem p (suc i) a b (x ∷ xs) h = omega (arith, count-set_elem p i a b xs h)

  get_elem?-set_elem :
      (i j : ℕ) (b : A) (xs : List A)
      → i < length xs
      → get_elem? (set_elem i b xs) j ≡ (if i == j then some b else get_elem? xs j)
  get_elem?-set_elem i j b [] h = ground arith
  get_elem?-set_elem zero zero b (x ∷ xs) h = refl
  get_elem?-set_elem zero (suc j) b (x ∷ xs) h = ground arith
  get_elem?-set_elem (suc i) zero b (x ∷ xs) h = ground arith
  get_elem?-set_elem (suc i) (suc j) b (x ∷ xs) h =
      let ih = get_elem?-set_elem i j b xs (omega arith) in ground arith

  pub get_elem?-in : (xs : List A) (i : ℕ) → i < length xs → (a : A) × (get_elem? xs i ≡ some a)
  get_elem?-in [] i h = ground arith
  get_elem?-in (x ∷ xs) zero h = (x, refl)
  get_elem?-in (x ∷ xs) (suc i) h = get_elem?-in xs i (omega arith)

  -- An exchange of two positions of a list gives a list of the same elements.
  swap_in :
      (i j : ℕ) (xs : List A)
      → i < length xs
      → j < length xs
      → (ys : List A) × (swap i j xs ≡ some ys) × (length ys ≡ length xs) × IsPermutation ys xs
  swap_in i j xs hi hj =
      let (a, at_i) = get_elem?-in xs i hi in
      let (b, at_j) = get_elem?-in xs j hj in
      let once = set_elem i b xs in
      let there : get_elem? once j ≡ some b =
        get_elem?-set_elem i j b xs hi
        ∙ elim (Bool-cases (i == j)) [ inl e ↦ rw e refl | inr e ↦ rw e at_j ] in
      (
        set_elem j a once,
        rw at_i (rw at_j refl),
        length-set_elem j a once ∙ length-set_elem i b xs,
        λ p. omega (arith, count-set_elem p j b a once there, count-set_elem p i a b xs at_i),
      )

  swap_all_in :
      (ps : List (ℕ × ℕ)) (xs : List A)
      → All (λ q. (q.0 < length xs) × (q.1 < length xs)) ps
      → (ys : List A) × (swap_all ps xs ≡ some ys) × (length ys ≡ length xs) × IsPermutation ys xs
  swap_all_in [] xs h = (xs, refl, refl, λ p. refl)
  swap_all_in ((i, j) ∷ ps) xs ((hi, hj), rest) =
      let (ys, one, long, same) = swap_in i j xs hi hj in
      let (zs, all, long', same') = swap_all_in ps ys (rw long rest) in
      (zs, rw (one, swap_all) all, long' ∙ long, λ p. same' p ∙ same p)

-- What the package documents: an exchange is of two positions of the slice.
abbrev pub IsInRange : (ℕ → List (ℕ × ℕ)) → Type 0
IsInRange shuffle = (n : ℕ) → All (λ q. (q.0 < n) × (q.1 < n)) (shuffle n)

-- Such a shuffle returns a permutation.
pub shuffled-IsPermutation {ℓ} :
    {A : Type ℓ} (shuffle : ℕ → List (ℕ × ℕ))
    → IsInRange shuffle
    → (xs : List A)
    → (ys : List A) × (shuffled shuffle xs ≡ some ys)
      × (length ys ≡ length xs)
      × IsPermutation ys xs
shuffled-IsPermutation shuffle h xs = swap_all_in (shuffle (length xs)) xs (h (length xs))

module _ {ℓ} {A : Type ℓ} where
  pub count-take : (p : A → Bool) (n : ℕ) (xs : List A) → count p (take n xs) ≤ count p xs
  count-take p zero xs = omega arith
  count-take p (suc n) [] = omega arith
  count-take p (suc n) (x ∷ xs) = omega (arith, count-take p n xs)

  pub count-keep : (p q : A → Bool) (xs : List A) → count p (keep q xs) ≡ count (λ x. q x && p x) xs
  count-keep p q [] = refl
  count-keep p q (x ∷ xs) = ground (arith, count-keep p q xs)

  pub length-keep-count : (q : A → Bool) (xs : List A) → length (keep q xs) ≡ count q xs
  length-keep-count q [] = refl
  length-keep-count q (x ∷ xs) = ground (arith, length-keep-count q xs)

  pub length-count : (xs : List A) → length xs ≡ count (λ x. true) xs
  length-count [] = refl
  length-count (x ∷ xs) = omega (arith, length-count xs)
