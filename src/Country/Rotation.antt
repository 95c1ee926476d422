-- ===== src/Country/Rotation.antt =====
-- internal/country/daemon.go: what one round of the daemon, `rotateOnce`, asks of the manager.
use mathlib.Core.Path.{subst}
use splitter.Prelude.{
  ℕ, zero, suc, ◌≤◌, ◌<◌, String, ◌≡◌, refl, ◌≢◌, ◌⊎◌, inl, inr, Bool, true, not, ◌&&◌, some, List,
  [], ◌∷◌, arith, str_eq, str_eq_iff, ◌==◌, ==_iff, Bool-cases, some-inj, length, get_elem?, keep,
  All, str_eq_refl, count, get_elem?-in, length-keep-count,
}
use splitter.Country.{filter_blacklisted, pick_different_country}
use splitter.Country.Pick.{picked, no_alternative}
use splitter.Country.Selection.{allowed, count-filter_blacklisted}

-- What the package documents of `rand.IntN`.
abbrev pub IsDraw : (ℕ → ℕ) → Type 0
IsDraw intn = (n : ℕ) → 0 < n → intn n < n

-- A country that is accepted, off the blacklist, and not the current one.
abbrev pub IsAlternative : List String → List String → String → String → Type 0
IsAlternative accepted blacklisted current c =
    (0 < count (λ d. allowed blacklisted d && str_eq d c) accepted) × (c ≢ current)

All-kept : {A : Type 0} (q : A → Bool) (xs : List A) → All (λ x. q x ≡ true) (keep q xs)
All-kept q [] = tt
All-kept q (x ∷ xs) =
    let rest = All-kept q xs in
    elim (Bool-cases (q x)) [ inl e ↦ rw e (e, rest) | inr e ↦ rw e rest ]

All-get_elem? :
    {A : Type 0} (P : A → Type 0) (xs : List A) (i : ℕ) {a : A}
    → All P xs
    → get_elem? xs i ≡ some a
    → P a
All-get_elem? P [] i h e = ground arith
All-get_elem? P (x ∷ xs) zero (px, h) e = subst P (some-inj e) px
All-get_elem? P (x ∷ xs) (suc i) (px, h) e = All-get_elem? P xs i h e

count-keep_le : {A : Type 0} (p q : A → Bool) (xs : List A) → count p (keep q xs) ≤ count p xs
count-keep_le p q [] = omega arith
count-keep_le p q (x ∷ xs) = ground (arith, count-keep_le p q xs)

count-get_elem? :
    {A : Type 0} (p : A → Bool) (xs : List A) (i : ℕ) {a : A}
    → get_elem? xs i ≡ some a
    → p a ≡ true
    → 0 < count p xs
count-get_elem? p [] i h pa = ground arith
count-get_elem? p (x ∷ xs) zero h pa = let e : x ≡ _ = some-inj h in ground arith
count-get_elem? p (x ∷ xs) (suc i) h pa = omega (arith, count-get_elem? p xs i h pa)

-- `pickDifferentCountry`, with draws below their bound, picks an accepted country that is off the
-- blacklist and not the current one; or there is none, and it returns an error.
pub pick_different_country_lem :
    (intn : ℕ → ℕ)
    → IsDraw intn
    → (current : String) (accepted blacklisted : List String)
    → let result = pick_different_country intn current accepted blacklisted in
      ((c : String) × (result ≡ picked c) × IsAlternative accepted blacklisted current c)
      ⊎ ((result ≡ no_alternative)
          × (count (λ d. allowed blacklisted d && not (str_eq d current)) accepted ≡ 0))
unfolding pick_different_country
pick_different_country_lem intn h current accepted blacklisted =
    let other : String → Bool = λ c. not (str_eq c current) in
    let filtered = filter_blacklisted accepted blacklisted in
    let candidates = keep other filtered in
    elim (Bool-cases (length candidates == 0)) [
      | inl e ↦ inr (
        rw e refl,
        omega (
          arith,
          count-filter_blacklisted other accepted blacklisted,
          length-keep-count other filtered,
          (==_iff (length candidates) 0).0 e,
        ),
      )
      | inr e ↦
          let (c, at) =
            get_elem?-in candidates (intn (length candidates))
              (h (length candidates) (ground arith)) in
          inl (
            c,
            rw e (rw at refl),
            (
              omega (
                arith,
                count-get_elem? (λ d. str_eq d c) candidates (intn (length candidates)) at
                    (str_eq_refl c),
                count-keep_le (λ d. str_eq d c) other filtered,
                count-filter_blacklisted (λ d. str_eq d c) accepted blacklisted,
              ),
              ground (
                arith,
                str_eq_iff c current,
                All-get_elem? (λ d. other d ≡ true) candidates (intn (length candidates))
                    (All-kept other filtered) at,
              ),
            ),
          )
    ]
