-- ===== src/Country/Selection.antt =====
-- internal/country/selector.go: what `SelectRandom` returns.
use splitter.Prelude.{
  ℕ, ◌≤◌, String, ◌≡◌, refl, ap, ◌⊎◌, inl, inr, Bool, not, ◌&&◌, List, [], ◌∷◌, arith, ltb, ◌==◌,
  Bool-cases, length, take, length-take, ℤ, ◌≤ℤ◌, ◌<ℤ◌, count, IsInRange, shuffled-IsPermutation,
  count-take, count-keep, length-keep-count, length-count, pos, negsuc,
}
use splitter.Country.{listed, filter_blacklisted, Choice.{selected, too_few}, select_random}

-- A country of the accepted ones that is not on the blacklist.
abbrev pub allowed : List String → String → Bool
allowed blacklisted c = not (listed c blacklisted)

pub count-filter_blacklisted :
    (p : String → Bool) (accepted blacklisted : List String)
    → count p (filter_blacklisted accepted blacklisted)
      ≡ count (λ c. allowed blacklisted c && p c) accepted
unfolding filter_blacklisted
count-filter_blacklisted p accepted [] = refl
count-filter_blacklisted p accepted (b ∷ bs) =
    ground (arith, count-keep p (allowed (b ∷ bs)) accepted)

pub length-filter_blacklisted :
    (accepted blacklisted : List String)
    → length (filter_blacklisted accepted blacklisted) ≡ count (allowed blacklisted) accepted
unfolding filter_blacklisted
length-filter_blacklisted accepted [] = length-count accepted
length-filter_blacklisted accepted (b ∷ bs) =
    ground (arith, length-keep-count (allowed (b ∷ bs)) accepted)

-- `SelectRandom` of `n` countries, with a shuffle that exchanges positions of its slice: it is an error
-- where fewer than `n` accepted countries are off the blacklist, nothing where `n` is not positive, and
-- else exactly `n` of those countries, none of them more often than it was accepted.
pub select_random_lem :
    (shuffle : ℕ → List (ℕ × ℕ))
    → IsInRange shuffle
    → (accepted blacklisted : List String) (n : ℤ)
    → let result = select_random accepted blacklisted n shuffle in
      ((pos (count (allowed blacklisted) accepted) <ℤ n) × (result ≡ too_few))
      ⊎ ((n ≤ℤ pos 0) × (result ≡ selected []))
      ⊎ ((cs : List String) × (result ≡ selected cs)
          × (n ≡ pos (length cs))
          × ((p : String → Bool) → count p cs ≤ count (λ c. allowed blacklisted c && p c) accepted))
unfolding select_random
select_random_lem shuffle h accepted blacklisted (negsuc k) = inr (inl (ground arith, ground arith))
select_random_lem shuffle h accepted blacklisted (pos n) =
    let filtered = filter_blacklisted accepted blacklisted in
    let available = length-filter_blacklisted accepted blacklisted in
    let (ys, at, long, same) = shuffled-IsPermutation shuffle h filtered in
    elim (Bool-cases (ltb (length filtered) n)) [
      | inl few ↦ inl (ground arith, ground arith)
      | inr enough ↦ elim (Bool-cases (n == 0)) [
        | inl zero_asked ↦ inr (inl (ground arith, ground arith))
        | inr asked ↦ inr (
            inr (
              take n ys,
              ground (arith, at),
              ap pos (ground (arith, length-take n ys)),
              λ p. omega (
                arith,
                count-take p n ys,
                same p,
                count-filter_blacklisted p accepted blacklisted,
              ),
            ))
      ]
    ]
