-- ===== src/Health/Reads.antt =====
-- internal/health/dnsleak.go: `readFull` does not depend on how the bytes are cut into chunks.
use splitter.Prelude.{
  ℕ, zero, suc, ◌-◌, ◌≤◌, ◌<◌, ◌≡◌, refl, sym, ap, ◌∙◌, ◌⊎◌, inl, inr, false, none, some, List, [],
  ◌∷◌, ◌++◌, arith, leb, ◌==◌, leb→le, Bool-cases, length, take, drop, length-append,
}
use splitter.Health.{read_full}

-- The bytes that are still to come.
abbrev pub stream : List (List ℕ) → List ℕ
stream [] = []
stream (chunk ∷ rest) = chunk ++ stream rest

module _ {A : Type 0} where
  pub take-append_above :
      (n : ℕ) (xs ys : List A) → length xs ≤ n → take n (xs ++ ys) ≡ xs ++ take (n - length xs) ys
  take-append_above n [] ys h = ap (λ k. take k ys) (omega arith)
  take-append_above zero (x ∷ xs) ys h = absurd (omega arith)
  take-append_above (suc n) (x ∷ xs) ys h =
      ap (λ zs. x ∷ zs)
        (take-append_above n xs ys (omega arith) ∙ ap (λ k. xs ++ take k ys) (omega arith))

  pub take-append_below : (n : ℕ) (xs ys : List A) → n ≤ length xs → take n (xs ++ ys) ≡ take n xs
  take-append_below zero xs ys h = refl
  take-append_below (suc n) [] ys h = absurd (omega arith)
  take-append_below (suc n) (x ∷ xs) ys h =
      ap (λ zs. x ∷ zs) (take-append_below n xs ys (omega arith))

  pub drop-append_above :
      (n : ℕ) (xs ys : List A) → length xs ≤ n → drop n (xs ++ ys) ≡ drop (n - length xs) ys
  drop-append_above n [] ys h = ap (λ k. drop k ys) (omega arith)
  drop-append_above zero (x ∷ xs) ys h = absurd (omega arith)
  drop-append_above (suc n) (x ∷ xs) ys h =
      drop-append_above n xs ys (omega arith) ∙ ap (λ k. drop k ys) (omega arith)

  pub drop-append_below :
      (n : ℕ) (xs ys : List A) → n ≤ length xs → drop n (xs ++ ys) ≡ drop n xs ++ ys
  drop-append_below zero xs ys h = refl
  drop-append_below (suc n) [] ys h = absurd (omega arith)
  drop-append_below (suc n) (x ∷ xs) ys h = drop-append_below n xs ys (omega arith)

-- `readFull` of `n` bytes takes exactly the next `n` bytes and leaves the others, however the bytes are
-- cut into chunks; or fewer than `n` are to come, and it is an error.
pub read_full_lem :
    (n : ℕ) (chunks : List (List ℕ))
    → ((left : List (List ℕ)) × (read_full n chunks ≡ some (take n (stream chunks), left))
        × (stream left ≡ drop n (stream chunks))
        × (n ≤ length (stream chunks)))
      ⊎ ((read_full n chunks ≡ none) × (length (stream chunks) < n))
unfolding read_full
read_full_lem zero [] = inl ([], refl, refl, omega arith)
read_full_lem (suc n) [] = inr (ground arith, omega arith)
read_full_lem zero (chunk ∷ rest) = inl (chunk ∷ rest, refl, refl, omega arith)
read_full_lem (suc n) (chunk ∷ rest) =
    let e : (suc n == 0) ≡ false = ground arith in
    let coming = stream rest in
    elim (Bool-cases (leb (length chunk) (suc n))) [
      | inl short ↦
          let fits = leb→le (length chunk) (suc n) short in
          elim (read_full_lem (suc n - length chunk) rest) [
            | inl (left, h, k, l) ↦ inl (
              left,
              rw (e, short)
                  (rw h (
                    ap (λ zs. some (zs, left))
                      (sym (take-append_above (suc n) chunk coming fits)))),
              k ∙ sym (drop-append_above (suc n) chunk coming fits),
              omega (arith, length-append chunk coming),
            )
            | inr (h, l) ↦
                inr (rw (e, short) (rw h refl), omega (arith, length-append chunk coming))
          ]
      | inr long ↦
          let within : suc n ≤ length chunk = ground arith in
          inl (
            drop (suc n) chunk ∷ rest,
            rw (e, long)
                (ap (λ zs. some (zs, drop (suc n) chunk ∷ rest))
                  (sym (take-append_below (suc n) chunk coming within))),
            sym (drop-append_below (suc n) chunk coming within),
            omega (arith, length-append chunk coming),
          )
    ]
