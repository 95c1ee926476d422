-- ===== src/Health/Window.antt =====
-- internal/health/dnsleak.go: the results that the periodic checker keeps.
use splitter.Prelude.{
  ℕ, zero, suc, ◌-◌, ◌≤◌, ◌≡◌, refl, sym, ap, ◌∙◌, inl, inr, List, [], ◌∷◌, ◌++◌, append_assoc,
  append-nil, arith, ltb, if◌then◌else◌, ltb→lt, Bool-cases, length, drop, length-append,
  length-drop,
}
use splitter.Health.{Checker, max_results, append_result}
use splitter.Health.Reads.{drop-append_below}

abbrev pub append_all : {R : Type 0} → List R → Checker R → Checker R
append_all [] c = c
append_all (r ∷ rs) c = append_all rs (append_result c r)

-- The last hundred.
abbrev pub latest : {R : Type 0} → List R → List R
latest rs = drop (length rs - max_results) rs

module _ {R : Type 0} where
  drop-one : (b : ℕ) (rs : List R) → drop 1 (drop b rs) ≡ drop (suc b) rs
  drop-one zero rs = refl
  drop-one (suc b) [] = refl
  drop-one (suc b) (r ∷ rs) = drop-one b rs

  trim : (all : List R) → (if ltb max_results (length all) then latest all else all) ≡ latest all
  trim all = elim (Bool-cases (ltb max_results (length all))) [
    | inl e ↦ rw e refl
    | inr e ↦
        let zero_over : length all - max_results ≡ 0 = ground arith in
        rw e (sym (ap (λ k. drop k all) zero_over))
  ]

  latest-append : (done : List R) (r : R) → latest (latest done ++ r ∷ []) ≡ latest (done ++ r ∷ [])
  latest-append done r =
      let k = length done - max_results in
      let kept = drop k done in
      let last = r ∷ [] in
      let longer = length-append done last in
      let longer' = length-append kept last in
      let long = length-drop k done in
      elim (Bool-cases (ltb (length done) max_results)) [
        | inl few ↦
            let zero_over : k ≡ 0 = omega (arith, ltb→lt (length done) max_results few) in
            ap (λ j. latest (drop j done ++ last)) zero_over
        | inr many ↦
            let enough : max_results ≤ length done = ground arith in
            let one : length (kept ++ last) - max_results ≡ 1 = omega arith in
            let next : length (done ++ last) - max_results ≡ suc k = omega arith in
            ap (λ j. drop j (kept ++ last)) one
            ∙ drop-append_below 1 kept last (omega arith)
            ∙ ap (λ xs. xs ++ last) (drop-one k done)
            ∙ sym (drop-append_below (suc k) done last (omega arith))
            ∙ sym (ap (λ j. drop j (done ++ last)) next)
      ]

  append_result_lem :
      (c : Checker R) (done : List R) (r : R)
      → c.results ≡ latest done
      → (append_result c r).results ≡ latest (done ++ r ∷ [])
  unfolding append_result
  append_result_lem c done r h =
      trim (c.results ++ r ∷ []) ∙ ap (λ xs. latest (xs ++ r ∷ [])) h ∙ latest-append done r

  append_all_lem :
      (rs : List R) (c : Checker R) (done : List R)
      → c.results ≡ latest done
      → (append_all rs c).results ≡ latest (done ++ rs)
  append_all_lem [] c done h = h ∙ ap latest (sym (append-nil done))
  append_all_lem (r ∷ rs) c done h =
      append_all_lem rs (append_result c r) (done ++ r ∷ []) (append_result_lem c done r h)
      ∙ ap latest (append_assoc done (r ∷ []) rs)

-- After any results, a checker that began with none keeps the last hundred of them, in their order.
pub append_all-latest :
    {R : Type 0} (rs : List R) (c : Checker R)
    → c.results ≡ []
    → (append_all rs c).results ≡ latest rs
append_all-latest rs c h = append_all_lem rs c [] h
