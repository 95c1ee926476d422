-- ===== src/Health/Leak/Latest.antt =====
-- internal/health/dnsleak.go: what the periodic checker knows after a run.
use splitter.Prelude.{
  ℕ, zero, suc, ◌-◌, ◌<◌, ◌≡◌, refl, sym, ap, ◌∙◌, ◌≢◌, ◌⊎◌, inl, inr, true, false, ◌&&◌, Option,
  none, some, List, [], ◌∷◌, ◌++◌, arith, if◌then◌else◌, is_some, Bool-cases, length, drop, All,
  All-append, All-drop,
}
use splitter.Health.{max_results, Checker, append_result}
use splitter.Health.Window.{append_all, latest, append_all-latest}
use splitter.Health.Leak.{
  TorError, told, last_result, LeakResult, Surroundings, Pick, done, tick, TestError, same_text,
  has_direct, test, keep, rounds, run_checker, first_direct, resolve_through_socks5,
}

-- The results that come without an error, of the tests until the loop ends.
abbrev pub good : LeakResult × Option TestError → List LeakResult
good (r, none) = r ∷ []
good (r, some e) = []

abbrev pub good_of : (List ℕ → List ℕ) → List ℕ → List Pick → List LeakResult
good_of ip_string domain [] = []
good_of ip_string domain (done ∷ picks) = []
good_of ip_string domain (tick w ended ∷ picks) =
    let r = test ip_string domain w in
    let rest = good_of ip_string domain picks in if is_some r.1 && ended then [] else good r ++ rest

keep_lem :
    (r : LeakResult × Option TestError) (c : Checker LeakResult) → keep r c ≡ append_all (good r) c
unfolding keep
keep_lem (r, none) c = refl
keep_lem (r, some e) c = refl

append_all-append :
    {R : Type 0} (rs ss : List R) (c : Checker R)
    → append_all (rs ++ ss) c ≡ append_all ss (append_all rs c)
append_all-append [] ss c = refl
append_all-append (r ∷ rs) ss c = append_all-append rs ss (append_result c r)

rounds_lem :
    (ip_string : List ℕ → List ℕ) (domain : List ℕ) (picks : List Pick) (c : Checker LeakResult)
    → rounds ip_string domain picks c ≡ append_all (good_of ip_string domain picks) c
unfolding rounds
rounds_lem ip_string domain [] c = refl
rounds_lem ip_string domain (done ∷ picks) c = refl
rounds_lem ip_string domain (tick w ended ∷ picks) c =
    let r = test ip_string domain w in
    elim (Bool-cases (is_some r.1 && ended)) [
      | inl e ↦ rw e refl
      | inr e ↦ rw e (
          rounds_lem ip_string domain picks (keep r c)
          ∙ ap (λ c'. append_all (good_of ip_string domain picks) c') (keep_lem r c)
          ∙ sym (append_all-append (good r) (good_of ip_string domain picks) c))
    ]

same_text_refl : (bs : List ℕ) → same_text bs bs ≡ true
unfolding same_text
same_text_refl [] = refl
same_text_refl (b ∷ bs) = ground (arith, same_text_refl bs)

same_text_sound : (bs cs : List ℕ) → same_text bs cs ≡ true → bs ≡ cs
unfolding same_text
same_text_sound [] [] h = refl
same_text_sound [] (c ∷ cs) h = ground arith
same_text_sound (b ∷ bs) [] h = ground arith
same_text_sound (b ∷ bs) (c ∷ cs) h = grind (arith, same_text_sound bs cs)

-- What a result without an error says: it is of this domain, a leak where the direct address is another
-- than Tor's, and none where the two are the same or there is no direct address.
abbrev pub IsTold : List ℕ → LeakResult → Type 0
IsTold domain r =
    (r.error ≡ none)
    × (r.test_domain ≡ domain)
    × (r.leak_detected ≡ true → r.direct_ip ≢ r.tor_ip)
    × (r.leak_detected ≡ false → (r.direct_ip ≡ r.tor_ip) ⊎ (r.direct_ip ≡ []))

told-IsTold :
    (domain : List ℕ) (direct : Option (List (List ℕ))) (found : List ℕ ⊎ TorError)
    → All (IsTold domain) (
        good (
          told
            (record {
              leak_detected = false;
              tor_ip = [];
              direct_ip = first_direct direct;
              test_domain = domain;
              error = none;
            })
            direct
            found))
unfolding first_direct has_direct
told-IsTold domain none (inl addr) = ((refl, refl, (λ h. ground arith), λ h. inr refl), tt)
told-IsTold domain none (inr e) = tt
told-IsTold domain (some []) (inl addr) = ((refl, refl, (λ h. ground arith), λ h. inr refl), tt)
told-IsTold domain (some (ip ∷ ips)) (inl addr) = elim (Bool-cases (same_text ip addr)) [
  | inl e ↦ rw e ((refl, refl, (λ h. ground arith), λ h. inl (same_text_sound ip addr e)), tt)
  | inr e ↦ rw e (
    (
      refl,
      refl,
      (λ h same. ground (arith, same_text_refl ip, ap (λ x. same_text ip x) same)),
      λ h. ground arith,
    ),
    tt,
  )
]
told-IsTold domain (some addrs) (inr e) = tt

test-IsTold :
    (ip_string : List ℕ → List ℕ) (domain : List ℕ) (w : Surroundings)
    → All (IsTold domain) (good (test ip_string domain w))
unfolding test
test-IsTold ip_string domain w =
    told-IsTold domain w.direct (resolve_through_socks5 ip_string domain w.dial)

good_of-IsTold :
    (ip_string : List ℕ → List ℕ) (domain : List ℕ) (picks : List Pick)
    → All (IsTold domain) (good_of ip_string domain picks)
good_of-IsTold ip_string domain [] = tt
good_of-IsTold ip_string domain (done ∷ picks) = tt
good_of-IsTold ip_string domain (tick w ended ∷ picks) =
    let r = test ip_string domain w in
    let here = test-IsTold ip_string domain w in
    let rest = good_of-IsTold ip_string domain picks in
    elim (Bool-cases (is_some r.1 && ended)) [
      | inl e ↦ rw e tt
      | inr e ↦
          rw e (All-append (IsTold domain) (good r) (good_of ip_string domain picks) here rest)
    ]

last_result-drop :
    {R : Type 0} (k : ℕ) (rs : List R) → k < length rs → last_result (drop k rs) ≡ last_result rs
unfolding last_result
last_result-drop zero rs h = refl
last_result-drop (suc k) [] h = ground arith
last_result-drop (suc k) (r ∷ []) h = ground arith
last_result-drop (suc k) (r ∷ s ∷ rs) h = last_result-drop k (s ∷ rs) (omega (arith, h))

last_result-latest : {R : Type 0} (rs : List R) → last_result (latest rs) ≡ last_result rs
last_result-latest [] = refl
last_result-latest (r ∷ rs) =
    last_result-drop (length (r ∷ rs) - max_results) (r ∷ rs) (omega arith)

-- A run of a checker that has no results keeps, in their order, the last hundred of the results of its
-- tests that came without an error, whatever the tests met and until the context ended; the last of them
-- all is `LastResult`. Each is of the checker's domain; it says a leak only where the direct address is
-- not Tor's, and no leak only where it is, or where there is no direct address.
pub run_checker_lem :
    (ip_string : List ℕ → List ℕ) (domain : List ℕ) (w : Surroundings) (picks : List Pick)
    (c : Checker LeakResult)
    → c.results ≡ []
    → let all = good (test ip_string domain w) ++ good_of ip_string domain picks in
      let kept = (run_checker ip_string domain w picks c).results in
      (kept ≡ latest all) × (last_result kept ≡ last_result all) × All (IsTold domain) kept
unfolding run_checker
run_checker_lem ip_string domain w picks c none_yet =
    let r = test ip_string domain w in
    let rest = good_of ip_string domain picks in
    let all = good r ++ rest in
    let same : (rounds ip_string domain picks (keep r c)).results ≡ latest all =
      ap (λ s. s.results)
        (rounds_lem ip_string domain picks (keep r c)
          ∙ ap (λ s. append_all rest s) (keep_lem r c)
          ∙ sym (append_all-append (good r) rest c))
      ∙ append_all-latest all c none_yet in
    let told_all : All (IsTold domain) all =
      All-append (IsTold domain) (good r) rest (test-IsTold ip_string domain w)
        (good_of-IsTold ip_string domain picks) in
    rw same (
      refl,
      last_result-latest all,
      All-drop (IsTold domain) (length all - max_results) all told_all,
    )
