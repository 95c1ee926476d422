-- ===== src/Health/Leak/Examples.antt =====
-- internal/health/dnsleak.go: tests and a run of the checker on concrete inputs.
use splitter.Prelude.{ℕ, ◌≡◌, refl, Bool, true, false, none, some, List, [], ◌∷◌, ◌++◌, All}
use splitter.Health.{
  Conn, Checker, resolve, read_full, handshake, write, read, request, connect_domain, read_address,
  append_result,
}
use splitter.Health.Window.{latest}
use splitter.Health.Leak.{
  LeakResult, both_failed, no_dial, Surroundings, Pick, done, tick, test, run_checker, last_result,
  keep, rounds, same_text, first_direct, has_direct, resolve_through_socks5,
}
use splitter.Health.Leak.Latest.{IsTold, good, good_of, run_checker_lem}

-- "go.dev"
abbrev domain : List ℕ
domain = 103 ∷ 111 ∷ 46 ∷ 100 ∷ 101 ∷ 118 ∷ []

-- A proxy that answers with the text "hi".
abbrev answering : Conn
answering = record {
  sent = [];
  reads = (5 ∷ 0 ∷ []) ∷ (5 ∷ 0 ∷ 0 ∷ 3 ∷ 2 ∷ 104 ∷ 105 ∷ 0 ∷ 80 ∷ []) ∷ [];
  broken = false;
}

abbrev meets : List ℕ → Surroundings
meets ip = record { direct = some (ip ∷ []); dial = some answering }

abbrev nothing : Surroundings
nothing = record { direct = none; dial = none }

abbrev told_by : Bool → List ℕ → LeakResult
told_by leak ip = record {
  leak_detected = leak;
  tor_ip = 104 ∷ 105 ∷ [];
  direct_ip = ip;
  test_domain = domain;
  error = none;
}

abbrev picks : List Pick
picks = tick nothing false ∷ tick (meets (104 ∷ [])) false ∷ tick nothing true ∷ done ∷ []

abbrev fresh : Checker LeakResult
fresh = record { results = []; running = true }

fails : (test (λ ip. ip) domain nothing).1 ≡ some (both_failed no_dial)
unfolding test first_direct resolve_through_socks5
fails = refl

runs :
    (run_checker (λ ip. ip) domain (meets (104 ∷ 105 ∷ [])) picks fresh).results
    ≡ told_by false (104 ∷ 105 ∷ []) ∷ told_by true (104 ∷ []) ∷ []
unfolding run_checker rounds keep test first_direct has_direct same_text resolve_through_socks5
    resolve handshake write read read_full request connect_domain read_address append_result
runs = refl

run_checker_lem_example :
    let all =
      good (test (λ ip. ip) domain (meets (104 ∷ 105 ∷ []))) ++ good_of (λ ip. ip) domain picks in
    let kept = (run_checker (λ ip. ip) domain (meets (104 ∷ 105 ∷ [])) picks fresh).results in
    (kept ≡ latest all) × (last_result kept ≡ last_result all) × All (IsTold domain) kept
run_checker_lem_example =
    run_checker_lem (λ ip. ip) domain (meets (104 ∷ 105 ∷ [])) picks fresh refl
