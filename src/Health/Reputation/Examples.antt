-- ===== src/Health/Reputation/Examples.antt =====
-- internal/health/reputation.go on concrete inputs.
use splitter.Prelude.{
  ℕ, ◌+◌, ◌*◌, ◌^◌, String, ◌≡◌, refl, Bool, true, false, ◌&&◌, Option, none, some, List, [], ◌∷◌,
  arith, str_eq, if◌then◌else◌, length, keep, All, to_upper, IsPermutation, pos,
}
use splitter.Health.Reputation.{
  ExitReputation, CacheFile, stored, ReputationChecker, DetailsRelay, request_failed, response,
  compute_score, fetch_from_api, filter, check, dir_of, lookup,
}
use splitter.Health.Reputation.Rating.{IsRated, is_settled, filter-fetch}
use splitter.Health.Reputation.Cached.{check_revives}

abbrev checker : ReputationChecker
checker = record {
  min_uptime = pos 7;
  min_bandwidth = pos (2 ^ 20);
  cache_ttl = 12 * 3600 * 10 ^ 9;
  cache_path = "/tmp/rep.json";
  api_url = "http://localhost";
}

abbrev day : ℕ
day = 24 * 3600 * 10 ^ 9

-- A parser of one date.
abbrev parse : String → String → Option ℕ
parse layout text =
    if str_eq layout "2006-01-02" && str_eq text "2024-01-01" then some (1000 * day) else none

abbrev seen_at : String → DetailsRelay
seen_at date = record {
  fingerprint = "A";
  country = "us";
  observed_bandwidth = pos (2 ^ 24);
  flags = "Fast" ∷ "Exit" ∷ [];
  first_seen = date;
}

abbrev relays : List DetailsRelay
relays = seen_at "2024-01-01" ∷ seen_at "?" ∷ []

scores :
    (compute_score ("Fast" ∷ "Stable" ∷ []) (pos 31) (pos (2 ^ 24)) false false ≡ 9)
    × (compute_score [] (pos 3) (pos 0) true true ≡ 0)
unfolding compute_score
scores = (refl, refl)

dirs : (dir_of "/a/b/c.json" ≡ "/a/b") × (dir_of "c.json" ≡ ".")
unfolding dir_of
dirs = (refl, refl)

abbrev keep_order :
    (ExitReputation → ExitReputation → Bool) → List ExitReputation → List ExitReputation
keep_order less rs = rs

filter-fetch_example :
    (rs : List ExitReputation) × (fetch_from_api parse checker
        (1040 * day)
        (response 200 (some relays))
      ≡ some rs)
    × (length rs ≡ 2)
    × All (IsRated checker) rs
    × IsPermutation (filter keep_order checker rs) (keep (is_settled checker) rs)
filter-fetch_example = filter-fetch parse keep_order (λ less rs p. refl) checker (1040 * day) relays

abbrev old_us : ExitReputation
old_us = record {
  fingerprint = "B";
  country = "US";
  uptime_days = pos 40;
  bandwidth = pos (2 ^ 21);
  flags = [];
  is_flagged = false;
  is_new = false;
  score = 6;
}

-- A cache of long ago.
abbrev old_file : CacheFile
old_file = stored (record { fetched_at = 0; entries = ("US", old_us ∷ []) ∷ [] })

check_revives_example :
    let file' =
      (check parse checker (1000 * day) true (response 200 (some relays)) "de" old_file).1 in
    check parse checker (1000 * day + 5) true request_failed "us" file'
    ≡ (some (old_us ∷ []), file')
unfolding to_upper lookup fetch_from_api
check_revives_example =
    check_revives parse checker (1000 * day) (1000 * day + 5) true (response 200 (some relays))
      request_failed "de" "us" old_file (old_us ∷ []) refl refl (λ h. ground arith) refl
      (omega arith) (omega arith)
