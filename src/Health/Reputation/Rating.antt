-- ===== src/Health/Reputation/Rating.antt =====
-- internal/health/reputation.go: what the ratings of fetched relays say, and which of them pass.
use splitter.Prelude.{
  ℕ, ◌≤◌, String, ◌≡◌, refl, ap, ◌∙◌, Bool, false, not, ◌&&◌, Option, some, List, [], ◌∷◌, map,
  arith, length, keep, length-map, All, ℤ, ◌≤ℤ◌, ltb_ℤ, count, IsPermutation, pos,
}
use splitter.Health.Reputation.{
  ExitReputation, ReputationChecker, DetailsRelay, response, compute_score, rate_relay,
  fetch_from_api, passes, higher_score, filter, days_since_first_seen,
}

score_bounds :
    (flags : List String) (uptime bandwidth : ℤ) (flagged new : Bool)
    → (compute_score flags uptime bandwidth flagged new ≤ 9)
      × (flagged ≡ false → 2 ≤ compute_score flags uptime bandwidth flagged new)
      × (flagged ≡ false → new ≡ false → 5 ≤ compute_score flags uptime bandwidth flagged new)
unfolding compute_score
score_bounds flags uptime bandwidth flagged new = ground arith

-- A rating as it comes from the request.
abbrev pub IsRated : ReputationChecker → ExitReputation → Type 0
IsRated rc r =
    (r.is_flagged ≡ false)
    × (r.is_new ≡ ltb_ℤ r.uptime_days rc.min_uptime)
    × (pos 0 ≤ℤ r.uptime_days)
    × (2 ≤ r.score)
    × (r.score ≤ 9)
    × (r.is_new ≡ false → 5 ≤ r.score)

rate_relay-IsRated :
    (parse : String → String → Option ℕ) (rc : ReputationChecker) (now : ℕ) (relay : DetailsRelay)
    → IsRated rc (rate_relay parse rc now relay)
unfolding rate_relay
rate_relay-IsRated parse rc now relay =
    let days = pos (days_since_first_seen parse now relay.first_seen) in
    let (high, low, settled) =
      score_bounds relay.flags days relay.observed_bandwidth false (ltb_ℤ days rc.min_uptime) in
    (refl, refl, omega arith, low refl, high, settled refl)

All-IsRated :
    (parse : String → String → Option ℕ) (rc : ReputationChecker) (now : ℕ)
    (relays : List DetailsRelay)
    → All (IsRated rc) (map (rate_relay parse rc now) relays)
All-IsRated parse rc now [] = tt
All-IsRated parse rc now (relay ∷ relays) =
    (rate_relay-IsRated parse rc now relay, All-IsRated parse rc now relays)

-- The two tests that are left of the filter's four.
abbrev pub is_settled : ReputationChecker → ExitReputation → Bool
is_settled rc r =
    not (ltb_ℤ r.uptime_days rc.min_uptime) && not (ltb_ℤ r.bandwidth rc.min_bandwidth)

passes-settled :
    (rc : ReputationChecker) (r : ExitReputation) → IsRated rc r → passes rc r ≡ is_settled rc r
passes-settled rc r (unflagged, new, _, _, _, _) = rw unflagged (rw new (ground arith))

keep-settled :
    (rc : ReputationChecker) (rs : List ExitReputation)
    → All (IsRated rc) rs
    → keep (passes rc) rs ≡ keep (is_settled rc) rs
keep-settled rc [] h = refl
keep-settled rc (r ∷ rs) (now, h) = rw (passes-settled rc r now) (rw (keep-settled rc rs h) refl)

-- The reputations of a response are unflagged, new exactly when their days are below the minimum, and
-- rated from 0.2 to 0.9, from 0.5 on when they are not new. With a sort that permutes, the filter
-- returns those of them, each as often, that have the minimum of days and the minimum of bandwidth: it
-- never turns on a flag.
pub filter-fetch :
    (parse : String → String → Option ℕ)
    (sort_slice : (ExitReputation → ExitReputation → Bool)
      → List ExitReputation
      → List ExitReputation)
    → ((less : ExitReputation → ExitReputation → Bool) (rs : List ExitReputation)
        → IsPermutation (sort_slice less rs) rs)
    → (rc : ReputationChecker) (now : ℕ) (relays : List DetailsRelay)
    → (rs : List ExitReputation) × (fetch_from_api parse rc now (response 200 (some relays))
        ≡ some rs)
      × (length rs ≡ length relays)
      × All (IsRated rc) rs
      × IsPermutation (filter sort_slice rc rs) (keep (is_settled rc) rs)
unfolding fetch_from_api filter
filter-fetch parse sort_slice permutes rc now relays =
    let rs = map (rate_relay parse rc now) relays in
    let rated = All-IsRated parse rc now relays in
    (
      rs,
      refl,
      length-map relays (rate_relay parse rc now),
      rated,
      λ p. permutes higher_score (keep (passes rc) rs) p ∙ ap (count p) (keep-settled rc rs rated),
    )
