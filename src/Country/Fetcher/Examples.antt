-- ===== src/Country/Fetcher/Examples.antt =====
-- internal/country/metrics.go on concrete inputs.
use splitter.Prelude.{
  ◌*◌, ◌^◌, String, ◌≡◌, refl, inr, true, some, List, [], ◌∷◌, arith, str_eq, if◌then◌else◌,
  to_upper, count, str_leb, IsSorted,
}
use splitter.Country.Fetcher.{
  CacheFile, stored, MetricsFetcher, OnionooRelay, request_failed, response, fetch_from_api,
  fetch_countries,
}
use splitter.Country.Fetcher.Codes.{any_serves, fetch_from_api_lem}
use splitter.Country.Fetcher.Cache.{fetched, fetch_countries_again}

abbrev relays : List OnionooRelay
relays =
    record { country = "us"; relay_flags = "Fast" ∷ "Exit" ∷ [] }
    ∷ record { country = "de"; relay_flags = "Guard" ∷ [] }
    ∷ record { country = "us"; relay_flags = "Guard" ∷ [] }
    ∷ record { country = "fr"; relay_flags = "Fast" ∷ [] }
    ∷ []

abbrev same_order : List String → List String
same_order xs = xs

runs : fetch_from_api same_order (response 200 (some relays)) ≡ some ("DE" ∷ "US" ∷ [])
unfolding fetch_from_api to_upper str_leb
runs = refl

fetch_from_api_lem_example :
    (countries : List String) × (fetch_from_api same_order (response 200 (some relays))
      ≡ some countries)
    × IsSorted str_leb countries
    × ((c : String) → count (λ d. str_eq c d) countries ≡ (if any_serves c relays then 1 else 0))
fetch_from_api_lem_example = fetch_from_api_lem same_order (λ xs p. refl) relays

abbrev fetcher : MetricsFetcher
fetcher = record {
  cache_ttl = 12 * 3600 * 10 ^ 9;
  cache_dir = "/tmp";
  metrics_url = "http://localhost";
}

abbrev old : CacheFile
old = stored (record { fetched_at = 1000; countries = "SE" ∷ [] })

-- The request of the first fetch brings countries, those of the second fails a day later.
fetch_countries_again_example :
    let first =
      fetch_countries same_order fetcher (10 ^ 15) true (response 200 (some relays)) old in
    (first.0 ≡ some (fetched same_order (response 200 (some relays))))
    × (fetch_countries same_order fetcher (2 * 10 ^ 15) true request_failed first.1 ≡ first)
unfolding fetch_from_api to_upper str_leb
fetch_countries_again_example =
    fetch_countries_again same_order fetcher (10 ^ 15) (2 * 10 ^ 15) true
      (response 200 (some relays)) request_failed old (omega arith) (λ h. ground arith)
      (omega arith) (inr refl)
