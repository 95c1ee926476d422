-- ===== src/Country/Fetcher.antt =====
-- internal/country/metrics.go: the countries that have relays, from the Tor metrics or from a cache.
-- Times are nanoseconds. What reading the cache file and the request bring are arguments; a map is ranged
-- over in the order that the argument `range` says.
pub mod Codes
pub mod Cache
mod Examples
use Prim.Native.String.{◌++◌ as text_append}
use splitter.Prelude.{
  ℕ, ◌-◌, ◌*◌, ◌^◌, String, Bool, true, false, not, ◌||◌, Option, none, some, List, [], ◌∷◌, ◌++◌,
  str_eq, ltb, ◌==◌, if◌then◌else◌, to_upper, str_leb, sort,
}

pub record CacheEntry : Type 0 where
  pub fetched_at : ℕ
  pub countries : List String

-- What `readCache` finds: no file, a file that cannot be read or parsed, or an entry.
pub data CacheFile : Type 0 where
  missing bad_file : CacheFile
  stored : CacheEntry → CacheFile

pub record MetricsFetcher : Type 0 where
  pub cache_ttl : ℕ
  pub cache_dir : String
  pub metrics_url : String

unfoldable pub new_metrics_fetcher : String → MetricsFetcher
new_metrics_fetcher dir = record {
  cache_ttl = 12 * 3600 * 10 ^ 9;
  cache_dir = dir;
  metrics_url =
      "https://onionoo.torproject.org/details?type=relay&running=true&fields=country,relay_flags";
}

unfoldable pub set_metrics_url : String → MetricsFetcher → MetricsFetcher
set_metrics_url url mf = record mf { metrics_url = url }

pub record OnionooRelay : Type 0 where
  pub country : String
  pub relay_flags : List String

-- A request that fails, or the status of the response and its body where that can be decoded.
pub data Response : Type 0 where
  request_failed : Response
  response : ℕ → Option (List OnionooRelay) → Response

abbrev pub has_relay : List String → Bool
has_relay [] = false
has_relay (flag ∷ flags) =
    let rest = has_relay flags in if str_eq flag "Guard" || str_eq flag "Exit" then true else rest

abbrev pub is_key : String → List String → Bool
is_key c [] = false
is_key c (d ∷ ds) = str_eq c d || is_key c ds

-- `seen[code] = true`
abbrev pub add_key : String → List String → List String
add_key c seen = if is_key c seen then seen else seen ++ c ∷ []

abbrev pub see : OnionooRelay → List String → List String
see relay seen =
    if str_eq relay.country ""
    then seen
    else if not (has_relay relay.relay_flags)
    then seen
    else add_key (to_upper relay.country) seen

abbrev pub see_all : List OnionooRelay → List String → List String
see_all [] seen = seen
see_all (relay ∷ relays) seen = see_all relays (see relay seen)

unfoldable pub fetch_from_api : (List String → List String) → Response → Option (List String)
fetch_from_api range request_failed = none
fetch_from_api range (response status none) = none
fetch_from_api range (response status (some relays)) =
    if not (status == 200) then none else some (sort str_leb (range (see_all relays [])))

unfoldable pub cache_path : MetricsFetcher → String
cache_path mf = text_append mf.cache_dir "/country_cache.json"

-- The file after `writeCache`, which may fail.
unfoldable pub write_cache : Bool → ℕ → List String → CacheFile → CacheFile
write_cache writable now countries file =
    if writable then stored (record { fetched_at = now; countries = countries }) else file

abbrev pub is_fresh : MetricsFetcher → ℕ → CacheEntry → Bool
is_fresh mf now entry = ltb (now - entry.fetched_at) mf.cache_ttl

-- The entry that `readCache` returns, if any.
abbrev pub cached_of : CacheFile → Option CacheEntry
cached_of (stored entry) = some entry
cached_of _ = none

abbrev pub or_stale : Option CacheEntry → Option (List String)
or_stale none = none
or_stale (some entry) = some entry.countries

abbrev pub after_fetch :
    Bool → ℕ → CacheFile → Option (List String) → Option (List String) × CacheFile
after_fetch writable now file none = (or_stale (cached_of file), file)
after_fetch writable now file (some []) = (or_stale (cached_of file), file)
after_fetch writable now file (some (c ∷ cs)) =
    (some (c ∷ cs), write_cache writable now (c ∷ cs) file)

abbrev pub is_fresh_file : MetricsFetcher → ℕ → CacheFile → Bool
is_fresh_file mf now (stored entry) = is_fresh mf now entry
is_fresh_file mf now _ = false

-- The countries, `none` for an error, and the file that is left.
unfoldable pub fetch_countries :
    (List String → List String)
    → MetricsFetcher
    → ℕ
    → Bool
    → Response
    → CacheFile
    → Option (List String) × CacheFile
fetch_countries range mf now writable answer file =
    if is_fresh_file mf now file
    then (or_stale (cached_of file), file)
    else after_fetch writable now file (fetch_from_api range answer)
