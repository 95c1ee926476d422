-- ===== src/Health/Reputation.antt =====
-- internal/health/reputation.go: the exit relays of a country, rated, from Tor's directory or a cache.
-- Times are nanoseconds since a moment before any that is named. A score is kept in tenths, where the
-- code adds floats; a map is a list of keys and values. What reading the cache file and the request bring
-- are arguments, and so are `time.Parse` and `sort.Slice`.
pub mod Rating
pub mod Cached
mod Examples
use Prim.Native.Char.{Char, code}
use Prim.Native.String.{◌++◌ as text_append}
use splitter.Prelude.{
  ℕ, ◌+◌, ◌-◌, ◌*◌, ◌/◌, ◌^◌, min, String, Bool, false, not, ◌&&◌, ◌||◌, Option, none, some, List,
  [], ◌∷◌, map, str_eq, ltb, ◌==◌, if◌then◌else◌, is_some, keep, ℤ, ltb_ℤ, to_upper, to_lower, pos,
}

pub record ExitReputation : Type 0 where
  pub fingerprint : String
  pub country : String
  pub uptime_days : ℤ
  pub bandwidth : ℤ
  pub flags : List String
  pub is_flagged : Bool
  pub is_new : Bool
  pub score : ℕ

abbrev pub Entries : Type 0
Entries = List (String × List ExitReputation)

pub record ReputationCache : Type 0 where
  pub fetched_at : ℕ
  pub entries : Entries

-- What `readCache` finds: no file, a file that cannot be read or parsed, or a cache.
pub data CacheFile : Type 0 where
  missing bad_file : CacheFile
  stored : ReputationCache → CacheFile

pub record ReputationChecker : Type 0 where
  pub min_uptime : ℤ
  pub min_bandwidth : ℤ
  pub cache_ttl : ℕ
  pub cache_path : String
  pub api_url : String

unfoldable pub new_reputation_checker : String → ReputationChecker
new_reputation_checker path = record {
  min_uptime = pos 7;
  min_bandwidth = pos (2 ^ 20);
  cache_ttl = 12 * 3600 * 10 ^ 9;
  cache_path = path;
  api_url = "https://onionoo.torproject.org/details";
}

unfoldable pub set_api_url : String → ReputationChecker → ReputationChecker
set_api_url url rc = record rc { api_url = url }

pub record DetailsRelay : Type 0 where
  pub fingerprint : String
  pub country : String
  pub observed_bandwidth : ℤ
  pub flags : List String
  pub first_seen : String

-- A request that fails, or the status of the response and its body where that can be decoded.
pub data Response : Type 0 where
  request_failed : Response
  response : ℕ → Option (List DetailsRelay) → Response

abbrev pub has_flag : String → List String → Bool
has_flag name [] = false
has_flag name (f ∷ fs) = str_eq f name || has_flag name fs

abbrev tenth_if : Bool → ℕ
tenth_if b = if b then 1 else 0

-- The score before the deductions.
abbrev pub base_score : List String → ℤ → ℤ → ℕ
base_score flags uptime bandwidth =
    5
    + tenth_if (has_flag "Stable" flags)
    + tenth_if (has_flag "Fast" flags)
    + tenth_if (ltb_ℤ (pos 30) uptime)
    + tenth_if (ltb_ℤ (pos (10 * 2 ^ 20)) bandwidth)

-- A score below 0 becomes 0: the deductions stop there.
unfoldable pub compute_score : List String → ℤ → ℤ → Bool → Bool → ℕ
compute_score flags uptime bandwidth is_flagged is_new =
    let deducted =
      base_score flags uptime bandwidth
      - (if is_flagged then 5 else 0)
      - (if is_new then 3 else 0) in
    if ltb 10 deducted then 10 else deducted

-- A duration is at most the largest of 64 bits; whole days are counted, and none before the date.
abbrev pub days_until : ℕ → ℕ → ℕ
days_until now t = min (now - t) (2 ^ 63 - 1) / (24 * 3600 * 10 ^ 9)

unfoldable pub days_since_first_seen : (String → String → Option ℕ) → ℕ → String → ℕ
days_since_first_seen parse now seen = elim (parse "2006-01-02" seen) [
  | some t ↦ days_until now t
  | none ↦ elim (parse "2006-01-02 15:04:05" seen) [ some t ↦ days_until now t | none ↦ 0 ]
]

unfoldable pub rate_relay :
    (String → String → Option ℕ) → ReputationChecker → ℕ → DetailsRelay → ExitReputation
rate_relay parse rc now relay =
    let days = pos (days_since_first_seen parse now relay.first_seen) in
    let is_new = ltb_ℤ days rc.min_uptime in
    record {
      fingerprint = relay.fingerprint;
      country = to_upper relay.country;
      uptime_days = days;
      bandwidth = relay.observed_bandwidth;
      flags = relay.flags;
      is_flagged = false;
      is_new = is_new;
      score = compute_score relay.flags days relay.observed_bandwidth false is_new;
    }

-- The URL that is asked for, and what comes of the response.
unfoldable pub request_url : ReputationChecker → String → String
request_url rc country =
    text_append rc.api_url
      (text_append "?type=relay&running=true&flag=Exit&country=" (to_lower country))

unfoldable pub fetch_from_api :
    (String → String → Option ℕ) → ReputationChecker → ℕ → Response → Option (List ExitReputation)
fetch_from_api parse rc now request_failed = none
fetch_from_api parse rc now (response status none) = none
fetch_from_api parse rc now (response status (some relays)) =
    if not (status == 200) then none else some (map (rate_relay parse rc now) relays)

abbrev pub passes : ReputationChecker → ExitReputation → Bool
passes rc r =
    if r.is_flagged
    then false
    else if r.is_new
    then false
    else if ltb_ℤ r.uptime_days rc.min_uptime
    then false
    else not (ltb_ℤ r.bandwidth rc.min_bandwidth)

abbrev pub higher_score : ExitReputation → ExitReputation → Bool
higher_score a b = ltb b.score a.score

unfoldable pub filter :
    ((ExitReputation → ExitReputation → Bool) → List ExitReputation → List ExitReputation)
    → ReputationChecker
    → List ExitReputation
    → List ExitReputation
filter sort_slice rc reputations = sort_slice higher_score (keep (passes rc) reputations)

unfoldable pub lookup : String → Entries → Option (List ExitReputation)
lookup k [] = none
lookup k ((k', v) ∷ rest) = let found = lookup k rest in if str_eq k k' then some v else found

unfoldable pub put : String → List ExitReputation → Entries → Entries
put k v [] = (k, v) ∷ []
put k v ((k', v') ∷ rest) =
    let rest' = put k v rest in if str_eq k k' then (k, v) ∷ rest else (k', v') ∷ rest'

-- The cache that `readCache` returns, if any.
abbrev pub cached_of : CacheFile → Option ReputationCache
cached_of (stored cache) = some cache
cached_of _ = none

abbrev pub entries_of : Option ReputationCache → Entries
entries_of none = []
entries_of (some cache) = cache.entries

-- The file after `writeCache`, which may fail.
unfoldable pub write_cache : Bool → ℕ → String → List ExitReputation → CacheFile → CacheFile
write_cache writable now country reputations file =
    if writable
    then stored (record {
      fetched_at = now;
      entries = put country reputations (entries_of (cached_of file));
    })
    else file

-- The entry of a country, and whether it is used without a request.
abbrev pub stale_entry : String → CacheFile → Option (List ExitReputation)
stale_entry country file = lookup country (entries_of (cached_of file))

abbrev pub is_recent : ReputationChecker → ℕ → CacheFile → Bool
is_recent rc now (stored cache) = ltb (now - cache.fetched_at) rc.cache_ttl
is_recent rc now _ = false

abbrev pub after_fetch :
    Bool
    → ℕ
    → String
    → CacheFile
    → Option (List ExitReputation)
    → Option (List ExitReputation) × CacheFile
after_fetch writable now country file none = (stale_entry country file, file)
after_fetch writable now country file (some []) = (stale_entry country file, file)
after_fetch writable now country file (some (r ∷ rs)) =
    (some (r ∷ rs), write_cache writable now country (r ∷ rs) file)

-- The reputations, `none` for an error, and the file that is left.
unfoldable pub check :
    (String → String → Option ℕ)
    → ReputationChecker
    → ℕ
    → Bool
    → Response
    → String
    → CacheFile
    → Option (List ExitReputation) × CacheFile
check parse rc now writable answer country file =
    let upper = to_upper country in
    if is_some (stale_entry upper file) && is_recent rc now file
    then (stale_entry upper file, file)
    else after_fetch writable now upper file (fetch_from_api parse rc now answer)

-- `path[:LastIndex(path, "/")]`: the text before the last separator, if there is one.
abbrev pub before_last : Char → String → Option String
before_last p String.[] = none
before_last p (String.◌∷◌ c s) =
    let rest = before_last p s in
    elim rest [ some t ↦ some (String.◌∷◌ c t) | none ↦ if code c == code p then some "" else none ]

unfoldable pub dir_of : String → String
dir_of path = elim (before_last "/" path) [ none ↦ "." | some dir ↦ dir ]
