-- ===== src/Country/Fetcher/Cache.antt =====
-- internal/country/metrics.go: when the cache is used.
use splitter.Prelude.{
  ℕ, ◌+◌, ◌-◌, ◌≤◌, ◌<◌, String, ◌≡◌, refl, ◌≢◌, ◌⊎◌, inl, inr, Bool, true, false, Option, none,
  some, List, [], ◌∷◌, arith, ltb, Bool-cases,
}
use splitter.Country.Fetcher.{
  CacheFile, missing, bad_file, stored, MetricsFetcher, Response, fetch_from_api, write_cache,
  cached_of, or_stale, is_fresh_file, after_fetch, fetch_countries,
}

-- What the request brings that is of use.
abbrev pub brought_of : Option (List String) → List String
brought_of none = []
brought_of (some cs) = cs

abbrev pub fetched : (List String → List String) → Response → List String
fetched range answer = brought_of (fetch_from_api range answer)

after_fetch_lem :
    (writable : Bool) (now : ℕ) (file : CacheFile) (o : Option (List String))
    → let (result, file') = after_fetch writable now file o in
      let brought = brought_of o in
      ((brought ≡ []) × (result ≡ or_stale (cached_of file)) × (file' ≡ file))
      ⊎ ((brought ≢ []) × (result ≡ some brought) × (file' ≡ write_cache writable now brought file))
after_fetch_lem writable now file none = inl (refl, refl, refl)
after_fetch_lem writable now file (some []) = inl (refl, refl, refl)
after_fetch_lem writable now file (some (c ∷ cs)) = inr ((λ h. ground arith), refl, refl)

-- There is no entry, or one that is as old as the fetcher's limit.
abbrev pub IsOld : MetricsFetcher → ℕ → CacheFile → Type 0
IsOld mf now (stored entry) = entry.fetched_at + mf.cache_ttl ≤ now
IsOld mf now _ = Unit

old_lem :
    (mf : MetricsFetcher) (now : ℕ) (file : CacheFile)
    → IsOld mf now file
    → is_fresh_file mf now file ≡ false
old_lem mf now missing h = refl
old_lem mf now bad_file h = refl
old_lem mf now (stored entry) h = ground arith

-- Where there is no entry, or one as old as the limit, a fetch that brings countries returns them; and if
-- it can write the file, each later fetch returns the same countries and leaves the file, whatever its
-- request brings until the new entry is as old as the limit, and from then on where its request brings
-- nothing.
pub fetch_countries_again :
    (range : List String → List String) (mf : MetricsFetcher) (now later : ℕ) (writable : Bool)
    (answer answer' : Response) (file : CacheFile)
    → IsOld mf now file
    → fetched range answer ≢ []
    → now ≤ later
    → (later < now + mf.cache_ttl) ⊎ (fetched range answer' ≡ [])
    → let (result, file') = fetch_countries range mf now true answer file in
      (result ≡ some (fetched range answer))
      × (fetch_countries range mf later writable answer' file' ≡ (result, file'))
unfolding fetch_countries write_cache
fetch_countries_again range mf now later writable answer answer' file old some_brought after end =
    let stale = old_lem mf now file old in
    rw stale (elim (after_fetch_lem true now file (fetch_from_api range answer)) [
      | inl (none_brought, _, _) ↦ absurd (some_brought none_brought)
      | inr (_, result, written) ↦
          let brought = fetched range answer in
          let kept : CacheFile = stored (record { fetched_at = now; countries = brought }) in
          let again : fetch_countries range mf later writable answer' kept ≡ (some brought, kept) =
            elim (Bool-cases (ltb (later - now) mf.cache_ttl)) [
              | inl e ↦ rw (e, fetch_countries) refl
              | inr e ↦ elim end [
                | inl soon ↦ absurd (ground arith)
                | inr nothing ↦
                    rw (e, fetch_countries)
                      (elim (after_fetch_lem writable later kept (fetch_from_api range answer')) [
                        | inl (_, same, left) ↦ λ i. (same i, left i)
                        | inr (some_new, _, _) ↦ absurd (some_new nothing)
                      ])
              ]
            ] in
          rw result (rw written (refl, again))
    ])
