-- ===== src/Health/Reputation/Cached.antt =====
-- internal/health/reputation.go: the cache, one file for the entries of all countries.
use splitter.Prelude.{
  ℕ, ◌+◌, ◌-◌, ◌≤◌, ◌<◌, String, ◌≡◌, refl, sym, ◌∙◌, ◌≢◌, ◌⊎◌, inl, inr, Bool, true, false, ◌&&◌,
  Option, none, some, List, [], ◌∷◌, arith, str_eq, str_eq_iff, ltb, is_some, Bool-cases, to_upper,
  str_eq_refl,
}
use splitter.Health.Reputation.{
  ExitReputation, Entries, CacheFile, ReputationChecker, Response, fetch_from_api, lookup, put,
  cached_of, entries_of, write_cache, stale_entry, is_recent, after_fetch, check,
}

lookup-put :
    (k : String) (v : List ExitReputation) (entries : Entries) → lookup k (put k v entries) ≡ some v
unfolding lookup put
lookup-put k v [] = rw (str_eq_refl k) refl
lookup-put k v ((k', v') ∷ rest) = elim (Bool-cases (str_eq k k')) [
  | inl e ↦ rw e (rw (str_eq_refl k) refl)
  | inr e ↦ rw e (rw e (lookup-put k v rest))
]

lookup-put_other :
    (j k : String) (v : List ExitReputation) (entries : Entries)
    → str_eq j k ≡ false
    → lookup j (put k v entries) ≡ lookup j entries
unfolding lookup put
lookup-put_other j k v [] h = rw h refl
lookup-put_other j k v ((k', v') ∷ rest) h = elim (Bool-cases (str_eq k k')) [
  | inl e ↦
      let same : k ≡ k' = (str_eq_iff k k').0 e in
      let away : str_eq j k' ≡ false = rw same at h in rw e (rw h (rw away refl))
  | inr e ↦ rw e (rw (lookup-put_other j k v rest h) refl)
]

abbrev pub brought_of : Option (List ExitReputation) → List ExitReputation
brought_of none = []
brought_of (some rs) = rs

after_fetch_lem :
    (writable : Bool) (now : ℕ) (country : String) (file : CacheFile)
    (o : Option (List ExitReputation))
    → let (result, file') = after_fetch writable now country file o in
      let brought = brought_of o in
      ((brought ≡ []) × (result ≡ stale_entry country file) × (file' ≡ file))
      ⊎ ((brought ≢ [])
          × (result ≡ some brought)
          × (file' ≡ write_cache writable now country brought file))
after_fetch_lem writable now country file none = inl (refl, refl, refl)
after_fetch_lem writable now country file (some []) = inl (refl, refl, refl)
after_fetch_lem writable now country file (some (r ∷ rs)) = inr ((λ h. ground arith), refl, refl)

-- An entry of the country that is recent is returned, whatever the request would bring. Otherwise,
-- where the request brings no relays an entry of the country of any age is returned, and an error if
-- there is none; and where it brings some their reputations are returned, and the cache holds them, next
-- to the other countries' entries, if it can be written. An error means that the country has no entry
-- and that the request has brought nothing.
pub check_lem :
    (parse : String → String → Option ℕ) (rc : ReputationChecker) (now : ℕ) (writable : Bool)
    (answer : Response) (country : String) (file : CacheFile)
    → let upper = to_upper country in
      let (result, file') = check parse rc now writable answer country file in
      let brought = brought_of (fetch_from_api parse rc now answer) in
      let used = is_some (stale_entry upper file) && is_recent rc now file in
      ((used ≡ true) × (result ≡ stale_entry upper file) × (file' ≡ file)
        ⊎ (used ≡ false) × (brought ≡ []) × (result ≡ stale_entry upper file) × (file' ≡ file)
        ⊎ (used ≡ false)
          × (brought ≢ [])
          × (result ≡ some brought)
          × (file' ≡ write_cache writable now upper brought file))
      × (result ≡ none → (stale_entry upper file ≡ none) × (brought ≡ []))
unfolding check
check_lem parse rc now writable answer country file =
    let upper = to_upper country in
    elim (Bool-cases (is_some (stale_entry upper file) && is_recent rc now file)) [
      | inl e ↦ rw e (
        inl (refl, refl, refl),
        λ h.
            absurd (let bad : is_some (stale_entry upper file) ≡ false = rw h refl in ground arith),
      )
      | inr e ↦
          rw e
            (elim (after_fetch_lem writable now upper file (fetch_from_api parse rc now answer)) [
              | inl (none_brought, result, same) ↦ (
                inr (inl (refl, none_brought, result, same)),
                λ h. (sym result ∙ h, none_brought),
              )
              | inr (brought, result, written) ↦ (
                inr (inr (refl, brought, result, written)),
                λ h. absurd (let bad = sym result ∙ h in ground arith),
              )
            ])
    ]

-- Where a check of one country asks for its relays, gets some and writes the cache, an entry of another
-- country counts as fetched then: whatever its age, checks of that country return it without a request,
-- from then on until the limit of the cache has passed once more.
pub check_revives :
    (parse : String → String → Option ℕ) (rc : ReputationChecker) (now later : ℕ) (writable : Bool)
    (answer answer' : Response) (country other : String) (file : CacheFile)
    (old : List ExitReputation)
    → str_eq (to_upper other) (to_upper country) ≡ false
    → (is_some (stale_entry (to_upper country) file) && is_recent rc now file) ≡ false
    → brought_of (fetch_from_api parse rc now answer) ≢ []
    → stale_entry (to_upper other) file ≡ some old
    → now ≤ later
    → later < now + rc.cache_ttl
    → let file' = (check parse rc now true answer country file).1 in
      check parse rc later writable answer' other file' ≡ (some old, file')
unfolding check write_cache
check_revives parse rc now later writable answer answer' country other file old apart asks gets at
      after soon =
    rw asks
      (elim (after_fetch_lem true now (to_upper country) file
        (fetch_from_api parse rc now answer)) [
          | inl (none_brought, _, _) ↦ absurd (gets none_brought)
          | inr (_, _, written) ↦
              let fresh : ltb (later - now) rc.cache_ttl ≡ true = ground arith in
              let kept =
                lookup-put_other (to_upper other) (to_upper country)
                  (brought_of (fetch_from_api parse rc now answer)) (entries_of (cached_of file))
                  apart in
              rw written (rw fresh (rw (kept ∙ at) refl))
        ])
