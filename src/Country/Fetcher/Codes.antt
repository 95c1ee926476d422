-- ===== src/Country/Fetcher/Codes.antt =====
-- internal/country/metrics.go: the codes that the fetched relays give.
use splitter.Prelude.{
  ℕ, ◌+◌, String, ◌≡◌, refl, ◌∙◌, inl, inr, Bool, true, false, not, ◌&&◌, ◌||◌, some, List, [], ◌∷◌,
  ◌++◌, arith, str_eq, str_eq_iff, if◌then◌else◌, Bool-cases, to_upper, count, IsPermutation,
  str_leb, str_leb-IsTotal, sort, IsSorted, sort-IsSorted, sort-IsPermutation,
}
use splitter.Country.Fetcher.{
  OnionooRelay, response, has_relay, is_key, add_key, see, see_all, fetch_from_api,
}

abbrev pub flagged : String → List String → Bool
flagged flag [] = false
flagged flag (f ∷ flags) = str_eq f flag || flagged flag flags

has_relay_lem :
    (flags : List String) → has_relay flags ≡ (flagged "Guard" flags || flagged "Exit" flags)
has_relay_lem [] = refl
has_relay_lem (f ∷ flags) = ground (arith, has_relay_lem flags)

-- A relay with a country that serves as guard or exit, for this country.
abbrev pub serves : String → OnionooRelay → Bool
serves c relay =
    not (str_eq relay.country "")
    && (flagged "Guard" relay.relay_flags || flagged "Exit" relay.relay_flags)
    && str_eq c (to_upper relay.country)

abbrev pub any_serves : String → List OnionooRelay → Bool
any_serves c [] = false
any_serves c (relay ∷ relays) = serves c relay || any_serves c relays

abbrev times : String → List String → ℕ
times c = count (λ d. str_eq c d)

is_key-append :
    (c d : String) (seen : List String) → is_key c (seen ++ d ∷ []) ≡ (is_key c seen || str_eq c d)
is_key-append c d [] = ground arith
is_key-append c d (e ∷ seen) = ground (arith, is_key-append c d seen)

times-append :
    (c d : String) (seen : List String)
    → times c (seen ++ d ∷ []) ≡ times c seen + (if str_eq c d then 1 else 0)
times-append c d [] = omega arith
times-append c d (e ∷ seen) = omega (arith, times-append c d seen)

-- A set: each key once.
abbrev HasOnce : List String → Type 0
HasOnce seen = (c : String) → times c seen ≡ (if is_key c seen then 1 else 0)

same_text : (c d : String) → str_eq c d ≡ true → c ≡ d
same_text c d e = (str_eq_iff c d).0 e

is_key-add :
    (c d : String) (seen : List String) → is_key c (add_key d seen) ≡ (is_key c seen || str_eq c d)
is_key-add c d seen = elim (Bool-cases (is_key d seen)) [
  | inl e ↦ elim (Bool-cases (str_eq c d)) [
    | inl e' ↦ let here : is_key c seen ≡ true = rw (same_text c d e') e in ground arith
    | inr e' ↦ ground arith
  ]
  | inr e ↦ rw e (is_key-append c d seen)
]

add_key-HasOnce : (d : String) (seen : List String) → HasOnce seen → HasOnce (add_key d seen)
add_key-HasOnce d seen h c = elim (Bool-cases (is_key d seen)) [
  | inl e ↦ rw e (h c)
  | inr e ↦ rw e (
      rw (is_key-append c d seen) (
        times-append c d seen ∙ elim (Bool-cases (str_eq c d)) [
          | inl e' ↦
              let absent : is_key c seen ≡ false = rw (same_text c d e') e in
              let none_yet = h c in ground arith
          | inr e' ↦ let before = h c in ground arith
        ]))
]

see-key :
    (c : String) (relay : OnionooRelay) (seen : List String)
    → is_key c (see relay seen) ≡ (is_key c seen || serves c relay)
see-key c relay seen =
    let added = is_key-add c (to_upper relay.country) seen in
    let flags = has_relay_lem relay.relay_flags in ground arith

see-HasOnce : (relay : OnionooRelay) (seen : List String) → HasOnce seen → HasOnce (see relay seen)
see-HasOnce relay seen h = elim (Bool-cases (str_eq relay.country "")) [
  | inl e ↦ rw (e, see) h
  | inr e ↦ elim (Bool-cases (has_relay relay.relay_flags)) [
    | inl e' ↦ rw (e, see) (rw e' (add_key-HasOnce (to_upper relay.country) seen h))
    | inr e' ↦ rw (e, see) (rw e' h)
  ]
]

see_all-key :
    (c : String) (relays : List OnionooRelay) (seen : List String)
    → is_key c (see_all relays seen) ≡ (is_key c seen || any_serves c relays)
see_all-key c [] seen = ground arith
see_all-key c (relay ∷ relays) seen =
    ground (arith, see_all-key c relays (see relay seen), see-key c relay seen)

see_all-HasOnce :
    (relays : List OnionooRelay) (seen : List String) → HasOnce seen → HasOnce (see_all relays seen)
see_all-HasOnce [] seen h = h
see_all-HasOnce (relay ∷ relays) seen h =
    see_all-HasOnce relays (see relay seen) (see-HasOnce relay seen h)

-- However the map is ranged over, the countries of a response that can be decoded are in order, and
-- each is there once: those, in upper case, of the relays that name a country and have the flag `Guard`
-- or `Exit`.
pub fetch_from_api_lem :
    (range : List String → List String)
    → ((xs : List String) → IsPermutation (range xs) xs)
    → (relays : List OnionooRelay)
    → (countries : List String) × (fetch_from_api range (response 200 (some relays))
        ≡ some countries)
      × IsSorted str_leb countries
      × ((c : String) → count (λ d. str_eq c d) countries ≡ (if any_serves c relays then 1 else 0))
unfolding fetch_from_api
fetch_from_api_lem range h relays =
    let seen = see_all relays [] in
    (
      sort str_leb (range seen),
      refl,
      sort-IsSorted str_leb str_leb-IsTotal (range seen),
      λ c.
          sort-IsPermutation str_leb (range seen) (λ d. str_eq c d)
          ∙ h seen (λ d. str_eq c d)
          ∙ see_all-HasOnce relays [] (λ d. refl) c
          ∙ rw (see_all-key c relays []) refl,
    )
