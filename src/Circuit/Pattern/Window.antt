-- ===== src/Circuit/Pattern/Window.antt =====
-- internal/circuit: the window of a traffic pattern, and the intervals.
use splitter.Prelude.{
  ℕ, ◌+◌, ◌-◌, ◌*◌, ◌≤◌, ◌<◌, min, ◌≡◌, refl, ◌∙◌, ◌↔◌, inl, inr, Bool, true, List, [], ◌∷◌, ◌++◌,
  append_assoc, append-nil, arith, ltb, leb, Bool-cases, length, keep, ℤ, leb_ℤ, count,
  length-keep-count, pos,
}
use splitter.Country.Rotation.{IsDraw}
use splitter.Circuit.Pattern.{
  TrafficPattern, new_traffic_pattern, is_old, skip_old, prune_locked, record_request, is_burst,
  Rate, second, rate_of, request_rate, random_interval, Clock, Mode, aggressive, moderate, idle,
  fixed, by_rate, adaptive_interval,
}

-- Times that do not decrease, the first of them not before `from`.
abbrev pub IsOrdered : ℕ → List ℕ → Type 0
IsOrdered from [] = Unit
IsOrdered from (t ∷ ts) = (from ≤ t) × IsOrdered t ts

abbrev pub latest : ℕ → List ℕ → ℕ
latest from [] = from
latest from (t ∷ ts) = latest t ts

abbrev pub record_all : List ℕ → TrafficPattern → TrafficPattern
record_all [] tp = tp
record_all (t ∷ ts) tp = record_all ts (record_request t tp)

abbrev pub is_recent : ℕ → ℕ → ℕ → Bool
is_recent window now t = leb now (t + window)

IsOrdered-weaken : (a b : ℕ) (ts : List ℕ) → a ≤ b → IsOrdered b ts → IsOrdered a ts
IsOrdered-weaken a b [] h o = tt
IsOrdered-weaken a b (t ∷ ts) h (k, o) = (omega arith, o)

keep_all :
    (window now from : ℕ) (ts : List ℕ)
    → now ≤ from + window
    → IsOrdered from ts
    → keep (is_recent window now) ts ≡ ts
keep_all window now from [] h o = refl
keep_all window now from (t ∷ ts) h (k, o) =
    let rest = keep_all window now t ts (omega arith) o in ground (arith, rest)

skip_keep :
    (window now from : ℕ) (ts : List ℕ)
    → IsOrdered from ts
    → skip_old window now ts ≡ keep (is_recent window now) ts
skip_keep window now from [] o = refl
skip_keep window now from (t ∷ ts) (k, o) = elim (Bool-cases (is_old window now t)) [
  | inl e ↦ let rest = skip_keep window now t ts o in ground (arith, rest)
  | inr e ↦ let rest = keep_all window now t ts (ground arith) o in ground (arith, rest)
]

keep_later :
    (window a b : ℕ) (ts : List ℕ)
    → a ≤ b
    → keep (is_recent window b) (keep (is_recent window a) ts) ≡ keep (is_recent window b) ts
keep_later window a b [] h = refl
keep_later window a b (t ∷ ts) h = let rest = keep_later window a b ts h in ground (arith, rest)

keep_append : (p : ℕ → Bool) (xs ys : List ℕ) → keep p (xs ++ ys) ≡ keep p xs ++ keep p ys
keep_append p [] ys = refl
keep_append p (x ∷ xs) ys = elim (Bool-cases (p x)) [
  | inl e ↦ rw e (rw (keep_append p xs ys) refl)
  | inr e ↦ rw e (keep_append p xs ys)
]

IsOrdered-keep :
    (p : ℕ → Bool) (from : ℕ) (ts : List ℕ) → IsOrdered from ts → IsOrdered from (keep p ts)
IsOrdered-keep p from [] o = tt
IsOrdered-keep p from (t ∷ ts) (k, o) = elim (Bool-cases (p t)) [
  | inl e ↦ rw e (k, IsOrdered-keep p t ts o)
  | inr e ↦ rw e (IsOrdered-weaken from t (keep p ts) k (IsOrdered-keep p t ts o))
]

IsOrdered-append :
    (from now : ℕ) (ts : List ℕ)
    → IsOrdered from ts
    → latest from ts ≤ now
    → IsOrdered from (ts ++ now ∷ [])
IsOrdered-append from now [] o h = (h, tt)
IsOrdered-append from now (t ∷ ts) (k, o) h = (k, IsOrdered-append t now ts o h)

latest_above : (from : ℕ) (ts : List ℕ) → IsOrdered from ts → from ≤ latest from ts
latest_above from [] o = omega arith
latest_above from (t ∷ ts) (k, o) = omega (arith, latest_above t ts o)

latest_append : (from now : ℕ) (ts : List ℕ) → latest from (ts ++ now ∷ []) ≡ now
latest_append from now [] = refl
latest_append from now (t ∷ ts) = latest_append t now ts

pruned :
    (window last now : ℕ) (seen : List ℕ)
    → IsOrdered 0 seen
    → last ≤ now
    → skip_old window now (keep (is_recent window last) seen) ≡ keep (is_recent window now) seen
pruned window last now seen o h =
    skip_keep window now 0 (keep (is_recent window last) seen)
      (IsOrdered-keep (is_recent window last) 0 seen o)
    ∙ keep_later window last now seen h

recorded :
    (window last now : ℕ) (seen : List ℕ)
    → IsOrdered 0 seen
    → latest 0 seen ≤ last
    → last ≤ now
    → skip_old window now (keep (is_recent window last) seen ++ now ∷ [])
      ≡ keep (is_recent window now) (seen ++ now ∷ [])
recorded window last now seen o k h =
    let one : keep (is_recent window last) (now ∷ []) ≡ now ∷ [] = ground arith in
    let both : keep (is_recent window last) (seen ++ now ∷ [])
        ≡ keep (is_recent window last) seen ++ now ∷ [] =
      rw (keep_append (is_recent window last) seen (now ∷ [])) (rw one refl) in
    rw both at
      (pruned window last now (seen ++ now ∷ []) (IsOrdered-append 0 now seen o (omega arith)) h)

-- A pattern that holds the recent ones of the requests seen.
abbrev holding : ℕ → ℤ → ℕ → List ℕ → TrafficPattern
holding window threshold last seen = record {
  request_times = keep (is_recent window last) seen;
  window_size = window;
  burst_threshold = threshold;
}

record_holding :
    (window : ℕ) (threshold : ℤ) (last now : ℕ) (seen : List ℕ)
    → IsOrdered 0 seen
    → latest 0 seen ≤ last
    → last ≤ now
    → record_request now (holding window threshold last seen)
      ≡ holding window threshold now (seen ++ now ∷ [])
unfolding record_request prune_locked
record_holding window threshold last now seen o k h = rw (recorded window last now seen o k h) refl

record_all_lem :
    (window : ℕ) (threshold : ℤ) (last : ℕ) (seen ts : List ℕ)
    → IsOrdered 0 seen
    → latest 0 seen ≤ last
    → IsOrdered last ts
    → record_all ts (holding window threshold last seen)
      ≡ holding window threshold (latest last ts) (seen ++ ts)
record_all_lem window threshold last seen [] o k h = rw (append-nil seen) refl
record_all_lem window threshold last seen (t ∷ ts) o k (m, h) =
    rw (record_holding window threshold last t seen o k m) (
      rw
        (record_all_lem window threshold t (seen ++ t ∷ []) ts
          (IsOrdered-append 0 t seen o (omega arith)) (rw (latest_append 0 t seen) (omega arith)) h)
        (rw (append_assoc seen (t ∷ []) ts) refl))

-- With requests recorded at times that do not decrease, `IsBurst` at a later time says whether those of
-- the requests that lie at most the window before it are as many as the threshold or more; `RequestRate`
-- counts the same requests, whatever the second time that it reads.
pub is_burst_lem :
    (window : ℕ) (threshold : ℤ) (ts : List ℕ)
    → IsOrdered 0 ts
    → (now later : ℕ) → latest 0 ts ≤ now
    → let tp = record_all ts (new_traffic_pattern window threshold) in
      let recent = count (is_recent window now) ts in
      ((is_burst now tp).0 ≡ leb_ℤ threshold (pos recent))
      × ((request_rate now later tp).0.requests ≡ recent)
unfolding new_traffic_pattern is_burst request_rate prune_locked
is_burst_lem window threshold ts o now later h =
    let all = record_all_lem window threshold 0 [] ts tt (omega arith) o in
    let kept = pruned window (latest 0 ts) now ts o h in
    let many = length-keep-count (is_recent window now) ts in
    (
      rw all (rw kept (rw many refl)),
      rw all (rw kept (requests_lem (keep (is_recent window now) ts) later ∙ many)),
    )
  where
    requests_lem : (times : List ℕ) (later : ℕ) → (rate_of later times).requests ≡ length times
    requests_lem [] later = refl
    requests_lem (t ∷ ts) later = ground arith

random_interval_bounds :
    (int64n : ℕ → ℕ)
    → IsDraw int64n
    → (min max : ℕ) → min < max
    → (min ≤ random_interval int64n min max) × (random_interval int64n min max < max)
unfolding random_interval
random_interval_bounds int64n h min max k = let below = h (max - min) (omega arith) in ground arith

-- What each mode promises of an interval, in seconds.
abbrev pub IsInterval : ℕ → Mode → Type 0
IsInterval interval aggressive = (3 * second ≤ interval) × (interval < 7 * second)
IsInterval interval moderate = (10 * second ≤ interval) × (interval < 20 * second)
IsInterval interval idle = (20 * second ≤ interval) × (interval < 60 * second)
IsInterval interval fixed = ⊥

by_rate_lem :
    (int64n : ℕ → ℕ)
    → IsDraw int64n
    → (rate : Rate) → IsInterval (by_rate int64n rate).0 (by_rate int64n rate).1
by_rate_lem int64n h rate =
    elim (Bool-cases (ltb rate.nanoseconds (rate.requests * (10 * second)))) [
      | inl e ↦ rw e (random_interval_bounds int64n h (10 * second) (20 * second) (omega arith))
      | inr e ↦ rw e (random_interval_bounds int64n h (20 * second) (60 * second) (omega arith))
    ]

-- With draws below their bound, an adaptive interval lies in the range of the mode that comes with it:
-- 3 to 7 seconds when aggressive, 10 to 20 when moderate, 20 to 60 when idle. The mode is aggressive
-- when and only when there is a burst. The minimum and the maximum of the instance change nothing.
pub adaptive_interval_bounds :
    (int64n : ℕ → ℕ)
    → IsDraw int64n
    → (clock : Clock) (pattern : TrafficPattern) (base_min base_max : ℕ)
    → let result = adaptive_interval int64n clock pattern base_min base_max in
      IsInterval result.0.0 result.0.1
      × (((is_burst clock.burst_at pattern).0 ≡ true) ↔ (result.0.1 ≡ aggressive))
      × (result ≡ adaptive_interval int64n clock pattern 0 0)
unfolding adaptive_interval
adaptive_interval_bounds int64n h clock pattern base_min base_max =
    elim (Bool-cases (is_burst clock.burst_at pattern).0) [
      | inl e ↦ (
        rw e (random_interval_bounds int64n h (3 * second) (7 * second) (omega arith)),
        rw e (ground arith),
        refl,
      )
      | inr e ↦ (
        rw e (
            by_rate_lem int64n h
              (request_rate clock.rate_at clock.elapsed_at (is_burst clock.burst_at pattern).1).0),
        rw e (ground arith),
        refl,
      )
    ]
