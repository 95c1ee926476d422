-- ===== src/Circuit/Pattern.antt =====
-- internal/circuit/pattern.go and adaptive.go: the requests of the last while, and the interval between
-- two renewals. A time is a number of nanoseconds since the program started, a duration one of
-- nanoseconds, and a rate is kept as a fraction where the code divides floats.
pub mod Window
use splitter.Prelude.{
  ℕ, ◌+◌, ◌-◌, ◌*◌, ◌^◌, min, Bool, List, [], ◌∷◌, ◌++◌, ltb, ◌==◌, if◌then◌else◌, length, ℤ, leb_ℤ,
  pos,
}

pub record TrafficPattern : Type 0 where
  pub request_times : List ℕ
  pub window_size : ℕ
  pub burst_threshold : ℤ

unfoldable pub new_traffic_pattern : ℕ → ℤ → TrafficPattern
new_traffic_pattern window threshold = record {
  request_times = [];
  window_size = window;
  burst_threshold = threshold;
}

-- `t.Before(now.Add(-window))`
abbrev pub is_old : ℕ → ℕ → ℕ → Bool
is_old window now t = ltb (t + window) now

abbrev pub skip_old : ℕ → ℕ → List ℕ → List ℕ
skip_old window now [] = []
skip_old window now (t ∷ ts) =
    let rest = skip_old window now ts in if is_old window now t then rest else t ∷ ts

unfoldable pub prune_locked : ℕ → TrafficPattern → TrafficPattern
prune_locked now tp = record tp { request_times = skip_old tp.window_size now tp.request_times }

unfoldable pub record_request : ℕ → TrafficPattern → TrafficPattern
record_request now tp =
    prune_locked now (record tp { request_times = tp.request_times ++ now ∷ [] })

unfoldable pub is_burst : ℕ → TrafficPattern → Bool × TrafficPattern
is_burst now tp =
    let tp' = prune_locked now tp in
    (leb_ℤ tp'.burst_threshold (pos (length tp'.request_times)), tp')

-- Requests over nanoseconds.
pub record Rate : Type 0 where
  pub requests : ℕ
  pub nanoseconds : ℕ

abbrev pub second : ℕ
second = 10 ^ 9

-- The rate since the oldest request; the clock is read once to prune and again for the elapsed time.
abbrev pub rate_of : ℕ → List ℕ → Rate
rate_of later [] = record { requests = 0; nanoseconds = second }
rate_of later (oldest ∷ ts) =
    let n = length (oldest ∷ ts) in
    if later - oldest == 0
    then record { requests = n; nanoseconds = second }
    else record { requests = n; nanoseconds = later - oldest }

unfoldable pub request_rate : ℕ → ℕ → TrafficPattern → Rate × TrafficPattern
request_rate now later tp = let tp' = prune_locked now tp in (rate_of later tp'.request_times, tp')

-- `rand.Int64N` is an argument.
unfoldable pub random_interval : (ℕ → ℕ) → ℕ → ℕ → ℕ
random_interval int64n min max = if max - min == 0 then min else min + int64n (max - min)

-- The three times at which one call reads the clock.
pub record Clock : Type 0 where
  pub burst_at : ℕ
  pub rate_at : ℕ
  pub elapsed_at : ℕ

pub data Mode : Type 0 where
  aggressive moderate idle fixed : Mode

abbrev pub by_rate : (ℕ → ℕ) → Rate → ℕ × Mode
by_rate int64n rate =
    if ltb rate.nanoseconds (rate.requests * (10 * second))
    then (random_interval int64n (10 * second) (20 * second), moderate)
    else (random_interval int64n (20 * second) (60 * second), idle)

-- The two last arguments are ignored.
unfoldable pub adaptive_interval :
    (ℕ → ℕ) → Clock → TrafficPattern → ℕ → ℕ → (ℕ × Mode) × TrafficPattern
adaptive_interval int64n clock pattern base_min base_max =
    let (burst, pattern1) = is_burst clock.burst_at pattern in
    let (rate, pattern2) = request_rate clock.rate_at clock.elapsed_at pattern1 in
    if burst
    then ((random_interval int64n (3 * second) (7 * second), aggressive), pattern1)
    else (by_rate int64n rate, pattern2)
