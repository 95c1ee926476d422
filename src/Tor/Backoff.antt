-- ===== src/Tor/Backoff.antt =====
-- internal/tor/restart.go: `backoffDuration`. A duration is a number of nanoseconds; the largest that
-- the loop computes is below 60 seconds, so that nothing wraps around.
use native.Mathlib.Nat.{pow-suc}
use splitter.Prelude.{
  ℕ, zero, suc, ◌-◌, ◌*◌, ◌^◌, ◌≤◌, min, ◌≡◌, arith, ltb, leb, if◌then◌else◌, ℤ, pos_part, leb_ℤ,
  pos, negsuc,
}

abbrev pub second : ℕ
second = 1_000_000_000

abbrev pub initial_backoff : ℕ
initial_backoff = 1 * second

abbrev pub max_backoff : ℕ
max_backoff = 30 * second

-- The loop: `rounds` are left of `for i := 1; i < failures; i++`, and `d` is the duration so far.
double_up : ℕ → ℕ → ℕ
double_up zero d = if ltb max_backoff d then max_backoff else d
double_up (suc rounds) d =
    let next = double_up rounds (d * 2) in if leb max_backoff (d * 2) then max_backoff else next

unfoldable pub backoff_duration : ℤ → ℕ
unfolding double_up
backoff_duration failures =
    if leb_ℤ failures (pos 0)
    then initial_backoff
    else double_up (pos_part failures - 1) initial_backoff

pow_pos : (r : ℕ) → 1 ≤ 2 ^ r
pow_pos zero = omega arith
pow_pos (suc r) = rw pow-suc (omega (arith, pow_pos r))

double-pow : (d r : ℕ) → d * 2 ^ suc r ≡ d * 2 * 2 ^ r
double-pow d r = rw pow-suc (omega arith)

le-mul_pow : (d r : ℕ) → d ≤ d * 2 ^ r
le-mul_pow d r = let h = pow_pos r in grind arith

double_up_closed : (rounds d : ℕ) → double_up rounds d ≡ min (d * 2 ^ rounds) max_backoff
unfolding double_up
double_up_closed zero d = ground arith
double_up_closed (suc rounds) d =
    rw (double-pow d rounds)
      (ground (arith, double_up_closed rounds (d * 2), le-mul_pow (d * 2) rounds))

-- The wait after the n-th failure in a row is 2 ^ (n - 1) seconds, and 30 seconds at most.
pub backoff_closed :
    (n : ℕ) → backoff_duration (pos (suc n)) ≡ min (initial_backoff * 2 ^ n) max_backoff
unfolding backoff_duration
backoff_closed n = ground (arith, double_up_closed n initial_backoff)

-- The wait is between 1 and 30 seconds, whatever the count.
pub backoff_bounds :
    (failures : ℤ)
    → (initial_backoff ≤ backoff_duration failures) × (backoff_duration failures ≤ max_backoff)
backoff_bounds (pos zero) = unfold backoff_duration in omega arith
backoff_bounds (negsuc n) = unfold backoff_duration in ground arith
backoff_bounds (pos (suc n)) = rw (backoff_closed n) (omega (arith, le-mul_pow initial_backoff n))
