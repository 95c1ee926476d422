-- ===== src/Country/Switch.antt =====
-- internal/country/daemon.go: how a daemon follows the configurations that `UpdateConfig` gives it.
use splitter.Prelude.{
  ℕ, ◌+◌, ◌*◌, ◌^◌, ◌<◌, ◌≡◌, refl, inl, inr, Bool, List, [], ◌∷◌, arith, Bool-cases, ◌≤ℤ◌, ◌<ℤ◌,
  add64-pos, mul64-pos, pos,
}
use splitter.Config.Types.{Config}
use splitter.Country.{
  Daemon, new_daemon, start_daemon, update_config, next_interval, interval_of, max_jitter,
}
use splitter.Country.Rotation.{IsDraw}

-- The configurations of the reloads, one after the other.
abbrev pub update_all : List Config → Daemon → Daemon
update_all [] d = d
update_all (cfg ∷ rest) d = update_all rest (update_config cfg d)

abbrev pub last_of : Config → List Config → Config
last_of cfg [] = cfg
last_of cfg (next ∷ rest) = last_of next rest

abbrev pub Follows : Daemon → Bool → Config → Type 0
Follows d running cfg = (d.running ≡ running) × (d.cfg ≡ cfg) × (d.base_interval ≡ interval_of cfg)

update_all_lem :
    (updates : List Config) (d : Daemon) (running : Bool) (cfg : Config)
    → Follows d running cfg
    → Follows (update_all updates d) running (last_of cfg updates)
unfolding update_config
update_all_lem [] d running cfg h = h
update_all_lem (next ∷ rest) d running cfg (r, _, _) =
    update_all_lem rest (update_config next d) running next (r, refl, refl)

-- Whether a started daemon rotates is decided by its first configuration alone: one that switches the
-- rotation on or off later has no effect on that, while the countries, the counts and the interval are
-- always those of the last.
pub switched_at_start :
    (cfg : Config) (updates : List Config)
    → Follows
        (update_all updates (start_daemon (new_daemon cfg)))
        cfg.country.rotation.enabled
        (last_of cfg updates)
unfolding start_daemon new_daemon
switched_at_start cfg updates =
    update_all_lem updates (start_daemon (new_daemon cfg)) cfg.country.rotation.enabled cfg
      (elim (Bool-cases cfg.country.rotation.enabled) [
        | inl e ↦ rw e (refl, refl, refl)
        | inr e ↦ rw e (refl, refl, refl)
      ])

-- The wait before a round, for an interval of `n` seconds of less than 2 ^ 32: from `n` seconds on, and
-- less than `n + 30` seconds, in nanoseconds.
pub next_interval_bounds :
    (int64n : ℕ → ℕ)
    → IsDraw int64n
    → (cfg : Config) (d : Daemon) (n : ℕ) → cfg.country.rotation.interval ≡ pos n
    → n < 2 ^ 32
    → let wait = next_interval int64n (update_config cfg d) in
      (pos (n * 1000000000) ≤ℤ wait) × (wait <ℤ pos ((n + 30) * 1000000000))
unfolding next_interval update_config
next_interval_bounds int64n h cfg d n e small =
    let jitter = h max_jitter (omega arith) in
    rw e (
      rw (mul64-pos n 1000000000 (omega arith)) (
        rw (add64-pos (n * 1000000000) (int64n max_jitter) (omega arith))
          (ground arith, ground arith)))
