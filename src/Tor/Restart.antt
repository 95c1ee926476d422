-- ===== src/Tor/Restart.antt =====
-- internal/tor/restart.go: `RunWithRestart`, the loop that keeps one Tor process running, and the count
-- of `StartAllWithRestart` in internal/tor/manager.go.
-- The loop is a state machine: a phase for each place where it waits, and an event for each case of its
-- `select`s and each result of `Start`. The instance's state is shared with the manager: `Stop` and
-- `Start`, as `RotateInstance` calls them, are events too. `signals` counts the sends on `readyCh`,
-- which has room for one of each instance, and `live` the Tor processes that run.
pub mod Signals
pub mod Rotation
use splitter.Prelude.{
  ℕ, ◌+◌, ◌-◌, Bool, true, false, not, ◌&&◌, List, [], ◌∷◌, leb, if◌then◌else◌, length, pos,
}
use splitter.Tor.Backoff.{backoff_duration}

pub data State : Type 0 where
  starting bootstrapping ready failed : State

pub data Phase : Type 0 where
  -- in `inst.Start`
  launching : Phase
  -- in `time.After(backoff)`, with the duration
  backing_off : ℕ → Phase
  -- in the inner `select`; whether the bootstrap timer still runs
  watching : Bool → Phase
  returned : Phase

pub data Event : Type 0 where
  start_ok start_failed backoff_over grace_over cancelled : Event
  -- the result of `inst.Wait()`: was it an error?
  exited : Bool → Event
  -- `Stop` sets the state when the process is gone; `Start` launches another
  stopped_outside started_outside : Event

pub record Runner : Type 0 where
  pub phase : Phase
  pub state : State
  pub failures : ℕ
  -- `onceReady` has been used
  pub once : Bool
  pub signals : ℕ
  pub live : ℕ

-- At the top of the loop for the first time.
unfoldable pub begin : Runner
begin = record {
  phase = launching;
  state = bootstrapping;
  failures = 0;
  once = false;
  signals = 0;
  live = 0;
}

-- `failures++`, the state `StateFailed` and the wait that follows.
abbrev pub fail : Runner → Runner
fail r = record r {
  phase = backing_off (backoff_duration (pos (r.failures + 1)));
  state = failed;
  failures = r.failures + 1;
}

abbrev pub is_bootstrapping : State → Bool
is_bootstrapping bootstrapping = true
is_bootstrapping _ = false

abbrev pub is_failed : State → Bool
is_failed failed = true
is_failed _ = false

-- `onceReady.Do` with its send.
abbrev pub send_once : Runner → Runner
send_once r = if r.once then r else record r { once = true; signals = r.signals + 1 }

abbrev pub on_grace : Runner → Runner
on_grace r =
    let t = record r { phase = watching false } in
    if is_bootstrapping r.state then send_once (record t { state = ready; failures = 0 }) else t

abbrev pub on_exit : Bool → Runner → Runner
on_exit error r =
    let t = record r { live = r.live - 1 } in
    if error && not (is_failed r.state) then fail t else record t { phase = returned }

-- An event that the phase does not wait for does not happen there.
abbrev pub dispatch : Phase → Event → Runner → Runner
dispatch launching start_ok r = record r {
  phase = watching true;
  state = bootstrapping;
  live = r.live + 1;
}
dispatch launching start_failed r = fail r
dispatch (backing_off d) backoff_over r = record r { phase = launching; state = bootstrapping }
dispatch (backing_off d) cancelled r = record r { phase = returned }
dispatch (watching timer) cancelled r = record r { phase = returned }
dispatch (watching true) grace_over r = on_grace r
dispatch (watching timer) (exited error) r = on_exit error r
dispatch phase stopped_outside r = record r { state = starting }
dispatch phase started_outside r = record r { state = bootstrapping; live = r.live + 1 }
dispatch _ _ r = r

unfoldable pub step : Runner → Event → Runner
step r e = dispatch r.phase e r

unfoldable pub run : Runner → List Event → Runner
run r [] = r
run r (e ∷ es) = run (step r e) es

-- How many ready signals the instances have sent in all.
abbrev pub total_signals : List Runner → ℕ
total_signals [] = 0
total_signals (r ∷ rs) = r.signals + total_signals rs

-- `startedCount < total` fails: `StartAllWithRestart` returns nil.
unfoldable pub all_ready : List Runner → Bool
all_ready rs = leb (length rs) (total_signals rs)
