-- ===== src/Tor/Restart/Rotation.antt =====
-- What the rotation of a country does to an instance whose restart loop runs.
use splitter.Prelude.{◌≡◌, ◌≢◌, Bool, true, false, List, [], ◌∷◌, arith, All}
use splitter.Tor.Restart.{
  failed, returned, watching, Event, start_ok, backoff_over, exited, stopped_outside,
  started_outside, Runner, step, run,
}

-- One process runs under the loop, and the loop would restart it.
abbrev pub IsWatched : Runner → Type 0
IsWatched r = ((timer : Bool) × (r.phase ≡ watching timer)) × (r.state ≢ failed) × (r.live ≡ 1)

-- A rotation stops the process and launches another. The process ends with an error (it was killed) or
-- without one (it ended by itself on SIGTERM), and the loop sees the end before the manager sets the
-- state, between its two settings, or after both.
abbrev pub rotations : Bool → List (List Event)
rotations error =
    (exited error ∷ stopped_outside ∷ started_outside ∷ [])
    ∷ (stopped_outside ∷ exited error ∷ started_outside ∷ [])
    ∷ (stopped_outside ∷ started_outside ∷ exited error ∷ [])
    ∷ []

-- What a loop that takes the end for a failure does next.
abbrev pub relaunched : Runner → List Event → Runner
relaunched r es = run (run r es) (backoff_over ∷ start_ok ∷ [])

returned_for_good :
    (r : Runner) (later : List Event) → r.phase ≡ returned → (run r later).phase ≡ returned
unfolding run step
returned_for_good r [] h = h
returned_for_good r (e ∷ later) h = returned_for_good (step r e) later (ground arith)

-- A rotation of an instance whose restart loop runs, in each order of the events: if the old process
-- ends with an error, the loop launches a process of its own after the backoff, and two Tor processes of
-- the same instance run. If it ends without an error, the loop has returned: one process runs, and
-- whatever happens to it later, the loop does not launch another.
pub rotation_splits :
    (r : Runner)
    → IsWatched r
    → All (λ es. (relaunched r es).live ≡ 2) (rotations true)
      × All
          (λ es.
            ((run r es).live ≡ 1)
            × ((later : List Event) → (run (run r es) later).phase ≡ returned))
          (rotations false)
unfolding run step
rotation_splits r ((timer, h), live_state, one) = (
  ground arith,
  (
    (ground arith, λ later. returned_for_good _ later (ground arith)),
    (
      (ground arith, λ later. returned_for_good _ later (ground arith)),
      ((ground arith, λ later. returned_for_good _ later (ground arith)), tt),
    ),
  ),
)
