-- ===== src/Process/Examples.antt =====
-- internal/process: concrete runs.
use splitter.Prelude.{◌≡◌, refl, true, List, [], ◌∷◌}
use splitter.Process.{
  sigterm, sigkill, Event, stop_called, patience_over, exited, stop, escalate, reap, step, run,
  new_process,
}
use splitter.Process.Life.{fate, run-fate}

-- A stop that has to kill, and a second stop.
abbrev stubborn : List Event
stubborn = patience_over ∷ stop_called ∷ patience_over ∷ exited true ∷ stop_called ∷ []

is_killed : (run (new_process "tor-0" "tor" []) stubborn).signals ≡ sigterm ∷ sigkill ∷ []
unfolding run step stop escalate reap new_process
is_killed = refl

run-fate_example : (run (new_process "tor-0" "tor" []) stubborn).state ≡ fate stubborn
run-fate_example = run-fate "tor-0" "tor" [] stubborn
