-- ===== src/Process/Life.antt =====
-- internal/process: what the state of a process tells, and the signals that it gets.
use splitter.Prelude.{String, ◌≡◌, refl, ◌∙◌, ◌⊎◌, inl, true, false, List, [], ◌∷◌, arith}
use splitter.Process.{
  ProcessState, running, stopped, failed, sigterm, sigkill, Process, Event, stop_called,
  patience_over, exited, stop, escalate, reap, step, run, new_process, is_running,
}

-- The first stop or exit decides.
abbrev pub fate : List Event → ProcessState
fate [] = running
fate (stop_called ∷ es) = stopped
fate (patience_over ∷ es) = fate es
fate (exited true ∷ es) = failed
fate (exited false ∷ es) = stopped

abbrev pub IsQuiet : Process → Type 0
IsQuiet p = (p.state ≡ running) × (p.stopping ≡ false) × (p.done ≡ false)

step-settled : (p : Process) (e : Event) → is_running p.state ≡ false → (step p e).state ≡ p.state
unfolding step stop escalate reap
step-settled p stop_called h = ground arith
step-settled p patience_over h = ground arith
step-settled p (exited error) h = ground arith

settled : (p : Process) (es : List Event) → is_running p.state ≡ false → (run p es).state ≡ p.state
unfolding run
settled p [] h = refl
settled p (e ∷ es) h = let same = step-settled p e h in settled (step p e) es (rw same h) ∙ same

quiet_run : (p : Process) (es : List Event) → IsQuiet p → (run p es).state ≡ fate es
unfolding run
quiet_run p [] h = h.0
quiet_run p (stop_called ∷ es) (r, s, d) =
    let now : (step p stop_called).state ≡ stopped = unfold step stop in rw r refl in
    settled (step p stop_called) es (rw now refl) ∙ now
quiet_run p (patience_over ∷ es) (r, s, d) =
    quiet_run (step p patience_over) es (unfold step escalate in (rw s r, rw s refl, rw s d))
quiet_run p (exited true ∷ es) (r, s, d) =
    let now : (step p (exited true)).state ≡ failed = unfold step reap in rw d (rw r refl) in
    settled (step p (exited true)) es (rw now refl) ∙ now
quiet_run p (exited false ∷ es) (r, s, d) =
    let now : (step p (exited false)).state ≡ stopped = unfold step reap in rw d (rw r refl) in
    settled (step p (exited false)) es (rw now refl) ∙ now

-- After any events, the state of a process tells what came first: none of a `Stop` and an exit
-- (running), a `Stop` or an exit without an error (stopped), or an exit with an error (failed). An error
-- that comes behind a `Stop` does not make it failed.
pub run-fate :
    (name path : String) (args : List String) (es : List Event)
    → (run (new_process name path args) es).state ≡ fate es
unfolding new_process
run-fate name path args es = quiet_run (new_process name path args) es (refl, refl, refl)

-- What `Stop` has done to a process: nothing, SIGTERM, or SIGTERM and then SIGKILL.
abbrev pub IsStopping : Process → Type 0
IsStopping p =
    ((p.signals ≡ []) × (p.stopping ≡ false))
    ⊎ ((p.signals ≡ sigterm ∷ []) × (is_running p.state ≡ false))
    ⊎ ((p.signals ≡ sigterm ∷ sigkill ∷ []) × (is_running p.state ≡ false) × (p.stopping ≡ false))

step-IsStopping : (p : Process) (e : Event) → IsStopping p → IsStopping (step p e)
unfolding step stop escalate reap
step-IsStopping p stop_called h = ground arith
step-IsStopping p patience_over h = ground arith
step-IsStopping p (exited error) h = ground arith

run_from-IsStopping : (p : Process) (es : List Event) → IsStopping p → IsStopping (run p es)
unfolding run
run_from-IsStopping p [] h = h
run_from-IsStopping p (e ∷ es) h = run_from-IsStopping (step p e) es (step-IsStopping p e h)

-- However often and from wherever `Stop` is called, and whenever the process ends, it is sent SIGTERM
-- at most once and SIGKILL at most once, SIGKILL only behind SIGTERM; and from SIGTERM on it does not
-- count as running.
pub run-IsStopping :
    (name path : String) (args : List String) (es : List Event)
    → IsStopping (run (new_process name path args) es)
unfolding new_process
run-IsStopping name path args es =
    run_from-IsStopping (new_process name path args) es (inl (refl, refl))
