-- ===== src/Process.antt =====
-- internal/process: the state of a child process and the list of the manager.
-- Three parties act on a process: `Stop`, its wait after SIGTERM, and the goroutine of `Spawn` that waits
-- for the process to exit. Each locks the process while it acts, so that a history is a list of events.
pub mod Life
mod Examples
use splitter.Prelude.{
  String, Bool, true, false, not, Option, none, some, List, [], ◌∷◌, ◌++◌, map, if◌then◌else◌,
}

pub data ProcessState : Type 0 where
  starting running stopped failed : ProcessState

unfoldable pub state_string : ProcessState → String
state_string starting = "starting"
state_string running = "running"
state_string stopped = "stopped"
state_string failed = "failed"

pub data Signal : Type 0 where
  sigterm sigkill : Signal

pub record Process : Type 0 where
  pub name : String
  pub path : String
  pub args : List String
  pub state : ProcessState
  -- `done` is closed
  pub done : Bool
  -- what the process's group has been sent
  pub signals : List Signal
  -- a `Stop` waits for the exit or for its timeout
  pub stopping : Bool

pub data Event : Type 0 where
  -- a call of `Stop`
  stop_called : Event
  -- the timeout of `Stop` runs out, or its context ends
  patience_over : Event
  -- the process ends; whether `cmd.Wait` returned an error
  exited : Bool → Event

abbrev pub is_running : ProcessState → Bool
is_running running = true
is_running _ = false

-- `Stop` up to its wait. On a process that does not run, it only waits for `done`.
unfoldable pub stop : Process → Process
stop p =
    if not (is_running p.state)
    then p
    else record p { state = stopped; signals = p.signals ++ sigterm ∷ []; stopping = true }

-- The other cases of the `select` of `Stop`, which may be taken also when `done` is just closed.
unfoldable pub escalate : Process → Process
escalate p =
    if p.stopping then record p { signals = p.signals ++ sigkill ∷ []; stopping = false } else p

-- The goroutine of `Spawn`, when `cmd.Wait` returns.
unfoldable pub reap : Bool → Process → Process
reap error p = if p.done then p else record p {
  done = true;
  state = if is_running p.state then (if error then failed else stopped) else p.state;
}

unfoldable pub step : Process → Event → Process
step p stop_called = stop p
step p patience_over = escalate p
step p (exited error) = reap error p

unfoldable pub run : Process → List Event → Process
run p [] = p
run p (e ∷ es) = run (step p e) es

-- How `Spawn` ends: the context is done, `cmd.Start` fails, or the process runs.
pub data Spawned : Type 0 where
  cancelled start_failed launched : Spawned

-- The process when `cmd.Start` has returned.
unfoldable pub new_process : String → String → List String → Process
new_process name path args = record {
  name = name;
  path = path;
  args = args;
  state = running;
  done = false;
  signals = [];
  stopping = false;
}

-- The processes of the manager, oldest first.
unfoldable pub spawn :
    Spawned → String → String → List String → List Process → List Process × Option Process
spawn cancelled name path args processes = (processes, none)
spawn start_failed name path args processes = (processes, none)
spawn launched name path args processes =
    let p = new_process name path args in (processes ++ p ∷ [], some p)

-- `Stop` until it returns, when the process is reaped; whether it ends with an error is an argument.
unfoldable pub stop_wait : Bool → Process → Process
stop_wait error p = run p (stop_called ∷ exited error ∷ [])

-- `StopAll`: each process of the manager, by itself. None reports an error.
unfoldable pub stop_all : Bool → List Process → List Process
stop_all error processes = map (stop_wait error) processes
