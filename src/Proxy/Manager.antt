-- ===== src/Proxy/Manager.antt =====
-- internal/process and internal/proxy: the process manager as what the legacy proxy uses of it.
use splitter.Prelude.{
  ℕ, zero, suc, String, ◌≡◌, refl, ◌∙◌, Bool, true, false, not, ◌&&◌, ◌||◌, Option, none, some,
  List, [], ◌∷◌, ◌++◌, arith, ◌==◌, some-inj, length,
}
use splitter.Process.{
  Process, Spawned, launched, cancelled, start_failed, new_process, spawn, stop, reap, step, run,
  stop_wait, stop_all,
}
use splitter.Proxy.{ProcessManager}
use splitter.Proxy.Legacy.{IsLawful}

-- A process runs until it has been reaped; its state says so before.
-- The processes of the manager, and how many spawns it has been asked for.
pub record Held : Type 0 where
  pub processes : List Process
  pub asked : ℕ

abbrev pub live_at : List Process → ℕ → Bool
live_at [] k = false
live_at (p ∷ ps) zero = not p.done
live_at (p ∷ ps) (suc k) = live_at ps k

abbrev pub live : Held → ℕ → Bool
live s k = live_at s.processes k

abbrev pub stop_at : ℕ → List Process → List Process
stop_at h [] = []
stop_at zero (p ∷ ps) = stop_wait true p ∷ ps
stop_at (suc h) (p ∷ ps) = p ∷ stop_at h ps

abbrev pub handle_of : List Process → Option Process → Option ℕ
handle_of before none = none
handle_of before (some p) = some (length before)

-- A handle is the place in the manager's list; how the spawns end is an argument.
abbrev pub process_manager : (ℕ → Spawned) → ProcessManager Held
process_manager outcome = record {
  spawn_process = λ name path args s.
      let (ps, p) = spawn (outcome s.asked) name path args s.processes in
      (record { processes = ps; asked = suc s.asked }, handle_of s.processes p);
  stop_process = λ h s. (record s { processes = stop_at h s.processes }, false);
}

stop_wait-ends : (error : Bool) (p : Process) → not (stop_wait error p).done ≡ false
unfolding stop_wait run step stop reap
stop_wait-ends error p = ground arith

live_at-stop :
    (ps : List Process) (h k : ℕ) → live_at (stop_at h ps) k ≡ (live_at ps k && not (h == k))
live_at-stop [] h k = refl
live_at-stop (p ∷ ps) zero zero = stop_wait-ends true p ∙ ground arith
live_at-stop (p ∷ ps) zero (suc k) = ground arith
live_at-stop (p ∷ ps) (suc h) zero = ground arith
live_at-stop (p ∷ ps) (suc h) (suc k) = let ih = live_at-stop ps h k in ground arith

live_at-spawned :
    (ps : List Process) (p : Process) (k : ℕ)
    → p.done ≡ false
    → live_at (ps ++ p ∷ []) k ≡ (length ps == k || live_at ps k)
live_at-spawned [] p zero h = rw h refl
live_at-spawned [] p (suc k) h = ground arith
live_at-spawned (q ∷ ps) p zero h = ground arith
live_at-spawned (q ∷ ps) p (suc k) h = let ih = live_at-spawned ps p k h in ground arith

live_at-end : (ps : List Process) → live_at ps (length ps) ≡ false
live_at-end [] = refl
live_at-end (p ∷ ps) = live_at-end ps

spawn_fails_lem :
    (o : Spawned) (name path : String) (args : List String) (ps : List Process)
    → handle_of ps (spawn o name path args ps).1 ≡ none
    → (k : ℕ) → live_at (spawn o name path args ps).0 k ≡ live_at ps k
unfolding spawn
spawn_fails_lem cancelled name path args ps e k = refl
spawn_fails_lem start_failed name path args ps e k = refl
spawn_fails_lem launched name path args ps e k = ground arith

spawn_adds_lem :
    (o : Spawned) (name path : String) (args : List String) (ps : List Process) (h : ℕ)
    → handle_of ps (spawn o name path args ps).1 ≡ some h
    → (live_at ps h ≡ false)
      × ((k : ℕ) → live_at (spawn o name path args ps).0 k ≡ (h == k || live_at ps k))
unfolding spawn new_process
spawn_adds_lem cancelled name path args ps h e = ground arith
spawn_adds_lem start_failed name path args ps h e = ground arith
spawn_adds_lem launched name path args ps h e =
    let at : length ps ≡ h = some-inj e in
    (
      rw at at (live_at-end ps),
      λ k. live_at-spawned ps (new_process name path args) k refl ∙ rw at refl,
    )

-- However its spawns end, the process manager is lawful: a spawn that succeeds adds one process that runs,
-- at a place where none did, one that fails or comes when the context is done changes no process, and
-- a stop that has returned has ended its process and no other. A process runs until it has been reaped.
pub process_manager-IsLawful : (outcome : ℕ → Spawned) → IsLawful (process_manager outcome) live
process_manager-IsLawful outcome = record {
  spawn_fails =
      λ name path args s e. spawn_fails_lem (outcome s.asked) name path args s.processes e;
  spawn_adds =
      λ name path args s h e. spawn_adds_lem (outcome s.asked) name path args s.processes h e;
  stop_ends = λ h s k. live_at-stop s.processes h k;
}

pub stop_all-live :
    (error : Bool) (ps : List Process) (k : ℕ) → live_at (stop_all error ps) k ≡ false
unfolding stop_all
stop_all-live error [] k = refl
stop_all-live error (p ∷ ps) zero = stop_wait-ends error p
stop_all-live error (p ∷ ps) (suc k) = unfold stop_all in stop_all-live error ps k
