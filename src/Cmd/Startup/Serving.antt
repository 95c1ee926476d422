-- ===== src/Cmd/Startup/Serving.antt =====
-- cmd/run.go: when a run serves, what it serves with, and what a shutdown stops.
use splitter.Prelude.{ℕ, ◌≡◌, refl, Bool, true, false, none, some, List, [], ◌∷◌, map, All, count}
use splitter.Config.Types.{Config}
use splitter.Process.{Process}
use splitter.Proxy.Manager.{live_at, stop_all-live}
use splitter.Tor.Version.{Version}
use splitter.Tor.Restart.Signals.{WasReady}
use splitter.Circuit.Renewer.{Renewer, add_instance}
use splitter.Circuit.Renewer
use splitter.Country.{stop_daemon}
use splitter.Haproxy.{Backend, ConfigData, stop_haproxy, socks_backend}
use splitter.Cmd.Startup.{StartWorld, loops, traces, System, shutdown}
use splitter.Cmd.Startup.Refusals.{renewal, renewal_of}

-- A system that serves its Tor instances with this process of HAProxy.
abbrev pub Serves : StartWorld → Config → ℕ → System → Type 0
Serves w cfg pid s =
    (s.runners ≡ loops w s.manager.instances)
    × All WasReady (traces w s.manager.instances)
    × (map renewal s.renewer.instances ≡ map (renewal_of cfg) s.manager.instances)
    × (s.renewer.contexts ≡ false ∷ [])
    × (s.haproxy.proc ≡ some pid)
    × ((d : ConfigData) × (s.haproxy.file ≡ some d)
        × ((p : Backend → Bool)
            → count p d.socks_backends
              ≡ count (λ inst. p (socks_backend cfg inst)) s.manager.instances))
    × (s.daemon.started ≡ true)

-- A shutdown of a system whose renewal has been started once, and whose daemon has been started, leaves
-- no daemon running, no renewal that is not cancelled, no process of HAProxy in its manager, and no
-- process of the process manager running.
pub shutdown_lem :
    (error : Bool) (s : System) (processes : List Process)
    → s.renewer.contexts ≡ false ∷ []
    → s.daemon.started ≡ true
    → let (s', processes') = shutdown error s processes in
      (s'.daemon.running ≡ false)
      × All (λ cancelled. cancelled ≡ true) s'.renewer.contexts
      × (s'.haproxy.proc ≡ none)
      × ((k : ℕ) → live_at processes' k ≡ false)
unfolding shutdown stop_daemon stop_haproxy Renewer.stop
shutdown_lem error s processes once started =
    (rw started refl, rw once (refl, tt), refl, stop_all-live error processes)
