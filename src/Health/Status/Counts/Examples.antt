-- ===== src/Health/Status/Counts/Examples.antt =====
-- internal/health/status.go on concrete inputs.
use splitter.Prelude.{◌+◌, ◌≤◌, String, ◌≡◌, refl, some, List, [], ◌∷◌, map, split_once, count, pos}
use splitter.Process.{Process, new_process}
use splitter.Tor.Version.{Version}
use splitter.Tor.Restart.{ready}
use splitter.Tor.Instance.{new_instance}
use splitter.Tor.Manager.{TorManager}
use splitter.Health.Status.{collect_status, categorize_processes, state_icon}
use splitter.Health.Status.Counts.{
  amount, counts_ready, counts_failed, total, shown, of_kind, collect_status_lem,
}

abbrev v0_4_8 : Version
v0_4_8 = record { major = pos 0; minor = pos 4; patch = pos 8; release = pos 1 }

abbrev two : TorManager
two = record {
  instances =
      record (new_instance 0 "US" v0_4_8) { state = ready } ∷ new_instance 1 "DE" v0_4_8 ∷ [];
  version = some v0_4_8;
}

abbrev procs : List Process
procs =
    new_process "tor-0" "tor" []
    ∷ new_process "haproxy" "haproxy" []
    ∷ new_process "tor-1" "tor" []
    ∷ []

kinds : categorize_processes procs ≡ ("tor", 2) ∷ ("haproxy", 1) ∷ []
unfolding categorize_processes new_process split_once
kinds = refl

icon : (state_icon "ready").0 ≡ "●"
unfolding state_icon
icon = refl

collect_status_lem_example :
    let s = collect_status two procs in
    (s.instances ≡ map shown two.instances)
    × (s.ready_count ≡ count counts_ready two.instances)
    × (s.failed_count ≡ count counts_failed two.instances)
    × (s.ready_count + s.failed_count ≤ s.total_instances)
    × (total s.process_breakdown ≡ s.processes)
    × ((kind : String) → amount kind s.process_breakdown ≡ count (of_kind kind) procs)
collect_status_lem_example = collect_status_lem two procs
