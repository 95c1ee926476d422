-- ===== src/Proxy/Examples.antt =====
-- The proxy modules on concrete inputs.
use splitter.Prelude.{
  ℕ, suc, ◌+◌, String, ◌≡◌, refl, ◌⊎◌, true, false, ◌&&◌, ◌||◌, Option, none, some, List, [], ◌∷◌,
  ◌==◌, if◌then◌else◌, is_some, length, ℤ, add64, pos,
}
use splitter.Config.Types.{PrivoxyConfig}
use splitter.Process.{Spawned, launched, start_failed}
use splitter.Proxy.{
  legacy, Instance, LegacyProxy, parse_mode, legacy_setup, Files, ProcessManager, start, stop,
}
use splitter.Proxy.Manager.{Held, live, process_manager, process_manager-IsLawful}
use splitter.Proxy.Legacy.{IsLawful, IsDistinct, among, stop-start}
use splitter.Proxy.Files.{has_file, start-legacy_setup}

modes : (parse_mode "legacy" ≡ some legacy) × (parse_mode "Native" ≡ none)
unfolding parse_mode
modes = (refl, refl)

abbrev instance_at : ℕ → ℤ → Instance
instance_at n port = record { id = pos n; socks_port = pos (4999 + n); http_port = port }

abbrev two : List Instance
two = instance_at 0 (pos 5199) ∷ instance_at 1 (pos 0) ∷ []

abbrev privoxy : PrivoxyConfig
privoxy = record {
  binary_path = "privoxy";
  listen = "127.0.0.1";
  start_port = pos 6999;
  timeout = pos 35;
  config_file_prefix = "/tmp/privoxy_";
}

abbrev new_legacy : List ℤ → LegacyProxy
new_legacy ports = record { cfg = privoxy; ports = ports; procs = [] }

-- A manager that counts the programs that it starts, each on the first of its files, if that is there.
abbrev reader : Files → ProcessManager ℕ
reader files = record {
  spawn_process = λ name path args n. (suc n, found n args);
  stop_process = λ h n. (n, false);
}
  where
    found : ℕ → List String → Option ℕ
    found n [] = none
    found n (file ∷ _) = if has_file file files then some n else none

abbrev written : Files
written = (legacy_setup (λ path. true) two [] (new_legacy [])).1

reader_reads :
    (name path file : String) (n : ℕ)
    → has_file file written ≡ true
    → is_some ((reader written).spawn_process name path (file ∷ []) n).1 ≡ true
reader_reads name path file n h = rw h refl

start-legacy_setup_example :
    let (p', files', result) = legacy_setup (λ path. true) two [] (new_legacy []) in
    (result ≡ some (pos 6999 ∷ pos 7000 ∷ []))
    × (result ≡ some p'.ports)
    × ((start (reader written) p' 0).2 ≡ true)
unfolding legacy_setup add64
start-legacy_setup_example =
    start-legacy_setup (reader written) 0 (λ path. true) two [] (new_legacy []) (refl, (refl, tt))
      refl reader_reads

process_manager-IsLawful_example :
    IsLawful (process_manager (λ n. if n == 1 then start_failed else launched)) live
process_manager-IsLawful_example =
    process_manager-IsLawful (λ n. if n == 1 then start_failed else launched)

abbrev second_fails : ℕ → Spawned
second_fails n = if n == 1 then start_failed else launched

abbrev nothing_held : Held
nothing_held = record { processes = []; asked = 0 }

stop-start_example :
    let manager = process_manager second_fails in
    let p = new_legacy (pos 6999 ∷ pos 7000 ∷ []) in
    let (s', p', ok) = start manager p nothing_held in
    let (s'', p'', failed) = stop manager p' s' in
    ((ok ≡ true)
        × ((hs : List ℕ) × (length hs ≡ 2)
            × IsDistinct hs
            × ((k : ℕ) → (among k hs && live nothing_held k) ≡ false)
            × ((k : ℕ) → live s' k ≡ (among k hs || live nothing_held k)))
      ⊎ (ok ≡ false) × ((k : ℕ) → live s' k ≡ live nothing_held k))
    × ((k : ℕ) → live s'' k ≡ live nothing_held k)
    × (p''.procs ≡ [])
stop-start_example =
    stop-start (process_manager second_fails) live (process_manager-IsLawful second_fails)
      (new_legacy (pos 6999 ∷ pos 7000 ∷ [])) nothing_held refl
