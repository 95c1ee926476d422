-- ===== src/Proxy.antt =====
-- internal/proxy: the native mode, which checks the instances' ports, and the legacy mode, which writes a
-- configuration for each instance and runs a Privoxy for each.
-- The process manager is an interface: what it holds is a state, and a process is referred to by a number.
pub mod Manager
pub mod Legacy
pub mod Files
mod Examples
use Prim.Native.String.{◌++◌ as text_append}
use splitter.Prelude.{
  ℕ, zero, suc, ◌-◌, ◌/◌, String, Bool, true, false, not, ◌||◌, Option, none, some, List, [], ◌∷◌,
  ◌++◌, map, str_eq, ◌==◌, if◌then◌else◌, length, ℤ, leb_ℤ, add64, decimal, int_text, pos,
}
use splitter.Config.Types.{PrivoxyConfig}

pub data Mode : Type 0 where
  native legacy : Mode

pub record Instance : Type 0 where
  pub id : ℤ
  pub socks_port : ℤ
  pub http_port : ℤ

-- `none` is an error.
unfoldable pub parse_mode : String → Option Mode
parse_mode s =
    if str_eq s "native" then some native else if str_eq s "legacy" then some legacy else none

unfoldable pub mode_text : Mode → String
mode_text native = "native"
mode_text legacy = "legacy"

-- `NativeProxy.Setup`: the ports, `none` where an instance has none.
abbrev pub add_port : ℤ → Option (List ℤ) → Option (List ℤ)
add_port port none = none
add_port port (some ports) = some (port ∷ ports)

unfoldable pub native_setup : List Instance → Option (List ℤ)
native_setup [] = some []
native_setup (inst ∷ rest) =
    let later = native_setup rest in
    if leb_ℤ inst.http_port (pos 0) then none else add_port inst.http_port later

pub record LegacyProxy : Type 0 where
  pub cfg : PrivoxyConfig
  pub ports : List ℤ
  pub procs : List (Option ℕ)

-- `NewProxy`: any mode but the legacy one is the native proxy.
pub data Proxy : Type 0 where
  native_proxy : Proxy
  legacy_proxy : LegacyProxy → Proxy

unfoldable pub new_proxy : Mode → PrivoxyConfig → Proxy
new_proxy legacy cfg = legacy_proxy (record { cfg = cfg; ports = []; procs = [] })
new_proxy native cfg = native_proxy

unfoldable pub mode_of : Proxy → Mode
mode_of native_proxy = native
mode_of (legacy_proxy p) = legacy

abbrev pub config_path : PrivoxyConfig → ℤ → String
config_path cfg n = text_append cfg.config_file_prefix (text_append (int_text n) ".cfg")

abbrev lines : List String → String
lines [] = ""
lines (l ∷ ls) = text_append l (text_append "\n" (lines ls))

-- The template, filled in.
unfoldable pub render_privoxy : PrivoxyConfig → Instance → ℤ → String
render_privoxy cfg inst port = lines (
    text_append "# SPLITTER Privoxy Config - Instance " (int_text inst.id)
    ∷ "# Generated automatically - do not edit"
    ∷ ""
    ∷ text_append "listen-address " (text_append cfg.listen (text_append ":" (int_text port)))
    ∷ text_append "forward-socks5t / 127.0.0.1:" (text_append (int_text inst.socks_port) " .")
    ∷ "forward         168.192.0.0/16 ."
    ∷ "forward         10.0.0.0/8 ."
    ∷ "forward         172.16.0.0/12 ."
    ∷ "forward         192.168.0.0/16 ."
    ∷ "forward         127.0.0.0/8 ."
    ∷ "forward         0.0.0.0/8 ."
    ∷ "forward         169.254.0.0/16 ."
    ∷ ""
    ∷ "# Security"
    ∷ "toggle  1"
    ∷ "enable-remote-toggle 0"
    ∷ "enable-edit-actions 0"
    ∷ "enforce-blocks 1"
    ∷ ""
    ∷ "# Logging (off by default)"
    ∷ "logfile /dev/null"
    ∷ ""
    ∷ "# Misc"
    ∷ "buffer-limit 4096"
    ∷ [])

-- A file system: the files, the last written first; which paths can be written is an argument.
abbrev pub Files : Type 0
Files = List (String × String)

abbrev zeros : ℕ → List ℤ
zeros zero = []
zeros (suc n) = pos 0 ∷ zeros n

-- The loop of `LegacyProxy.Setup`: the ports as far as they are set, the files, and whether it is through.
abbrev pub setup_each :
    (String → Bool) → PrivoxyConfig → List Instance → Files → List ℤ × Files × Bool
setup_each writable cfg [] files = ([], files, true)
setup_each writable cfg (inst ∷ rest) files =
    let port = add64 cfg.start_port inst.id in
    let path = config_path cfg inst.id in
    let (ports, files', ok) =
      setup_each writable cfg rest ((path, render_privoxy cfg inst port) ∷ files) in
    if writable path then (port ∷ ports, files', ok) else (port ∷ zeros (length rest), files, false)

-- The proxy, the files, and the ports that are returned, `none` for an error.
unfoldable pub legacy_setup :
    (String → Bool) → List Instance → Files → LegacyProxy → LegacyProxy × Files × Option (List ℤ)
legacy_setup writable instances files p =
    let (ports, files', ok) = setup_each writable p.cfg instances files in
    (record p { ports = ports }, files', if ok then some ports else none)

-- What the legacy proxy uses of the process manager: a spawn returns the process unless it fails, and a
-- stop whether it reports an error.
pub record ProcessManager (S : Type 0) : Type 0 where
  pub spawn_process : String → String → List String → S → S × Option ℕ
  pub stop_process : ℕ → S → S × Bool

module _ {S : Type 0} (manager : ProcessManager S) where
  abbrev pub stop_each : List ℕ → S → S
  stop_each [] s = s
  stop_each (h ∷ hs) s = stop_each hs (manager.stop_process h s).0

  -- The loop of `LegacyProxy.Start` at index `i`, with the processes that run so far.
  abbrev pub nones : ℕ → List (Option ℕ)
  nones zero = []
  nones (suc n) = none ∷ nones n

  abbrev pub start_each : PrivoxyConfig → ℕ → List ℤ → List ℕ → S → S × List (Option ℕ) × Bool
  start_each cfg i [] hs s = (s, map some hs, true)
  start_each cfg i (port ∷ ports) hs s =
      let (s', spawned) =
        manager.spawn_process (text_append "privoxy-" (decimal i)) cfg.binary_path
          (config_path cfg (pos i) ∷ []) s in
      elim spawned [
        | none ↦ (stop_each hs s', map some hs ++ nones (suc (length ports)), false)
        | some h ↦ start_each cfg (suc i) ports (hs ++ h ∷ []) s'
      ]

  -- The result, and whether the processes are started.
  unfoldable pub start : LegacyProxy → S → S × LegacyProxy × Bool
  start p s =
      let (s', procs, ok) = start_each p.cfg 0 p.ports [] s in
      if length p.ports == 0 then (s, p, true) else (s', record p { procs = procs }, ok)

  -- The loop of `LegacyProxy.Stop`, and whether one of the stops reports an error.
  abbrev pub stop_all : List (Option ℕ) → S → S × Bool
  stop_all [] s = (s, false)
  stop_all (none ∷ procs) s = stop_all procs s
  stop_all (some h ∷ procs) s =
      let (s', failed) = manager.stop_process h s in
      let (s'', later) = stop_all procs s' in (s'', failed || later)

  unfoldable pub stop : LegacyProxy → S → S × LegacyProxy × Bool
  stop p s = let (s', failed) = stop_all p.procs s in (s', record p { procs = [] }, failed)
