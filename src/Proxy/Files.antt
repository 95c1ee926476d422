-- ===== src/Proxy/Files.antt =====
-- internal/proxy: the ports of both modes, and the files that the legacy mode writes and starts on.
use splitter.Prelude.{
  ℕ, zero, suc, ◌+◌, ◌<◌, String, ◌≡◌, refl, ap, ◌⊎◌, inl, inr, Bool, true, false, not, ◌||◌,
  Option, none, some, List, [], ◌∷◌, ◌++◌, map, arith, str_eq, ◌==◌, is_some, Bool-cases,
  Option-cases, length, ℤ, leb_ℤ, add64, decimal, str_eq_refl, count, pos,
}
use Prim.Native.String.{◌++◌ as text_append}
use splitter.Config.Types.{PrivoxyConfig}
use splitter.Proxy.{
  Instance, LegacyProxy, Files, native_setup, setup_each, legacy_setup, config_path, render_privoxy,
  ProcessManager, start_each, start,
}

abbrev pub has_port : Instance → Bool
has_port inst = not (leb_ℤ inst.http_port (pos 0))

http_port_of : Instance → ℤ
http_port_of inst = inst.http_port

-- The native setup returns the instances' ports, in order, when all are positive, and an error when one
-- of them is not.
pub native_setup_lem :
    (instances : List Instance)
    → ((native_setup instances ≡ some (map (λ (inst : Instance). inst.http_port) instances))
        × (count has_port instances ≡ length instances))
      ⊎ ((native_setup instances ≡ none) × (count has_port instances < length instances))
unfolding native_setup
native_setup_lem [] = inl (refl, refl)
native_setup_lem (inst ∷ rest) = elim (native_setup_lem rest) [
  | inl (e, all) ↦ elim (Bool-cases (leb_ℤ inst.http_port (pos 0))) [
    | inl e' ↦ inr (rw e' refl, rw e' (omega (arith, all)))
    | inr e' ↦ inl (rw e' (rw e refl), rw e' (omega (arith, all)))
  ]
  | inr (e, few) ↦ elim (Bool-cases (leb_ℤ inst.http_port (pos 0))) [
    | inl e' ↦ inr (rw e' refl, rw e' (omega (arith, few)))
    | inr e' ↦ inr (rw e' (rw e refl), rw e' (omega (arith, few)))
  ]
]

abbrev pub has_file : String → Files → Bool
has_file path [] = false
has_file path ((path', text) ∷ files) = str_eq path' path || has_file path files

-- The instances' numbers count from this one on.
abbrev pub IsNumbered : ℕ → List Instance → Type 0
IsNumbered n [] = Unit
IsNumbered n (inst ∷ rest) = (inst.id ≡ pos n) × IsNumbered (suc n) rest

setup_keeps :
    (writable : String → Bool) (cfg : PrivoxyConfig) (instances : List Instance) (files : Files)
    (path : String)
    → has_file path files ≡ true
    → (setup_each writable cfg instances files).2 ≡ true
    → has_file path (setup_each writable cfg instances files).1 ≡ true
setup_keeps writable cfg [] files path h ok = h
setup_keeps writable cfg (inst ∷ rest) files path h ok =
    elim (Bool-cases (writable (config_path cfg inst.id))) [
      | inl e ↦
          let file : String × String =
            (config_path cfg inst.id, render_privoxy cfg inst (add64 cfg.start_port inst.id)) in
          let rest_ok : (setup_each writable cfg rest (file ∷ files)).2 ≡ true =
            rw (e, setup_each) at ok in
          rw (e, setup_each)
            (setup_keeps writable cfg rest (file ∷ files) path (ground arith) rest_ok)
      | inr e ↦ absurd (let bad : false ≡ true = rw (e, setup_each) at ok in ground arith)
    ]

each_index :
    (P : ℕ → Type 0) (m : ℕ) → P 0 → ((i : ℕ) → i < m → P (suc i)) → (i : ℕ) → i < suc m → P i
each_index P m first later zero less = first
each_index P m first later (suc i) less = later i (omega arith)

-- The same index, counted from the next number.
shift :
    (cfg : PrivoxyConfig) (files : Files) (n i : ℕ)
    → has_file (config_path cfg (pos (suc n + i))) files ≡ true
    → has_file (config_path cfg (pos (n + suc i))) files ≡ true
shift cfg files n i h = let same : n + suc i ≡ suc n + i = omega arith in rw same h

setup_writes :
    (writable : String → Bool) (cfg : PrivoxyConfig) (instances : List Instance) (files : Files)
    (n : ℕ)
    → IsNumbered n instances
    → (setup_each writable cfg instances files).2 ≡ true
    → (length (setup_each writable cfg instances files).0 ≡ length instances)
      × ((i : ℕ)
          → i < length instances
          → has_file (config_path cfg (pos (n + i))) (setup_each writable cfg instances files).1
            ≡ true)
setup_writes writable cfg [] files n h ok = (refl, λ i less. absurd (omega arith))
setup_writes writable cfg (inst ∷ rest) files n (here, later) ok =
    elim (Bool-cases (writable (config_path cfg inst.id))) [
      | inl e ↦
          let file : String × String =
            (config_path cfg inst.id, render_privoxy cfg inst (add64 cfg.start_port inst.id)) in
          let rest_ok : (setup_each writable cfg rest (file ∷ files)).2 ≡ true =
            rw (e, setup_each) at ok in
          let (long, all) = setup_writes writable cfg rest (file ∷ files) (suc n) later rest_ok in
          let first : config_path cfg (pos (n + 0)) ≡ config_path cfg inst.id =
            let none_more : n + 0 ≡ n = omega arith in rw none_more (rw here refl) in
          let written : has_file (config_path cfg inst.id) (file ∷ files) ≡ true =
            rw (str_eq_refl (config_path cfg inst.id)) refl in
          rw (e, setup_each)
            (
              ap suc long,
              each_index
                  (λ i.
                    has_file (config_path cfg (pos (n + i)))
                      (setup_each writable cfg rest (file ∷ files)).1
                    ≡ true)
                  (length rest)
                  (rw first (
                    setup_keeps writable cfg rest (file ∷ files) (config_path cfg inst.id) written
                      rest_ok))
                  (λ j less.
                    shift cfg (setup_each writable cfg rest (file ∷ files)).1 n j (all j less)),
            )
      | inr e ↦ absurd (let bad : false ≡ true = rw (e, setup_each) at ok in ground arith)
    ]

setup_ports :
    (writable : String → Bool) (cfg : PrivoxyConfig) (instances : List Instance) (files : Files)
    → (setup_each writable cfg instances files).2 ≡ true
    → (setup_each writable cfg instances files).0
      ≡ map (λ (inst : Instance). add64 cfg.start_port inst.id) instances
setup_ports writable cfg [] files ok = refl
setup_ports writable cfg (inst ∷ rest) files ok =
    elim (Bool-cases (writable (config_path cfg inst.id))) [
      | inl e ↦
          let port = add64 cfg.start_port inst.id in
          let file : String × String = (config_path cfg inst.id, render_privoxy cfg inst port) in
          let rest_ok : (setup_each writable cfg rest (file ∷ files)).2 ≡ true =
            rw (e, setup_each) at ok in
          rw (e, setup_each)
            (ap (λ t. port ∷ t) (setup_ports writable cfg rest (file ∷ files) rest_ok))
      | inr e ↦ absurd (let bad : false ≡ true = rw (e, setup_each) at ok in ground arith)
    ]

-- A manager that starts a program on a file that is there.
abbrev pub Reads : {S : Type 0} → ProcessManager S → Files → Type 0
Reads {S = S} manager files =
    (name path file : String) (s : S)
    → has_file file files ≡ true
    → is_some (manager.spawn_process name path (file ∷ []) s).1 ≡ true

differs : {o : Option ℕ} → o ≡ none → is_some o ≡ true → ⊥
differs h k = ground arith

module _ {S : Type 0} (manager : ProcessManager S) (files : Files)
    (reads : Reads manager files) where
  start_each_lem :
      (cfg : PrivoxyConfig) (i : ℕ) (ports : List ℤ) (hs : List ℕ) (s : S)
      → ((j : ℕ) → j < length ports → has_file (config_path cfg (pos (i + j))) files ≡ true)
      → (start_each manager cfg i ports hs s).2 ≡ true
  start_each_lem cfg i [] hs s all = refl
  start_each_lem cfg i (port ∷ ports) hs s all =
      let name = text_append "privoxy-" (decimal i) in
      let same : i + 0 ≡ i = omega arith in
      let here : has_file (config_path cfg (pos i)) files ≡ true =
        (let first = all 0 (omega arith) in rw same at first) in
      let starts = reads name cfg.binary_path (config_path cfg (pos i)) s here in
      let (s', spawned) =
        manager.spawn_process name cfg.binary_path (config_path cfg (pos i) ∷ []) s in
      elim (Option-cases spawned) [
        | inl e ↦ absurd (differs e starts)
        | inr (h, e) ↦
            rw (e, start_each)
              (start_each_lem cfg (suc i) ports (hs ++ h ∷ []) s' (λ j less.
                let next : suc i + j ≡ i + suc j = omega arith in
                rw next (all (suc j) (omega arith))))
      ]

  start_lem :
      (p : LegacyProxy) (s : S)
      → ((j : ℕ) → j < length p.ports → has_file (config_path p.cfg (pos j)) files ≡ true)
      → (start manager p s).2 ≡ true
  unfolding start
  start_lem p s all =
      let ok =
        start_each_lem p.cfg 0 p.ports [] s
          (λ j less. let none_more : 0 + j ≡ j = omega arith in rw none_more (all j less)) in
      elim (Bool-cases (length p.ports == 0)) [ inl e ↦ rw e refl | inr e ↦ rw e ok ]

-- Where the instances are numbered from 0, as the Tor manager numbers those that it creates, a legacy
-- setup that succeeds returns for each instance the start port plus its id; and a start after it succeeds
-- with every manager that starts a program on a file that is there, since each file that the start names
-- has been written.
pub start-legacy_setup :
    {S : Type 0} (manager : ProcessManager S) (s : S) (writable : String → Bool)
    (instances : List Instance) (files : Files) (p : LegacyProxy)
    → IsNumbered 0 instances
    → is_some (legacy_setup writable instances files p).2 ≡ true
    → Reads manager (legacy_setup writable instances files p).1
    → let (p', files', result) = legacy_setup writable instances files p in
      (result ≡ some (map (λ (inst : Instance). add64 p.cfg.start_port inst.id) instances))
      × (result ≡ some p'.ports)
      × ((start manager p' s).2 ≡ true)
unfolding legacy_setup
start-legacy_setup manager s writable instances files p numbered done reads =
    elim (Bool-cases (setup_each writable p.cfg instances files).2) [
      | inl e ↦
          let (ports, files', ok) = setup_each writable p.cfg instances files in
          let (long, all) = setup_writes writable p.cfg instances files 0 numbered e in
          let each : (j : ℕ)
              → j < length ports
              → has_file (config_path p.cfg (pos j)) files' ≡ true =
            λ j less.
              let from : 0 + j ≡ j = omega arith in
              (let there = all j (omega (arith, long)) in rw from at there) in
          (
            rw e (ap some (setup_ports writable p.cfg instances files e)),
            rw e refl,
            start_lem manager files' reads (record p { ports = ports }) s each,
          )
      | inr e ↦ absurd (let bad : false ≡ true = rw e at done in ground arith)
    ]
