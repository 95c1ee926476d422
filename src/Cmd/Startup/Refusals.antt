-- ===== src/Cmd/Startup/Refusals.antt =====
-- cmd/run.go: what a run that is refused leaves.
use splitter.Prelude.{
  ◌+◌, ◌*◌, String, ◌≡◌, refl, sym, ap, ◌∙◌, ◌⊎◌, inl, inr, Bool, true, false, Option, none, some,
  List, [], ◌∷◌, ◌++◌, map, append_assoc, append-nil, arith, Bool-cases, Option-cases, length,
  length-append, All, ℤ, decimal, int_text, pos,
}
use splitter.Config.Types.{Config}
use splitter.Tor.Restart.{
  Event, cancelled, launching, returned, Runner, begin, step, run, all_ready,
}
use splitter.Tor.Restart.Signals.{WasReady, all_ready_each}
use splitter.Tor.Instance.{Instance}
use splitter.Tor.Manager.{TorManager, detect_and_create}
use splitter.Circuit.Pattern.{second}
use Prim.Native.String.{◌++◌ as text_append}
use splitter.Circuit.Renewer.{Renewer, CircuitInstance, new_renewer, add_instance, add_context}
use splitter.Circuit.Renewer
use splitter.Country.{Choice, selected, too_few, out_of_range, select_random}
use splitter.Haproxy.{ConfigData, HaproxyManager, generate_config, build_config_data, start_haproxy}
use splitter.Health.Check.{CheckResult, Checked, passed, lacking, check_dependencies}
use splitter.Cmd.Startup.{
  deferred_stop, loops, traces, StartWorld, StartError, no_haproxy_config, no_haproxy, System,
  Started, serving, refused, fresh_system, before_stop, cookie_path, add_each, after_config,
  start_proxy, after_renewal, start_tor, after_create, after_selection, after_check, run_startup,
}

-- The refusals behind the start of Tor and of the renewal.
abbrev pub is_late : StartError → Bool
is_late no_haproxy_config = true
is_late no_haproxy = true
is_late _ = false

abbrev pub Left : StartWorld → System → Type 0
Left w s =
    (s.runners ≡ loops w s.manager.instances)
    × (all_ready (loops w s.manager.instances) ≡ true)
    × (s.renewer.contexts ≡ false ∷ [])

abbrev LeftBy : StartWorld → Started → Type 0
LeftBy w (serving r s) = Unit
LeftBy w (refused e s) = is_late e ≡ true → Left w s

config-Left :
    (w : StartWorld) (r : CheckResult) (s : System) (h : HaproxyManager × Bool)
    → Left w s
    → LeftBy w (after_config w r s h)
unfolding start_haproxy
config-Left w r s (h, true) left = λ _. left
config-Left w r s (h, false) left = elim (Option-cases w.haproxy_pid) [
  | inl e ↦ rw e (λ _. left)
  | inr (pid, e) ↦ rw e tt
]

proxy-Left :
    (w : StartWorld) (r : CheckResult) (s : System) (o : Option ConfigData)
    → Left w s
    → LeftBy w (start_proxy w r s o)
proxy-Left w r s none left = λ h. ground arith
proxy-Left w r s (some d) left = config-Left w r s (generate_config w.generated d s.haproxy) left

renewal_left :
    (w : StartWorld) (cfg : Config) (r : CheckResult) (s : System) (o : Renewer × Bool)
    → s.runners ≡ loops w s.manager.instances
    → all_ready (loops w s.manager.instances) ≡ true
    → (o.1 ≡ true → o.0.contexts ≡ false ∷ [])
    → LeftBy w (after_renewal w cfg r s o)
renewal_left w cfg r s (renewer, false) same up h = λ h. ground arith
renewal_left w cfg r s (renewer, true) same up h =
    proxy-Left w r (record s { renewer = renewer })
      (build_config_data w.shuffle_http w.shuffle_socks cfg s.manager.instances w.stats_password)
      (same, up, h refl)

pub contexts-add_each :
    (cfg : Config) (instances : List Instance) (r : Renewer)
    → (add_each cfg instances r).contexts ≡ r.contexts
unfolding add_instance
contexts-add_each cfg [] r = refl
contexts-add_each cfg (inst ∷ rest) r =
    contexts-add_each cfg rest
      (add_instance (pos inst.id) inst.control_port (cookie_path cfg inst) r)

pub length-add_each :
    (cfg : Config) (instances : List Instance) (r : Renewer)
    → length (add_each cfg instances r).instances ≡ length r.instances + length instances
unfolding add_instance
length-add_each cfg [] r = omega arith
length-add_each cfg (inst ∷ rest) r =
    let one : CircuitInstance = record {
      id = pos inst.id;
      control_addr = text_append "127.0.0.1:" (int_text inst.control_port);
      cookie_path = cookie_path cfg inst;
      min_interval = 10 * second;
      max_interval = 15 * second;
    } in
    omega (
      arith,
      length-add_each cfg rest
          (add_instance (pos inst.id) inst.control_port (cookie_path cfg inst) r),
      length-append r.instances (one ∷ []),
    )

-- The id, the address of the control port and the cookie of an instance whose circuits are renewed.
abbrev pub renewal : CircuitInstance → ℤ × String × String
renewal ci = (ci.id, ci.control_addr, ci.cookie_path)

abbrev pub renewal_of : Config → Instance → ℤ × String × String
renewal_of cfg inst = (
  pos inst.id,
  text_append "127.0.0.1:" (int_text inst.control_port),
  text_append cfg.paths.temp_files
      (text_append "/tor_data_" (text_append (decimal inst.id) "/control_auth_cookie")),
)

map-append : {A B : Type 0} (f : A → B) (xs ys : List A) → map f (xs ++ ys) ≡ map f xs ++ map f ys
map-append f [] ys = refl
map-append f (x ∷ xs) ys = ap (λ t. f x ∷ t) (map-append f xs ys)

pub renewals-add_each :
    (cfg : Config) (instances : List Instance) (r : Renewer)
    → map renewal (add_each cfg instances r).instances
      ≡ map renewal r.instances ++ map (renewal_of cfg) instances
unfolding add_instance
renewals-add_each cfg [] r = sym (append-nil (map renewal r.instances))
renewals-add_each cfg (inst ∷ rest) r =
    let one : CircuitInstance = record {
      id = pos inst.id;
      control_addr = text_append "127.0.0.1:" (int_text inst.control_port);
      cookie_path = cookie_path cfg inst;
      min_interval = 10 * second;
      max_interval = 15 * second;
    } in
    renewals-add_each cfg rest
      (add_instance (pos inst.id) inst.control_port (cookie_path cfg inst) r)
    ∙ ap (λ t. t ++ map (renewal_of cfg) rest) (map-append renewal r.instances (one ∷ []))
    ∙ append_assoc (map renewal r.instances) (renewal one ∷ []) (map (renewal_of cfg) rest)

add_context-start :
    (r : Renewer) (cis : List CircuitInstance)
    → (add_context r cis).1 ≡ true
    → (add_context r cis).0.contexts ≡ false ∷ r.contexts
add_context-start r [] h = ground arith
add_context-start r (ci ∷ cis) h = refl

tor_left :
    (w : StartWorld) (cfg : Config) (r : CheckResult) (s : System)
    → s.renewer.contexts ≡ []
    → LeftBy w (start_tor w cfg r s)
unfolding Renewer.start
tor_left w cfg r s h = elim (Bool-cases (all_ready (loops w s.manager.instances))) [
  | inl e ↦
      let renewer = add_each cfg s.manager.instances s.renewer in
      rw e (
        renewal_left w cfg r (record s { runners = loops w s.manager.instances })
          (Renewer.start renewer) refl e
          (λ ok.
            add_context-start renewer renewer.instances ok
            ∙ ap (λ t. false ∷ t) (contexts-add_each cfg s.manager.instances s.renewer ∙ h)))
  | inr e ↦ rw e (λ k. ground arith)
]

create_left :
    (w : StartWorld) (cfg : Config) (r : CheckResult) (s : System) (o : TorManager × Bool)
    → s.renewer.contexts ≡ []
    → LeftBy w (after_create w cfg r s o)
create_left w cfg r s (m, true) h = λ k. ground arith
create_left w cfg r s (m, false) h = tor_left w cfg r (record s { manager = m }) h

selection_left :
    (w : StartWorld) (cfg : Config) (r : CheckResult) (s : System) (o : Choice)
    → s.renewer.contexts ≡ []
    → LeftBy w (after_selection w cfg r s o)
selection_left w cfg r s too_few h = λ k. ground arith
selection_left w cfg r s out_of_range h = λ k. ground arith
selection_left w cfg r s (selected countries) h =
    create_left w cfg r s (detect_and_create cfg w.detected countries s.manager) h

check_left :
    (w : StartWorld) (cfg : Config) (s : System) (o : Checked)
    → s.renewer.contexts ≡ []
    → LeftBy w (after_check w cfg s o)
check_left w cfg s (lacking e) h = λ k. ground arith
check_left w cfg s (passed r) h =
    selection_left w cfg r s
      (select_random cfg.country.accepted cfg.country.blacklisted cfg.instances.countries
        w.shuffle_countries)
      h

before_stop_left : (w : StartWorld) (cfg : Config) → LeftBy w (before_stop w cfg)
unfolding before_stop fresh_system new_renewer
before_stop_left w cfg = elim (Bool-cases w.first_dir) [
  | inr d ↦ rw d (λ k. ground arith)
  | inl d ↦ elim (Bool-cases w.second_dir) [
    | inr d' ↦ rw d (rw d' (λ k. ground arith))
    | inl d' ↦ rw d (
        rw d' (
          check_left w cfg (fresh_system w cfg) (check_dependencies w.look_path w.run_version cfg)
            refl))
  ]
]

-- The loop of an instance that has been ready, before and after the end of its context: its processes run
-- on, and the loop has returned, or it is starting a process.
abbrev pub IsOrphaned : List Event → Type 0
IsOrphaned es =
    WasReady es
    × ((step (run begin es) cancelled).live ≡ (run begin es).live)
    × (((run begin es).phase ≡ launching) ⊎ ((step (run begin es) cancelled).phase ≡ returned))

cancelled_loop :
    (r : Runner)
    → ((step r cancelled).live ≡ r.live)
      × ((r.phase ≡ launching) ⊎ ((step r cancelled).phase ≡ returned))
unfolding step
cancelled_loop r = ground arith

each-IsOrphaned : (traces : List (List Event)) → All WasReady traces → All IsOrphaned traces
each-IsOrphaned [] h = tt
each-IsOrphaned (es ∷ traces) (here, later) =
    let (lives, over) = cancelled_loop (run begin es) in
    ((here, lives, over), each-IsOrphaned traces later)

-- What the deferred cancellation leaves of a late refusal.
abbrev Abandoned : StartWorld → Started → Type 0
Abandoned w (serving r s) = Unit
Abandoned w (refused e s) =
    is_late e ≡ true
    → (s.runners ≡ map (λ r. step r cancelled) (loops w s.manager.instances))
      × All IsOrphaned (traces w s.manager.instances)
      × (s.renewer.contexts ≡ true ∷ [])

stop_abandons : (w : StartWorld) (o : Started) → LeftBy w o → Abandoned w (deferred_stop o)
stop_abandons w (serving r s) h = tt
stop_abandons w (refused e s) h = λ late.
    let (same, up, context) = h late in
    let (been, _) = all_ready_each (traces w s.manager.instances) up in
    (
      ap (map (λ r. step r cancelled)) same,
      each-IsOrphaned (traces w s.manager.instances) been,
      ap (map (λ (c : Bool). true)) context,
    )

-- A run that is refused because the configuration of HAProxy cannot be generated or HAProxy does not
-- start returns with its context cancelled, and with it the renewal. Every Tor instance has been ready by
-- then; its loop has returned, or is starting a process, and the processes of the instance run on, as
-- many as before.
pub refused-late :
    (w : StartWorld) (cfg : Config) (e : StartError) (s : System)
    → run_startup w cfg ≡ refused e s
    → is_late e ≡ true
    → (s.runners ≡ map (λ r. step r cancelled) (loops w s.manager.instances))
      × All IsOrphaned (traces w s.manager.instances)
      × (s.renewer.contexts ≡ true ∷ [])
unfolding run_startup
refused-late w cfg e s h late =
    let left : Abandoned w (run_startup w cfg) =
      stop_abandons w (before_stop w cfg) (before_stop_left w cfg) in
    let here : Abandoned w (refused e s) = rw h at left in here late
