-- ===== src/Cmd/Reload.antt =====
-- cmd/run.go: what a reload leaves behind.
use mathlib.Core.Path.{subst}
use splitter.Prelude.{
  String, ◌≡◌, refl, ap, ◌∙◌, inl, inr, Bool, true, false, ◌||◌, some, arith, if◌then◌else◌,
  Bool-cases, Option-cases, some-inj, eqb_ℤ_refl, str_eq_refl,
}
use splitter.Config.Types.{Config}
use splitter.Config.Load.{ok}
use splitter.Config.Equal.{
  Strings-discrete, ProxyConfig-discrete, HealthCheckConfig-discrete, PrivoxyConfig-discrete,
}
use splitter.Haproxy.{HaproxyManager, build_config_data, generate_config, reload_haproxy}
use splitter.Cmd.{
  eqb_Bool, deep_equal, ConfigDiff, diff_config, summary, App, ReloadWorld, Report, reloaded,
  after_reload, after_generate, with_country, with_proxy, reload_proxy, reload_with, reload_if,
  move_if, handle_reload, parts, join,
}

pub deep_equal_refl : {A : Type 0} (d : Discrete A) (a : A) → deep_equal d a a ≡ true
deep_equal_refl d a = elim (d a a) as (λ x. elim x [ yes _ ↦ true | no _ ↦ false ] ≡ true) [
  | yes _ ↦ refl
  | no n ↦ absurd (n refl)
]

eqb_Bool_refl : (b : Bool) → eqb_Bool b b ≡ true
eqb_Bool_refl true = refl
eqb_Bool_refl false = refl

-- The two configurations differ in nothing that a reload can apply.
abbrev pub IsSettled : Config → Config → Type 0
IsSettled cfg new =
    ((diff_config cfg new).country_list_changed ≡ false)
    × ((diff_config cfg new).rotation_changed ≡ false)
    × ((diff_config cfg new).haproxy_changed ≡ false)

with_country-IsSettled :
    (new : Config) (app : App)
    → let d = diff_config (with_country new app).cfg new in
      (d.country_list_changed ≡ false) × (d.rotation_changed ≡ false)
unfolding diff_config
with_country-IsSettled new app =
    let k = new.country in
    let r = new.country.rotation in
    (
      rw
          (
            deep_equal_refl Strings-discrete k.accepted,
            deep_equal_refl Strings-discrete k.blacklisted,
          )
          refl,
      rw (eqb_ℤ_refl r.interval, eqb_Bool_refl r.enabled, eqb_ℤ_refl r.total_to_change) refl,
    )

with_proxy-IsSettled :
    (new : Config) (app : App) → (diff_config (with_proxy new app).cfg new).haproxy_changed ≡ false
unfolding diff_config
with_proxy-IsSettled new app =
    rw
      (
        deep_equal_refl ProxyConfig-discrete new.proxy,
        deep_equal_refl HealthCheckConfig-discrete new.health_check,
        eqb_ℤ_refl new.instances.retries,
        str_eq_refl new.proxy_mode,
        deep_equal_refl PrivoxyConfig-discrete new.privoxy,
      )
      refl

-- The rest of the differences is not touched.
abbrev rest_of : ConfigDiff → Bool × Bool
rest_of d = (d.haproxy_changed, d.tor_changed)

move_if-rest_of :
    (changed : Bool) (new : Config) (app : App)
    → rest_of (diff_config (move_if changed new app).cfg new) ≡ rest_of (diff_config app.cfg new)
unfolding diff_config
move_if-rest_of true new app = refl
move_if-rest_of false new app = refl

either_false : (a b : Bool) → (a || b) ≡ false → (a ≡ false) × (b ≡ false)
either_false true b h = ground arith
either_false false b h = (refl, h)

move_if-IsSettled :
    (changed : Bool) (new : Config) (app : App)
    → ((diff_config app.cfg new).country_list_changed || (diff_config app.cfg new).rotation_changed)
      ≡ changed
    → let d = diff_config (move_if changed new app).cfg new in
      (d.country_list_changed ≡ false) × (d.rotation_changed ≡ false)
move_if-IsSettled true new app h = with_country-IsSettled new app
move_if-IsSettled false new app h =
    either_false (diff_config app.cfg new).country_list_changed
      (diff_config app.cfg new).rotation_changed h

with_proxy-rest :
    (new : Config) (app : App)
    → let d = diff_config (with_proxy new app).cfg new in
      let e = diff_config app.cfg new in
      (d.country_list_changed ≡ e.country_list_changed)
      × (d.rotation_changed ≡ e.rotation_changed)
      × (d.tor_changed ≡ e.tor_changed)
unfolding diff_config
with_proxy-rest new app = (refl, refl, refl)

-- The configuration that a reload leaves when it has loaded `new`, whether or not it goes on to succeed.
abbrev applied : Config → App → App
applied new app =
    let d = diff_config app.cfg new in
    let there = move_if (d.country_list_changed || d.rotation_changed) new app in
    if d.haproxy_changed then with_proxy new there else there

applied-IsSettled :
    (new : Config) (app : App)
    → IsSettled (applied new app).cfg new
      × ((diff_config (applied new app).cfg new).tor_changed
          ≡ (diff_config app.cfg new).tor_changed)
applied-IsSettled new app =
    let d = diff_config app.cfg new in
    let changed = d.country_list_changed || d.rotation_changed in
    let there = move_if changed new app in
    let (k, r) = move_if-IsSettled changed new app refl in
    let rest = move_if-rest_of changed new app in
    elim (Bool-cases d.haproxy_changed) [
      | inl e ↦
          let (k', r', t') = with_proxy-rest new there in
          rw e ((k' ∙ k, r' ∙ r, with_proxy-IsSettled new there), t' ∙ ap (λ q. q.1) rest)
      | inr e ↦ rw e ((k, r, ap (λ q. q.0) rest ∙ e), ap (λ q. q.1) rest)
    ]

abbrev Kept : App → App → Type 0
Kept old app = (app.cfg ≡ old.cfg) × (app.tor ≡ old.tor)

after_reload-Kept :
    (s : String) (app : App) (result : HaproxyManager × Bool)
    → Kept app (after_reload s app result).0
after_reload-Kept s app (h, failed) = (refl, refl)

after_generate-Kept :
    (w : ReloadWorld) (s : String) (app : App) (result : HaproxyManager × Bool)
    → Kept app (after_generate w s app result).0
after_generate-Kept w s app (h, true) = (refl, refl)
after_generate-Kept w s app (h, false) = after_reload-Kept s app (reload_haproxy w.spawned h)

reload_proxy-Kept :
    (w : ReloadWorld) (s : String) (app : App) {app' : App} {r : Report}
    → reload_proxy w s app ≡ some (app', r)
    → Kept app app'
unfolding reload_proxy
reload_proxy-Kept w s app h =
    let built =
      build_config_data w.shuffle_http w.shuffle_socks app.cfg app.tor.instances
        app.haproxy.stats_password in
    elim (Option-cases built) [
      | inl e ↦ absurd (cc (rw (e, reload_proxy) at h))
      | inr (d, e) ↦
          subst (λ q. Kept app q.0) (some-inj (rw (e, reload_proxy) at h))
            (after_generate-Kept w s app (generate_config w.generated d app.haproxy))
    ]

reload_if-Kept :
    (changed : Bool) (w : ReloadWorld) (s : String) (new : Config) (app : App) {app' : App}
    {r : Report}
    → reload_if changed w s new app ≡ some (app', r)
    → Kept (if changed then with_proxy new app else app) app'
reload_if-Kept true w s new app h = reload_proxy-Kept w s (with_proxy new app) h
reload_if-Kept false w s new app h = subst (λ q. Kept app q.0) (some-inj h) (refl, refl)

reload_with-Kept :
    (w : ReloadWorld) (new : Config) (app : App) {app' : App} {r : Report}
    → reload_with w new app ≡ some (app', r)
    → Kept (applied new app) app'
unfolding reload_with
reload_with-Kept w new app h =
    let d = diff_config app.cfg new in
    reload_if-Kept d.haproxy_changed w (summary d) new
      (move_if (d.country_list_changed || d.rotation_changed) new app) h

-- Whatever a reload goes on to do once it has loaded `new`, whether it writes the HAProxy file and
-- restarts HAProxy or fails: the configuration in use then differs from `new` only where a reload takes
-- over nothing: the changes to the Tor part are those that there were.
pub handle_reload-IsSettled :
    (w : ReloadWorld) (new : Config) (app : App) {app' : App} {r : Report}
    → handle_reload w (ok new) app ≡ some (app', r)
    → IsSettled app'.cfg new
      × ((diff_config app'.cfg new).tor_changed ≡ (diff_config app.cfg new).tor_changed)
unfolding handle_reload
handle_reload-IsSettled w new app h =
    let (same, _) = reload_with-Kept w new app h in rw same (applied-IsSettled new app)

-- A second reload of the same configuration finds no more to do, and says so as a success: the state
-- stays as it is, HAProxy included. This holds also where the first reload failed to write the HAProxy
-- file or to restart HAProxy, so that the failed step is not tried again.
pub reloads_once :
    (w : ReloadWorld) (new : Config) (app : App) {app' : App} {r : Report}
    → handle_reload w (ok new) app ≡ some (app', r)
    → (later : ReloadWorld)
    → handle_reload later (ok new) app'
      ≡ some (
        app',
        reloaded (
            if (diff_config app.cfg new).tor_changed
            then "tor config (restart needed)"
            else "no changes detected"),
      )
unfolding handle_reload reload_with summary parts join
reloads_once w new app h later =
    let ((k, r, x), t) = handle_reload-IsSettled w new app h in
    rw (k, r, x, t)
      (elim (Bool-cases (diff_config app.cfg new).tor_changed) [
        | inl e ↦ rw e refl
        | inr e ↦ rw e refl
      ])
