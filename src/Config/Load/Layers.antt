-- ===== src/Config/Load/Layers.antt =====
-- What a configuration that `Load` returns is like.
use splitter.Prelude.{
  String, ◌≡◌, refl, ◌≢◌, true, false, Option, none, some, arith, str_eq_iff, to_upper,
}
use splitter.Config.Types.{Config}
use splitter.Config.Env.{apply_env_overrides}
use splitter.Config.Validate.{Violation, validate}
use splitter.Config.Validate.Accepts.{IsValid, validate_sound}
use splitter.Config.Flags.{FlagReader}
use splitter.Config.Flags
use splitter.Config.Load.{
  World, LoadOptions, Loaded, ok, err, ◌>>=◌, or_default, with_flags, set_log_level, set_log,
  checked, finish_load, prepare, load,
}

bind_ok :
    (m : Loaded) (f : Config → Loaded) {c : Config}
    → (m >>= f) ≡ ok c
    → (d : Config) × (m ≡ ok d) × (f d ≡ ok c)
bind_ok (ok d) f h = (d, refl, h)
bind_ok (err e) f h = cc

checked_ok :
    (c : Config) (v : Option Violation) {d : Config} → checked c v ≡ ok d → (v ≡ none) × (c ≡ d)
checked_ok c none h = (refl, cc)
checked_ok c (some e) h = cc

finish_ok :
    (w : World) (opts : LoadOptions) (d : Config) {c : Config}
    → finish_load w opts d ≡ ok c
    → let final = set_log (
        set_log_level (
          with_flags opts.flags
            (apply_env_overrides d (or_default opts.env_prefix "SPLITTER_") w.environ))) in
      (validate final ≡ none) × (final ≡ c)
unfolding finish_load
finish_ok w opts d h = checked_ok _ _ h

unfold_load :
    (w : World) (opts : LoadOptions) {c : Config}
    → load w opts ≡ ok c
    → (prepare w opts >>= finish_load w opts) ≡ ok c
unfolding load
unfold_load w opts h = h

-- The levels of the log agree.
pub record LogAgrees (c : Config) : Type 0 where
  pub level : c.log_level ≢ "" → c.logging.level ≡ to_upper c.log_level
  pub enabled : c.log ≡ true → c.logging.enabled ≡ true

log_agrees : (c : Config) → LogAgrees (set_log (set_log_level c))
unfolding set_log set_log_level
log_agrees c = record {
  level = λ h. ground (arith, h, str_eq_iff c.log_level "");
  enabled = λ h. ground arith;
}

-- A configuration that `Load` returns keeps every rule of `Validate`; a log level that was given is, in
-- upper case, the level that the logger reads, and the log switch turns the logger on.
pub load-IsValid :
    (w : World) (opts : LoadOptions) {c : Config} → load w opts ≡ ok c → IsValid c × LogAgrees c
load-IsValid w opts h =
    let (d, prepared, e) = bind_ok (prepare w opts) (finish_load w opts) (unfold_load w opts h) in
    let (valid, same) = finish_ok w opts d e in
    let overridden = apply_env_overrides d (or_default opts.env_prefix "SPLITTER_") w.environ in
    rw (← same) (validate_sound _ valid, log_agrees (with_flags opts.flags overridden))

-- Options with no flags and the prefix of the program's variables, as the reload of `run` gives them.
unfoldable pub without_flags : String → String → String → LoadOptions
without_flags config_path profiles_path user_agents_path = record {
  config_path = config_path;
  profiles_path = profiles_path;
  user_agents_path = user_agents_path;
  env_prefix = "SPLITTER_";
  flags = none;
}

unfoldable pub named : String → Config → Config
named name c = record c { profile = name }

abbrev pub NoProfileFlag : Option FlagReader → Type 0
NoProfileFlag none = Unit
NoProfileFlag (some flags) = flags.changed "profile" ≡ false

-- The flags, if any, leave the profile alone, and the variables have the prefix of the program.
abbrev pub KeepsProfile : LoadOptions → Type 0
KeepsProfile opts = (opts.env_prefix ≡ "SPLITTER_") × NoProfileFlag opts.flags

abbrev Keeps : String → (Config → Config) → Type 0
Keeps name f = (c : Config) → f (named name c) ≡ named name (f c)
