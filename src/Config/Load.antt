-- ===== src/Config/Load.antt =====
-- internal/config/loader.go: `Load`, the layers of the configuration in their order.
pub mod Layers
use splitter.Prelude.{
  String, true, not, Option, none, some, List, [], ◌∷◌, str_eq, ltb, if◌then◌else◌, length,
  to_upper,
}
use splitter.Config.Types.{Config}
use splitter.Config.Defaults.{defaults}
use splitter.Config.Profiles.{ProfileEntry, apply_entry}
use splitter.Config.Env.{apply_env_overrides}
use splitter.Config.Flags.{FlagReader, apply_flags}
use splitter.Config.Validate.{Violation, validate}

-- What `os.ReadFile` returns: an error that `os.IsNotExist` knows, another error, or the text.
pub data FileRead : Type 0 where
  missing failed : FileRead
  contents : String → FileRead

pub record UserAgentsFile : Type 0 where
  pub user_agents : List String
  pub default : String

-- What lies outside of the program: files, the environment, and the yaml decoder, whose error is
-- `none`. Decoding a configuration overwrites the fields that the text names.
pub record World : Type 0 where
  pub read_file : String → FileRead
  pub environ : List String
  pub decode_config : String → Config → Option Config
  pub decode_profiles : String → Option (List (String × ProfileEntry))
  pub decode_user_agents : String → Option UserAgentsFile

pub record LoadOptions : Type 0 where
  pub config_path : String
  pub profiles_path : String
  pub user_agents_path : String
  pub env_prefix : String
  pub flags : Option FlagReader

pub data LoadError : Type 0 where
  reading parsing unknown_profile : String → LoadError
  invalid : Violation → LoadError

pub data Loaded : Type 0 where
  ok : Config → Loaded
  err : LoadError → Loaded

infixl 5 ◌>>=◌
abbrev pub ◌>>=◌ : Loaded → (Config → Loaded) → Loaded
ok c >>= f = f c
err e >>= f = err e

abbrev pub or_default : String → String → String
or_default s d = if str_eq s "" then d else s

abbrev pub decoded : String → Option Config → Loaded
decoded path none = err (parsing path)
decoded path (some c) = ok c

unfoldable pub load_yaml : World → String → Config → Loaded
load_yaml w path c = elim (w.read_file path) [
  | missing ↦ ok c
  | failed ↦ err (reading path)
  | contents text ↦ decoded path (w.decode_config text c)
]

abbrev pub take_user_agents : UserAgentsFile → Config → Config
take_user_agents f c =
    let agents = if ltb 0 (length f.user_agents) then f.user_agents else c.user_agent.user_agents in
    if not (str_eq f.default "")
    then record c {
      user_agent = record c.user_agent {
        user_agents = agents;
        default = f.default;
        tor_browser = f.default;
      };
    }
    else record c { user_agent = record c.user_agent { user_agents = agents } }

abbrev pub decoded_agents : String → Option UserAgentsFile → Config → Loaded
decoded_agents path none c = err (parsing path)
decoded_agents path (some f) c = ok (take_user_agents f c)

unfoldable pub load_user_agents : World → String → Config → Loaded
load_user_agents w given c =
    let path = or_default given "configs/useragents.yaml" in
    elim (w.read_file path) [
      | missing ↦ ok c
      | failed ↦ err (reading path)
      | contents text ↦ decoded_agents path (w.decode_user_agents text) c
    ]

-- `entry, ok := profiles[profileName]`
abbrev pub find_profile : String → List (String × ProfileEntry) → Option ProfileEntry
find_profile k [] = none
find_profile k ((j, e) ∷ m) = if str_eq j k then some e else find_profile k m

abbrev pub found_profile : String → Option ProfileEntry → Config → Loaded
found_profile name none c = err (unknown_profile name)
found_profile name (some e) c = ok (apply_entry e c)

abbrev pub decoded_profiles :
    String → String → Option (List (String × ProfileEntry)) → Config → Loaded
decoded_profiles path name none c = err (parsing path)
decoded_profiles path name (some m) c = found_profile name (find_profile name m) c

-- A missing file is an error here: `applyProfile` makes no test for it.
unfoldable pub apply_profile : World → String → String → Config → Loaded
apply_profile w name given c =
    if str_eq name ""
    then ok c
    else let path = or_default given "configs/profiles.yaml" in
      elim (w.read_file path) [
        | missing ↦ err (reading path)
        | failed ↦ err (reading path)
        | contents text ↦ decoded_profiles path name (w.decode_profiles text) c
      ]

-- The profile's name: that of the file, unless the flag was given.
abbrev pub profile_flag : Option FlagReader → Option String
profile_flag none = none
profile_flag (some flags) = if flags.changed "profile" then flags.get_string "profile" else none

abbrev pub with_profile : Option String → Config → Config
with_profile none c = c
with_profile (some name) c = record c { profile = name }

abbrev pub with_flags : Option FlagReader → Config → Config
with_flags none c = c
with_flags (some flags) c = apply_flags flags c

unfoldable pub set_log_level : Config → Config
set_log_level c =
    if not (str_eq c.log_level "")
    then record c { logging = record c.logging { level = to_upper c.log_level } }
    else c

unfoldable pub set_log : Config → Config
set_log c = if c.log then record c { logging = record c.logging { enabled = true } } else c

abbrev pub checked : Config → Option Violation → Loaded
checked c none = ok c
checked c (some v) = err (invalid v)

-- What `Load` does behind `applyProfile`.
unfoldable pub finish_load : World → LoadOptions → Config → Loaded
unfolding set_log_level set_log
finish_load w opts c =
    let overridden = apply_env_overrides c (or_default opts.env_prefix "SPLITTER_") w.environ in
    let final = set_log (set_log_level (with_flags opts.flags overridden)) in
    checked final (validate final)

-- `Load` up to `applyProfile`: the files.
unfoldable pub prepare : World → LoadOptions → Loaded
unfolding load_yaml load_user_agents apply_profile
prepare w opts = do
  from_file ← load_yaml w (or_default opts.config_path "configs/default.yaml") defaults
  with_agents ← load_user_agents w opts.user_agents_path from_file
  let named = with_profile (profile_flag opts.flags) with_agents
  apply_profile w named.profile opts.profiles_path named

unfoldable pub load : World → LoadOptions → Loaded
load w opts = do profiled ← prepare w opts; finish_load w opts profiled
