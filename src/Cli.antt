-- ===== src/Cli.antt =====
-- internal/cli/flags.go and logger.go, internal/profile/profile.go, internal/haproxy/stats_password.go and
-- internal/process/cleanup.go: the small parts around the command line.
use Prim.Native.String.{◌++◌ as text_append}
use splitter.Prelude.{
  ℕ, zero, suc, ◌%◌, String, ◌≡◌, refl, ap, inl, inr, Bool, true, false, not, ◌||◌, Option, none,
  some, List, [], ◌∷◌, arith, str_eq, ◌==◌, if◌then◌else◌, Bool-cases, length, to_upper, count,
}
use splitter.Config.Types.{Config}
use splitter.Config.Validate.{in_set, profile_names}

-- `PreprocessArgs`
unfoldable pub preprocess_args : List String → List String
preprocess_args [] = []
preprocess_args (arg ∷ args) =
    (if str_eq arg "-re" then "--relay-enforce" else arg) ∷ preprocess_args args

-- The legacy flag is gone from the arguments, which are as many as before, and a second pass changes
-- nothing.
preprocess_args_lem :
    (args : List String)
    → (count (λ arg. str_eq arg "-re") (preprocess_args args) ≡ 0)
      × (length (preprocess_args args) ≡ length args)
      × (preprocess_args (preprocess_args args) ≡ preprocess_args args)
unfolding preprocess_args
preprocess_args_lem [] = (refl, refl, refl)
preprocess_args_lem (arg ∷ args) =
    let (gone, long, same) = preprocess_args_lem args in
    elim (Bool-cases (str_eq arg "-re")) [
      | inl e ↦ rw e (omega (arith, gone), ap suc long, ap (λ t. "--relay-enforce" ∷ t) same)
      | inr e ↦ rw e (rw e (omega (arith, gone), ap suc long, ap (λ t. arg ∷ t) same))
    ]

pub data Level : Type 0 where
  debug info warn error : Level

-- `none` is an error.
unfoldable pub parse_log_level : String → Option Level
parse_log_level s =
    let upper = to_upper s in
    if str_eq upper "DEBUG"
    then some debug
    else if str_eq upper "INFO"
    then some info
    else if str_eq upper "WARN"
    then some warn
    else if str_eq upper "ERROR"
    then some error
    else none

-- The logger that is set: none of its output is kept, or its level and whether it writes JSON.
pub data Logger : Type 0 where
  discard : Logger
  stderr : Level → Bool → Logger

-- With the values of `TERM` and `NO_COLOR`.
unfoldable pub is_container : String → String → Bool
is_container term no_color = str_eq term "dumb" || not (str_eq no_color "")

abbrev pub logger_of : Bool → Option Level → Option Logger
logger_of json none = none
logger_of json (some level) = some (stderr level json)

-- `none` is an error.
unfoldable pub setup_logger : String → String → Config → Option Logger
setup_logger term no_color cfg =
    if not cfg.logging.enabled
    then some discard
    else logger_of (is_container term no_color) (parse_log_level cfg.logging.level)

abbrev pub valid_profiles : List String
valid_profiles = "stealth" ∷ "balanced" ∷ "streaming" ∷ "pentest" ∷ []

abbrev pub in_names : String → List String → Bool
in_names name [] = false
in_names name (p ∷ ps) = str_eq name p || in_names name ps

-- `profile.IsValid`
unfoldable pub is_valid : String → Bool
is_valid name = in_names name valid_profiles

in_names-in_set : (name : String) (ps : List String) → in_names name ps ≡ in_set name ps
unfolding in_set
in_names-in_set name [] = refl
in_names-in_set name (p ∷ ps) = ap (λ b. str_eq name p || b) (in_names-in_set name ps)

-- The names that `IsValid` knows are those that the validation of a configuration accepts.
is_valid-in_set : (name : String) → is_valid name ≡ in_set name profile_names
unfolding is_valid
is_valid-in_set name = in_names-in_set name valid_profiles

-- `profile.Names`
unfoldable pub names : List String
names = valid_profiles

-- The character of the set at an index; `rand.Int` is an argument, `none` where it fails.
abbrev char_at : ℕ → String → String
char_at n String.[] = ""
char_at zero (String.◌∷◌ c s) = String.◌∷◌ c String.[]
char_at (suc n) (String.◌∷◌ c s) = char_at n s

abbrev pub charset : String
charset = "abcdefghijklmnopqrstuvwxyzABCDEFGHIJKLMNOPQRSTUVWXYZ0123456789"

abbrev pub drawn : ℕ → Option ℕ → ℕ
drawn i none = i % 62
drawn i (some n) = n

abbrev pub password_from : (ℕ → Option ℕ) → ℕ → ℕ → String
password_from rand i zero = ""
password_from rand i (suc left) =
    text_append (char_at (drawn i (rand i)) charset) (password_from rand (suc i) left)

unfoldable pub generate_stats_password : (ℕ → Option ℕ) → String
generate_stats_password rand = password_from rand 0 16

password_runs : generate_stats_password (λ i. if i == 1 then none else some 61) ≡ "9b99999999999999"
unfolding generate_stats_password
password_runs = refl

-- Whether `Cleanup` removes the directory, and whether it reports an error: what `RemoveAll` finds is an
-- argument.
pub data Removed : Type 0 where
  removed not_there failed : Removed

abbrev pub remove_error : Removed → Bool
remove_error failed = true
remove_error _ = false

unfoldable pub cleanup : String → Removed → Bool
cleanup tmp_dir result = if str_eq tmp_dir "" then false else remove_error result
