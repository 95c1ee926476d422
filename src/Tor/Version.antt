-- ===== src/Tor/Version.antt =====
-- internal/tor/version.go: the version of a Tor binary, its features, and its TLS library.
-- The two regular expressions are written out as matchers: the leftmost match, digits taken greedily.
pub mod Features
use Prim.Native.Char.{Char, code}
use Prim.Native.String.{◌++◌ as text_append}
use splitter.Prelude.{
  String, ◌≡◌, refl, Bool, false, not, ◌&&◌, ◌||◌, Option, none, some, List, [], ◌∷◌, str_eq, leb,
  ◌==◌, if◌then◌else◌, ℤ, ltb_ℤ, leb_ℤ, eqb_ℤ, strip_prefix, Parsed, strconv_atoi, pos, exact,
  clamped, syntax_error,
}

pub record Version : Type 0 where
  pub major : ℤ
  pub minor : ℤ
  pub patch : ℤ
  pub release : ℤ

unfoldable pub at_least : Version → ℤ → ℤ → ℤ → ℤ → Bool
at_least v major minor patch release =
    if not (eqb_ℤ v.major major)
    then ltb_ℤ major v.major
    else if not (eqb_ℤ v.minor minor)
    then ltb_ℤ minor v.minor
    else if not (eqb_ℤ v.patch patch)
    then ltb_ℤ patch v.patch
    else leb_ℤ release v.release

unfoldable pub supports_conflux : Version → Bool
supports_conflux v = at_least v (pos 0) (pos 4) (pos 8) (pos 0)

unfoldable pub supports_http_tunnel : Version → Bool
supports_http_tunnel v = at_least v (pos 0) (pos 4) (pos 8) (pos 0)

unfoldable pub supports_congestion_control : Version → Bool
supports_congestion_control v = at_least v (pos 0) (pos 4) (pos 7) (pos 0)

unfoldable pub supports_cgo : Version → Bool
supports_cgo v = at_least v (pos 0) (pos 4) (pos 9) (pos 0)

unfoldable pub supports_tls13 : Version → Bool
supports_tls13 v = at_least v (pos 0) (pos 4) (pos 9) (pos 0)

unfoldable pub supports_sandbox : Version → Bool
supports_sandbox v = at_least v (pos 0) (pos 4) (pos 7) (pos 0)

unfoldable pub supports_happy_families : Version → Bool
supports_happy_families v = at_least v (pos 0) (pos 4) (pos 9) (pos 0)

unfoldable pub supports_post_quantum : Version → Bool
supports_post_quantum v = at_least v (pos 0) (pos 4) (pos 8) (pos 17)

abbrev is_digit : Char → Bool
is_digit c = leb 48 (code c) && leb (code c) 57

-- `\s` of a regular expression.
abbrev is_blank : Char → Bool
is_blank c = let n = code c in n == 32 || ((leb 9 n && leb n 10) || (leb 12 n && leb n 13))

-- The longest run of such characters in front of a text, and the rest.
unfoldable pub span : (Char → Bool) → String → String × String
span p String.[] = (String.[], String.[])
span p (String.◌∷◌ c s) =
    let rest = span p s in
    if p c then (String.◌∷◌ c rest.0, rest.1) else (String.[], String.◌∷◌ c s)

-- One character or more.
unfoldable pub span1 : (Char → Bool) → String → Option (String × String)
span1 p s = let (run, rest) = span p s in if str_eq run "" then none else some (run, rest)

infixl 5 ◌>>=◌
abbrev ◌>>=◌ {ℓ κ} : {A : Type ℓ} {B : Type κ} → Option A → (A → Option B) → Option B
none >>= f = none
some a >>= f = f a

-- `(\d+)\.(\d+)\.(\d+)` in front of a text: the groups, and the rest.
unfoldable pub three_numbers : String → Option (String × String × String × String)
unfolding span1
three_numbers s = do
  (a, s1) ← span1 is_digit s
  s2 ← strip_prefix "." s1
  (b, s3) ← span1 is_digit s2
  s4 ← strip_prefix "." s3
  (c, s5) ← span1 is_digit s4
  some (a, b, c, s5)

-- `(?:\.(\d+))?`: the group, empty where it takes no part.
unfoldable pub fourth_number : String → String
unfolding span1
fourth_number s = elim (do s1 ← strip_prefix "." s; span1 is_digit s1) [
  | none ↦ ""
  | some (d, rest) ↦ d
]

-- The leftmost position at which a matcher succeeds.
unfoldable pub leftmost {ℓ} : {A : Type ℓ} → (String → Option A) → String → Option A
leftmost m String.[] = m String.[]
leftmost m (String.◌∷◌ c s) =
    let rest = leftmost m s in elim (m (String.◌∷◌ c s)) [ none ↦ rest | some a ↦ some a ]

-- `versionRegex`: the four groups.
unfoldable pub version_groups : String → Option (String × String × String × String)
unfolding three_numbers fourth_number
version_groups s = do
  s1 ← strip_prefix "Tor version " s
  (a, b, c, s2) ← three_numbers s1
  some (a, b, c, fourth_number s2)

abbrev if_exact : Parsed → Option ℤ
if_exact (exact z) = some z
if_exact (clamped z) = none
if_exact syntax_error = none

abbrev or_zero : Option ℤ → ℤ
or_zero none = pos 0
or_zero (some z) = z

-- A matched line's version: `none` where the loop goes on to the next line.
unfoldable pub version_of_groups : String × String × String × String → Option Version
version_of_groups (a, b, c, d) = do
  major ← if_exact (strconv_atoi a)
  minor ← if_exact (strconv_atoi b)
  patch ← if_exact (strconv_atoi c)
  let release = if str_eq d "" then pos 0 else or_zero (if_exact (strconv_atoi d))
  some (record { major = major; minor = minor; patch = patch; release = release })

unfoldable pub version_of_line : String → Option Version
unfolding leftmost version_groups version_of_groups
version_of_line line = do groups ← leftmost version_groups line; version_of_groups groups

-- `strings.Split(output, "\n")`
unfoldable pub split_lines : String → String × List String
split_lines String.[] = ("", [])
split_lines (String.◌∷◌ c s) =
    let (line, lines) = split_lines s in
    if code c == 10 then ("", line ∷ lines) else (String.◌∷◌ c line, lines)

abbrev pub lines_of : String → List String
lines_of s = let (line, rest) = split_lines s in line ∷ rest

-- The loop of `parseVersionOutput`; `none` is its error.
unfoldable pub first_version : List String → Option Version
first_version [] = none
first_version (line ∷ rest) =
    let later = first_version rest in elim (version_of_line line) [ none ↦ later | some v ↦ some v ]

unfoldable pub parse_version_output : String → Option Version
unfolding split_lines first_version version_of_line
parse_version_output output = first_version (lines_of output)

pub record TlsInfo : Type 0 where
  pub openssl_version : String
  pub post_quantum_ok : Bool

unfoldable pub is_openssl_at_least : ℤ → ℤ → ℤ → ℤ → ℤ → ℤ → Bool
is_openssl_at_least major minor patch want_major want_minor want_patch =
    if not (eqb_ℤ major want_major)
    then ltb_ℤ want_major major
    else if not (eqb_ℤ minor want_minor)
    then ltb_ℤ want_minor minor
    else leb_ℤ want_patch patch

-- `openSSLRegex`: the text between the name and the numbers, and the three groups.
unfoldable pub openssl_groups : String → Option (String × String × String × String)
unfolding three_numbers span1
openssl_groups s = do
  s1 ← strip_prefix "OpenSSL" s
  (blank, s2) ← span1 is_blank s1
  (a, b, c, s3) ← three_numbers s2
  some (blank, a, b, c)

abbrev three_exact : Parsed → Parsed → Parsed → Bool
three_exact (exact a) (exact b) (exact c) = is_openssl_at_least a b c (pos 3) (pos 5) (pos 0)
three_exact _ _ _ = false

infixr 65 ◌+++◌
abbrev ◌+++◌ : String → String → String
s +++ t = text_append s t

abbrev tls_of_groups : Option (String × String × String × String) → TlsInfo
tls_of_groups none = record { openssl_version = ""; post_quantum_ok = false }
tls_of_groups (some (blank, a, b, c)) = record {
  openssl_version = "OpenSSL" +++ (blank +++ (a +++ ("." +++ (b +++ ("." +++ c)))));
  post_quantum_ok = three_exact (strconv_atoi a) (strconv_atoi b) (strconv_atoi c);
}

unfoldable pub parse_tls_info : String → TlsInfo
unfolding leftmost openssl_groups is_openssl_at_least
parse_tls_info output = tls_of_groups (leftmost openssl_groups output)

parses_four :
    parse_version_output "x\nTor version 0.4.8.17 (git-1).\n"
    ≡ some (record { major = pos 0; minor = pos 4; patch = pos 8; release = pos 17 })
unfolding parse_version_output span strip_prefix strconv_atoi
parses_four = refl
