-- ===== src/Prelude/Ascii.antt =====
-- What the program uses of Go's `strings` and `strconv`. Case and space are those of ASCII: a
-- character above 127 is left as it is.
use Prim.Native.Char.{Char, char, code, IsScalar}
use Prim.Native.String.{String, [], ◌∷◌, ◌++◌ as text_append}
use Prim.Native.String.append
use Prim.Native.Nat.{ℕ, ◌+◌, ◌-◌, ◌*◌, ◌/◌, ◌%◌, ◌^◌, zero, suc, ◌<◌, compare, Ordering}
use mathlib.Core.Path.{◌≡◌, refl, ap}
use mathlib.Core.Bool.{Bool, true, false, ◌&&◌, ◌||◌}
use text.Mathlib.Text.{◌==◌ as str_eq}
use text.Mathlib.TextEquality.{eq_iff as str_eq_iff}
use mathlib.Core.Option.{Option, none, some}
use mathlib.Core.Logic.{dite}
use native.Mathlib.Omega.{arith}
use native.Mathlib.Decide.{dec_lt}
use splitter.Prelude.Tests.{ltb, leb, ◌==◌, if◌then◌else◌}
use splitter.Prelude.Int.{ℤ, pos, negsuc}

below-lt : (n : ℕ) → n < 55296 → compare n 55296 ≡ Ordering.lt
below-lt n h = ground arith

below-IsScalar : (n : ℕ) → n < 55296 → IsScalar n
below-IsScalar n h = rw (below-lt n h) tt

-- The character of an ASCII number, and else the one given.
abbrev ascii_or : Char → ℕ → Char
unfolding below-IsScalar below-lt dec_lt
ascii_or c n = dite (dec_lt n 55296) (λ h. char n (below-IsScalar n h)) (λ _. c)

upper_char : Char → Char
upper_char c = let n = code c in if leb 97 n && leb n 122 then ascii_or c (n - 32) else c

lower_char : Char → Char
lower_char c = let n = code c in if leb 65 n && leb n 90 then ascii_or c (n + 32) else c

unfoldable pub to_upper : String → String
unfolding upper_char ascii_or
to_upper [] = []
to_upper (c ∷ s) = upper_char c ∷ to_upper s

unfoldable pub to_lower : String → String
unfolding lower_char ascii_or
to_lower [] = []
to_lower (c ∷ s) = lower_char c ∷ to_lower s

abbrev is_space : Char → Bool
is_space c = let n = code c in n == 32 || (leb 9 n && leb n 13)

-- `TrimSpace` of the left end, and of the right end.
trim_left : String → String
trim_left [] = []
trim_left (c ∷ s) = let rest = trim_left s in if is_space c then rest else c ∷ s

before : Char → String → String
before c [] = if is_space c then [] else c ∷ []
before c (d ∷ t) = c ∷ d ∷ t

trim_right : String → String
unfolding before
trim_right [] = []
trim_right (c ∷ s) = before c (trim_right s)

unfoldable pub trim_space : String → String
unfolding trim_left trim_right
trim_space s = trim_right (trim_left s)

-- `TrimPrefix` where `HasPrefix` holds, and else `none`.
unfoldable pub strip_prefix : String → String → Option String
strip_prefix [] s = some s
strip_prefix (p ∷ ps) [] = none
strip_prefix (p ∷ ps) (c ∷ s) =
    let rest = strip_prefix ps s in if code p == code c then rest else none

-- Does the text end with this character?
unfoldable pub ends_with : Char → String → Bool
ends_with p [] = false
ends_with p (c ∷ []) = code c == code p
ends_with p (c ∷ d ∷ s) = ends_with p (d ∷ s)

-- `SplitN(s, sep, 2)`: the text before the first separator and the text behind it.
unfoldable pub split_once : Char → String → Option (String × String)
split_once p [] = none
split_once p (c ∷ s) =
    let rest = split_once p s in
    if code c == code p
    then some ([], s)
    else elim rest [ none ↦ none | some (a, b) ↦ some (c ∷ a, b) ]

-- What `Atoi` returns: the number, and whether it reported an error. A number out of range comes
-- with an error and the nearest `int`; any other error comes with 0.
pub data Parsed : Type 0 where
  exact : ℤ → Parsed
  clamped : ℤ → Parsed
  syntax_error : Parsed

abbrev pub value : Parsed → ℤ
value (exact z) = z
value (clamped z) = z
value syntax_error = pos 0

pub data Digits : Type 0 where
  all : ℕ → Digits
  too_large : Digits
  no_digit : Digits

-- The loop of `ParseUint`: it stops at the first character that is no digit, or where 64 bits overflow.
digits : ℕ → String → Digits
digits n [] = all n
digits n (c ∷ s) =
    let rest = digits (n * 10 + (code c - 48)) s in
    if leb 48 (code c) && leb (code c) 57
    then (if ltb (n * 10 + (code c - 48)) (2 ^ 64) then rest else too_large)
    else no_digit

positive : Digits → Parsed
positive (all n) = if ltb n (2 ^ 63) then exact (pos n) else clamped (pos (2 ^ 63 - 1))
positive too_large = clamped (pos (2 ^ 63 - 1))
positive no_digit = syntax_error

negative : Digits → Parsed
negative (all n) =
    if n == 0
    then exact (pos 0)
    else if leb n (2 ^ 63)
    then exact (negsuc (n - 1))
    else clamped (negsuc (2 ^ 63 - 1))
negative too_large = clamped (negsuc (2 ^ 63 - 1))
negative no_digit = syntax_error

-- One digit at least is wanted.
nonempty : (String → Parsed) → String → Parsed
nonempty f [] = syntax_error
nonempty f (c ∷ s) = f (c ∷ s)

unfoldable pub strconv_atoi : String → Parsed
unfolding digits positive negative nonempty
strconv_atoi [] = syntax_error
strconv_atoi (c ∷ s) =
    if code c == 43
    then nonempty (λ t. positive (digits 0 t)) s
    else if code c == 45
    then nonempty (λ t. negative (digits 0 t)) s
    else positive (digits 0 (c ∷ s))

-- `%d` of a number: `fuel` digits at most, and a number has fewer digits than its successor.
decimal_loop : ℕ → ℕ → String → String
unfolding ascii_or
decimal_loop zero n out = out
decimal_loop (suc fuel) n out =
    let digit = ascii_or "0" (48 + n % 10) in
    let rest = decimal_loop fuel (n / 10) (digit ∷ out) in if ltb n 10 then digit ∷ out else rest

unfoldable pub decimal : ℕ → String
unfolding decimal_loop
decimal n = decimal_loop (suc n) n []

-- `%d` of an `int`.
abbrev pub int_text : ℤ → String
int_text (pos n) = decimal n
int_text (negsuc n) = text_append "-" (decimal (suc n))

decimal_runs : (decimal 0 ≡ "0") × (decimal 1207 ≡ "1207")
unfolding decimal
decimal_runs = (refl, refl)

lower_runs : to_lower "DeBuG1" ≡ "debug1"
unfolding to_lower
lower_runs = refl

upper_runs : to_upper "warn{" ≡ "WARN{"
unfolding to_upper
upper_runs = refl

trim_runs : trim_space "  on " ≡ "on"
unfolding trim_space
trim_runs = refl

atoi_runs :
    (strconv_atoi "-12" ≡ exact (negsuc 11))
    × (strconv_atoi "9223372036854775808" ≡ clamped (pos 9223372036854775807))
    × (strconv_atoi "1x" ≡ syntax_error)
    × (strconv_atoi "+" ≡ syntax_error)
unfolding strconv_atoi
atoi_runs = (refl, refl, refl, refl)

split_runs : split_once "=" "A=b=c" ≡ some ("A", "b=c")
unfolding split_once
split_runs = refl

pub str_eq_refl : (s : String) → str_eq s s ≡ true
str_eq_refl s = ground (arith, str_eq_iff s s)

pub strip_prefix-append : (p s : String) → strip_prefix p (text_append p s) ≡ some s
unfolding strip_prefix
strip_prefix-append [] s = ap some (append.nil s)
strip_prefix-append (c ∷ p) s =
    rw (append.cons c p s)
      (let same : (code c == code c) ≡ true = ground arith in rw same (strip_prefix-append p s))
