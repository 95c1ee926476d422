-- ===== src/Circuit/Protocol.antt =====
-- internal/circuit/client.go: the messages, against a description of the control port's side.
use Prim.Native.Char.{Char, code}
use Prim.Native.String.{◌++◌ as text_append}
use splitter.Prelude.{
  ℕ, zero, suc, ◌+◌, ◌-◌, ◌*◌, ◌/◌, ◌%◌, ◌<◌, String, ◌≡◌, refl, ap, ◌∙◌, inl, inr, Bool, true,
  false, not, ◌&&◌, Option, none, some, List, [], ◌∷◌, arith, leb, ◌==◌, if◌then◌else◌, Bool-cases,
  Option-cases, All, strip_prefix, strip_prefix-append,
}
use text.Mathlib.TextLemmas.{append_assoc as text_append_assoc}
use Prim.Native.String.append
use splitter.Circuit.{encode_to_string, digit_at, hex_byte, build_auth_command}

-- What Tor reads from the message: the bytes of the cookie.
abbrev hex_value : Char → Option ℕ
hex_value c =
    let n = code c in
    if leb 48 n && leb n 57
    then some (n - 48)
    else if leb 97 n && leb n 102
    then some (n - 87)
    else none

abbrev both_digits : Option ℕ → Option ℕ → Option ℕ
both_digits (some hi) (some lo) = some (hi * 16 + lo)
both_digits _ _ = none

abbrev and_then : Option ℕ → Option (List ℕ) → Option (List ℕ)
and_then (some b) (some bs) = some (b ∷ bs)
and_then _ _ = none

-- Pairs of hexadecimal digits, up to the end of the line.
abbrev pub decode_hex : String → Option (List ℕ)
decode_hex String.[] = none
decode_hex (String.◌∷◌ a String.[]) = none
decode_hex (String.◌∷◌ a (String.◌∷◌ b s)) =
    let rest = decode_hex s in
    if code a == 13 && code b == 10
    then some []
    else and_then (both_digits (hex_value a) (hex_value b)) rest

abbrev pub read_cookie : String → Option (List ℕ)
read_cookie message = elim (strip_prefix "AUTHENTICATE " message) [
  | none ↦ none
  | some s ↦ decode_hex s
]

-- A test on all numbers below a bound.
abbrev all_below : ℕ → (ℕ → Bool) → Bool
all_below zero p = true
all_below (suc n) p = p n && all_below n p

all_below_iff : (n : ℕ) (p : ℕ → Bool) → all_below n p ≡ true → (k : ℕ) → k < n → p k ≡ true
all_below_iff zero p h k less = absurd (omega arith)
all_below_iff (suc n) p h k less = elim (Bool-cases (k == n)) [
  | inl e ↦ let same : k ≡ n = ground arith in rw same (ground arith)
  | inr e ↦ all_below_iff n p (ground arith) k (ground arith)
]

-- The hexadecimal digit of a number, and what it reads as.
abbrev reads_as : ℕ → String → Bool
reads_as n String.[] = false
reads_as n (String.◌∷◌ c String.[]) = elim (hex_value c) [
  | none ↦ false
  | some d ↦ d == n && not (code c == 13)
]
reads_as n (String.◌∷◌ c (String.◌∷◌ d s)) = false

abbrev hex_digits : String
hex_digits = "0123456789abcdef"

every_digit : all_below 16 (λ n. reads_as n (digit_at n hex_digits)) ≡ true
every_digit = refl

reads_as_lem :
    (n : ℕ) (s : String)
    → reads_as n s ≡ true
    → (c : Char) × (s ≡ String.◌∷◌ c String.[]) × (hex_value c ≡ some n) × ((code c == 13) ≡ false)
reads_as_lem n String.[] h = ground arith
reads_as_lem n (String.◌∷◌ c String.[]) h = elim (Option-cases (hex_value c)) [
  | inl e ↦ absurd (let bad : false ≡ true = rw (e, reads_as) at h in ground arith)
  | inr (d, e) ↦
      let ok : (d == n && not (code c == 13)) ≡ true = rw (e, reads_as) at h in
      let same : d ≡ n = ground arith in (c, refl, rw e (rw same refl), ground arith)
]
reads_as_lem n (String.◌∷◌ c (String.◌∷◌ d s)) h = ground arith

decode_pair :
    (a b : Char) (s : String) (hi lo : ℕ)
    → (code a == 13) ≡ false
    → hex_value a ≡ some hi
    → hex_value b ≡ some lo
    → decode_hex (String.◌∷◌ a (String.◌∷◌ b s)) ≡ and_then (some (hi * 16 + lo)) (decode_hex s)
decode_pair a b s hi lo k v v' = rw (k, decode_hex) (rw v (rw v' refl))

digit_lem :
    (n : ℕ)
    → n < 16
    → (c : Char) × (digit_at n hex_digits ≡ String.◌∷◌ c String.[])
      × (hex_value c ≡ some n)
      × ((code c == 13) ≡ false)
digit_lem n h =
    reads_as_lem n (digit_at n hex_digits)
      (all_below_iff 16 (λ n. reads_as n (digit_at n hex_digits)) every_digit n h)

two_chars :
    (a b : Char) (s : String)
    → text_append (text_append (String.◌∷◌ a String.[]) (String.◌∷◌ b String.[])) s
      ≡ String.◌∷◌ a (String.◌∷◌ b s)
two_chars a b s =
    ap (λ t. text_append t s)
      (append.cons a String.[] (String.◌∷◌ b String.[])
        ∙ ap (String.◌∷◌ a) (append.nil (String.◌∷◌ b String.[])))
    ∙ append.cons a (String.◌∷◌ b String.[]) s
    ∙ ap (String.◌∷◌ a) (append.cons b String.[] s ∙ ap (String.◌∷◌ b) (append.nil s))

decode-hex_byte :
    (b : ℕ) (s : String)
    → b < 256
    → decode_hex (text_append (hex_byte b) s) ≡ and_then (some b) (decode_hex s)
decode-hex_byte b s h =
    let (hi, e, v, k) = digit_lem (b / 16) (omega arith) in
    let (lo, e', v', k') = digit_lem (b % 16) (omega arith) in
    let whole : b / 16 * 16 + b % 16 ≡ b = omega arith in
    let pair = decode_pair hi lo s (b / 16) (b % 16) k v v' in
    rw (e, hex_byte) (rw (e', hex_byte) (ap decode_hex (two_chars hi lo s) ∙ pair ∙ rw whole refl))

decode-encode :
    (cookie : List ℕ)
    → All (λ b. b < 256) cookie
    → decode_hex (text_append (encode_to_string cookie) "\r\n") ≡ some cookie
unfolding encode_to_string
decode-encode [] h = refl
decode-encode (b ∷ bs) (k, h) =
    let ih = decode-encode bs h in
    rw (text_append_assoc (hex_byte b) (encode_to_string bs) "\r\n")
      (decode-hex_byte b (text_append (encode_to_string bs) "\r\n") k ∙ rw ih refl)

-- Tor reads from the message built for a cookie of bytes below 256 that cookie.
pub read_cookie-build :
    (cookie : List ℕ)
    → All (λ b. b < 256) cookie
    → read_cookie (build_auth_command cookie) ≡ some cookie
unfolding build_auth_command
read_cookie-build cookie h =
    rw
      (
        strip_prefix-append "AUTHENTICATE " (text_append (encode_to_string cookie) "\r\n"),
        read_cookie,
      )
      (decode-encode cookie h)
