-- ===== src/Circuit.antt =====
-- internal/circuit/client.go: the client of Tor's control port.
-- A connection is what has been written to it and what its reads deliver, after which they fail. Its writes
-- all succeed, or they all fail; one that is cut short is not modelled. A byte is a character of a text,
-- except in the cookie, which is a list of numbers below 256. A read that the other end never answers is
-- not modelled either: the code sets no deadline.
pub mod Protocol
pub mod Pattern
pub mod Renewer
mod Examples
use Prim.Native.Char.{Char, code}
use Prim.Native.String.{◌++◌ as text_append}
use splitter.Prelude.{
  ℕ, zero, suc, ◌/◌, ◌%◌, String, Bool, ◌&&◌, ◌||◌, Option, none, some, List, [], ◌∷◌, str_eq, ltb,
  ◌==◌, if◌then◌else◌, is_some, trim_space, strip_prefix, split_once,
}

pub data ClientError : Type 0 where
  dial_failed no_cookie send_failed no_response : ClientError
  unexpected : String → ClientError
  -- a call on a client that has no connection: the nil pointer panics
  nil_conn : ClientError

pub record Conn : Type 0 where
  pub sent : String
  pub incoming : String
  -- writes fail
  pub broken : Bool

pub record Client : Type 0 where
  pub addr : String
  pub cookie_path : String
  pub conn : Option Conn

unfoldable pub new_client : String → String → Client
new_client addr path = record { addr = addr; cookie_path = path; conn = none }

abbrev pub newline : Char
newline = "\n"

abbrev is_line_end : Char → Bool
is_line_end c = code c == 13 || code c == 10

-- `TrimRight(s, "\r\n")`
unfoldable pub trim_line : String → String
trim_line String.[] = String.[]
trim_line (String.◌∷◌ c s) =
    let rest = trim_line s in if is_line_end c && str_eq rest "" then "" else String.◌∷◌ c rest

-- `hex.EncodeToString`
abbrev pub digit_at : ℕ → String → String
digit_at n String.[] = ""
digit_at zero (String.◌∷◌ c s) = String.◌∷◌ c String.[]
digit_at (suc n) (String.◌∷◌ c s) = digit_at n s

abbrev pub hex_byte : ℕ → String
hex_byte b =
    text_append (digit_at (b / 16) "0123456789abcdef") (digit_at (b % 16) "0123456789abcdef")

unfoldable pub encode_to_string : List ℕ → String
encode_to_string [] = ""
encode_to_string (b ∷ bs) = text_append (hex_byte b) (encode_to_string bs)

unfoldable pub build_auth_command : List ℕ → String
build_auth_command cookie =
    text_append "AUTHENTICATE " (text_append (encode_to_string cookie) "\r\n")

unfoldable pub build_newnym_command : String
build_newnym_command = "SIGNAL NEWNYM\r\n"

-- The outcome of the dial is an argument.
unfoldable pub connect : Option Conn → Client → Client × Option ClientError
connect none c = (c, some dial_failed)
connect (some conn) c = (record c { conn = some conn }, none)

abbrev pub write_to : String → Client → Conn → Client × Option ClientError
write_to cmd c conn =
    if conn.broken
    then (c, some send_failed)
    else (record c { conn = some (record conn { sent = text_append conn.sent cmd }) }, none)

unfoldable pub send : String → Client → Client × Option ClientError
send cmd c = elim c.conn [ none ↦ (c, some nil_conn) | some conn ↦ write_to cmd c conn ]

-- `ReadString('\n')` and the trimming: a text that ends before the end of the line is an error.
abbrev pub line_of : Client → Conn → Client × Option String
line_of c conn = elim (split_once newline conn.incoming) [
  | none ↦ (record c { conn = some (record conn { incoming = "" }) }, none)
  | some (line, rest) ↦
      (record c { conn = some (record conn { incoming = rest }) }, some (trim_line line))
]

unfoldable pub read_line : Client → Client × Option String
read_line c = elim c.conn [ none ↦ (c, none) | some conn ↦ line_of c conn ]

abbrev pub check_response : Client × Option String → Client × Option ClientError
check_response (c, none) = (c, some no_response)
check_response (c, some line) =
    (c, if is_some (strip_prefix "250" line) then none else some (unexpected line))

-- The part that `Authenticate` and `SignalNewnym` share: send, read a line, look for `250`.
abbrev pub answered : Client × Option ClientError → Client × Option ClientError
answered (c, some e) = (c, some e)
answered (c, none) = check_response (read_line c)

-- The contents of the cookie file are an argument, `none` where it cannot be read.
unfoldable pub authenticate : Option (List ℕ) → Client → Client × Option ClientError
authenticate none c = (c, some no_cookie)
authenticate (some cookie) c = answered (send (build_auth_command cookie) c)

unfoldable pub signal_newnym : Client → Client × Option ClientError
signal_newnym c = answered (send "SIGNAL NEWNYM\r\n" c)

-- The error of the connection's own `Close`, which no caller looks at, is left out.
unfoldable pub close : Client → Client
close c = record c { conn = none }

abbrev pub text_length : String → ℕ
text_length String.[] = 0
text_length (String.◌∷◌ c s) = suc (text_length s)

abbrev pub text_take : ℕ → String → String
text_take zero s = String.[]
text_take (suc n) String.[] = String.[]
text_take (suc n) (String.◌∷◌ c s) = String.◌∷◌ c (text_take n s)

abbrev pub text_drop : ℕ → String → String
text_drop zero s = s
text_drop (suc n) String.[] = String.[]
text_drop (suc n) (String.◌∷◌ c s) = text_drop n s

-- The code and the message of a response, `none` where it is too short.
unfoldable pub parse_response : String → Option (String × String)
parse_response line =
    let trimmed = trim_line line in
    if ltb (text_length trimmed) 4
    then none
    else some (text_take 3 trimmed, trim_space (text_drop 3 trimmed))
