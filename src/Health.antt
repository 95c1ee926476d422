-- ===== src/Health.antt =====
-- internal/health/dnsleak.go: the SOCKS5 client of the DNS leak test, and the periodic checker.
-- A connection is what has been written to it, and the chunks that its reads deliver, after which reads
-- fail. Bytes are numbers below 256, and a text is the list of its bytes.
pub mod Reads
pub mod Socks
pub mod Window
pub mod Leak
pub mod Reputation
pub mod Check
pub mod Status
mod Examples
use splitter.Prelude.{
  ℕ, ◌-◌, ◌/◌, ◌%◌, Bool, true, false, not, Option, none, some, List, [], ◌∷◌, ◌++◌, ltb, leb, ◌==◌,
  if◌then◌else◌, length, get_elem?, take, drop,
}

pub data SocksError : Type 0 where
  write_failed read_failed bad_version bad_auth too_long refused unsupported_address : SocksError

pub data Result (A : Type 0) : Type 0 where
  ok : A → Result A
  err : SocksError → Result A

infixl 5 ◌>>=◌
abbrev pub ◌>>=◌ : {A B : Type 0} → Result A → (A → Result B) → Result B
ok a >>= f = f a
err e >>= f = err e

pub record Conn : Type 0 where
  pub sent : List ℕ
  pub reads : List (List ℕ)
  -- writes fail
  pub broken : Bool

-- `readFull`: one chunk after the other, until there are `n` bytes. What a chunk has too many of is left
-- for the next read.
unfoldable pub read_full : ℕ → List (List ℕ) → Option (List ℕ × List (List ℕ))
read_full n [] = if n == 0 then some ([], []) else none
read_full n (chunk ∷ rest) =
    let later = read_full (n - length chunk) rest in
    if n == 0
    then some ([], chunk ∷ rest)
    else if leb (length chunk) n
    then elim later [ none ↦ none | some (bytes, left) ↦ some (chunk ++ bytes, left) ]
    else some (take n chunk, drop n chunk ∷ rest)

unfoldable pub write : List ℕ → Conn → Result Conn
write bytes c = if c.broken then err write_failed else ok (record c { sent = c.sent ++ bytes })

unfoldable pub read : ℕ → Conn → Result (List ℕ × Conn)
read n c = elim (read_full n c.reads) [
  | none ↦ err read_failed
  | some (bytes, left) ↦ ok (bytes, record c { reads = left })
]

-- An index into a buffer of sufficient size.
abbrev pub byte_at : List ℕ → ℕ → ℕ
byte_at bytes i = elim (get_elem? bytes i) [ none ↦ 0 | some b ↦ b ]

abbrev pub accept_auth : List ℕ → Conn → Result Conn
accept_auth buf c =
    if not (byte_at buf 0 == 5)
    then err bad_version
    else if not (byte_at buf 1 == 0)
    then err bad_auth
    else ok c

unfoldable pub handshake : Conn → Result Conn
handshake c = do c1 ← write (5 ∷ 1 ∷ 0 ∷ []) c; (buf, c2) ← read 2 c1; accept_auth buf c2

unfoldable pub request : List ℕ → ℕ → List ℕ
request domain port =
    (5 ∷ 1 ∷ 0 ∷ 3 ∷ (length domain % 256) ∷ []) ++ domain ++ (port / 256) ∷ (port % 256) ∷ []

-- The bound address, by its type; `ip_string` is `net.IP.String`.
unfoldable pub read_address : (List ℕ → List ℕ) → ℕ → Conn → Result (List ℕ × Conn)
read_address ip_string atyp c =
    if atyp == 1
    then (do (ip, c1) ← read 4 c; ok (ip_string ip, c1))
    else if atyp == 4
    then (do (ip, c1) ← read 16 c; ok (ip_string ip, c1))
    else if atyp == 3
    then (do (len, c1) ← read 1 c; read (byte_at len 0) c1)
    else err unsupported_address

abbrev pub accept_header : (List ℕ → List ℕ) → List ℕ → Conn → Result (List ℕ × Conn)
accept_header ip_string header c =
    if not (byte_at header 0 == 5)
    then err bad_version
    else if not (byte_at header 1 == 0)
    then err refused
    else (do
      (addr, c1) ← read_address ip_string (byte_at header 3) c
      (port, c2) ← read 2 c1
      ok (addr, c2))

unfoldable pub connect_domain : (List ℕ → List ℕ) → List ℕ → ℕ → Conn → Result (List ℕ × Conn)
connect_domain ip_string domain port c = if ltb 255 (length domain) then err too_long else (do
  c1 ← write (request domain port) c
  (header, c2) ← read 4 c1
  accept_header ip_string header c2)

-- `resolveThroughSocks5`, once the proxy has been dialled.
unfoldable pub resolve : (List ℕ → List ℕ) → List ℕ → Conn → Result (List ℕ × Conn)
resolve ip_string test_domain c = do c1 ← handshake c; connect_domain ip_string test_domain 80 c1

-- The periodic checker: its results, and whether it runs.
pub record Checker (R : Type 0) : Type 0 where
  pub results : List R
  pub running : Bool

abbrev pub max_results : ℕ
max_results = 100

unfoldable pub append_result : {R : Type 0} → Checker R → R → Checker R
append_result c r =
    let all = c.results ++ r ∷ [] in
    record c {
      results = if ltb max_results (length all) then drop (length all - max_results) all else all;
    }

-- The result, and whether it is an error.
unfoldable pub start_checker : {R : Type 0} → Checker R → Checker R × Bool
start_checker c = if c.running then (c, true) else (record c { running = true }, false)

unfoldable pub stop_checker : {R : Type 0} → Checker R → Checker R × Bool
stop_checker c = if not c.running then (c, true) else (record c { running = false }, false)
