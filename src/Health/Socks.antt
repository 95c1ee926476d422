-- ===== src/Health/Socks.antt =====
-- internal/health/dnsleak.go: the SOCKS5 exchange, against a description of the protocol's messages.
use splitter.Prelude.{
  ℕ, ◌+◌, ◌*◌, ◌/◌, ◌%◌, ◌≤◌, ◌<◌, ◌≡◌, refl, ap, ◌∙◌, inl, inr, false, ◌&&◌, Option, none, some,
  List, [], ◌∷◌, ◌++◌, append_assoc, arith, ltb, ◌==◌, if◌then◌else◌, length, take, drop,
  length-append,
}
use splitter.Health.{Conn, write, read, handshake, request, read_address, connect_domain, resolve}
use splitter.Health.Result.{ok}
use splitter.Health.Reads.{stream, read_full_lem}

-- What a proxy reads from a request to connect to a domain: the domain and the port.
abbrev pub port_of : List ℕ → Option ℕ
port_of (hi ∷ lo ∷ []) = some (hi * 256 + lo)
port_of _ = none

abbrev pub with_port : List ℕ → Option ℕ → Option (List ℕ × ℕ)
with_port domain none = none
with_port domain (some port) = some (domain, port)

abbrev pub parse_request : List ℕ → Option (List ℕ × ℕ)
parse_request (version ∷ command ∷ reserved ∷ atyp ∷ len ∷ body) =
    if (version == 5) && (command == 1) && (reserved == 0) && (atyp == 3)
    then with_port (take len body) (port_of (drop len body))
    else none
parse_request _ = none

take-length : (xs ys : List ℕ) → take (length xs) (xs ++ ys) ≡ xs
take-length [] ys = refl
take-length (x ∷ xs) ys = ap (λ zs. x ∷ zs) (take-length xs ys)

drop-length : (xs ys : List ℕ) → drop (length xs) (xs ++ ys) ≡ ys
drop-length [] ys = refl
drop-length (x ∷ xs) ys = drop-length xs ys

-- A proxy reads from the request for a domain of at most 255 bytes and a port of 16 bits that domain
-- and that port.
pub parse_request-request :
    (domain : List ℕ) (port : ℕ)
    → length domain ≤ 255
    → port < 65536
    → parse_request (request domain port) ≡ some (domain, port)
unfolding request
parse_request-request domain port short small =
    let len : length domain % 256 ≡ length domain = ground arith in
    let whole : port / 256 * 256 + port % 256 ≡ port = omega arith in
    rw len (
      rw
        (
          take-length domain (port / 256 ∷ port % 256 ∷ []),
          drop-length domain (port / 256 ∷ port % 256 ∷ []),
        )
        (rw whole refl))

-- What a proxy answers: the address by its type.
pub data Reply : Type 0 where
  ipv4 ipv6 name : List ℕ → Reply

abbrev pub HasLength : Reply → Type 0
HasLength (ipv4 bytes) = length bytes ≡ 4
HasLength (ipv6 bytes) = length bytes ≡ 16
HasLength (name bytes) = length bytes ≤ 255

abbrev pub atyp_of : Reply → ℕ
atyp_of (ipv4 bytes) = 1
atyp_of (ipv6 bytes) = 4
atyp_of (name bytes) = 3

abbrev pub payload : Reply → List ℕ
payload (ipv4 bytes) = bytes
payload (ipv6 bytes) = bytes
payload (name bytes) = length bytes ∷ bytes

abbrev pub encode_reply : Reply → ℕ → ℕ → List ℕ
encode_reply reply hi lo = 5 ∷ 0 ∷ 0 ∷ atyp_of reply ∷ (payload reply ++ hi ∷ lo ∷ [])

abbrev pub shown : (List ℕ → List ℕ) → Reply → List ℕ
shown ip_string (ipv4 bytes) = ip_string bytes
shown ip_string (ipv6 bytes) = ip_string bytes
shown ip_string (name bytes) = bytes

read_exact :
    (c : Conn) (bytes rest : List ℕ)
    → stream c.reads ≡ bytes ++ rest
    → (left : List (List ℕ)) × (read (length bytes) c ≡ ok (bytes, record c { reads = left }))
      × (stream left ≡ rest)
unfolding read
read_exact c bytes rest h = elim (read_full_lem (length bytes) c.reads) [
  | inl (left, e, k, _) ↦
      let got : take (length bytes) (stream c.reads) ≡ bytes = rw h (take-length bytes rest) in
      (left, rw (e, read) (rw got refl), k ∙ rw h (drop-length bytes rest))
  | inr (_, few) ↦ absurd (omega (arith, few, ap length h, length-append bytes rest))
]

read_address_lem :
    (ip_string : List ℕ → List ℕ) (reply : Reply)
    → HasLength reply
    → (c : Conn) (rest : List ℕ) → stream c.reads ≡ payload reply ++ rest
    → (left : List (List ℕ)) × (read_address ip_string (atyp_of reply) c
        ≡ ok (shown ip_string reply, record c { reads = left }))
      × (stream left ≡ rest)
unfolding read_address
read_address_lem ip_string (ipv4 bytes) long c rest h =
    let (left, e, k) = read_exact c bytes rest h in (left, rw (rw long at e) refl, k)
read_address_lem ip_string (ipv6 bytes) long c rest h =
    let (left, e, k) = read_exact c bytes rest h in (left, rw (rw long at e) refl, k)
read_address_lem ip_string (name bytes) long c rest h =
    let (left, e, k) = read_exact c (length bytes ∷ []) (bytes ++ rest) h in
    let (left', e', k') = read_exact (record c { reads = left }) bytes rest k in
    (left', rw e e', k')

write_ok :
    (bytes : List ℕ) (c : Conn)
    → c.broken ≡ false
    → write bytes c ≡ ok (record c { sent = c.sent ++ bytes })
unfolding write
write_ok bytes c whole = rw whole refl

handshake_lem :
    (c : Conn) (rest : List ℕ)
    → c.broken ≡ false
    → stream c.reads ≡ 5 ∷ 0 ∷ rest
    → (left : List (List ℕ)) × (handshake c
        ≡ ok (record c { sent = c.sent ++ 5 ∷ 1 ∷ 0 ∷ []; reads = left }))
      × (stream left ≡ rest)
unfolding handshake
handshake_lem c rest whole h =
    let (left, e, k) =
      read_exact (record c { sent = c.sent ++ 5 ∷ 1 ∷ 0 ∷ [] }) (5 ∷ 0 ∷ []) rest h in
    (left, rw (write_ok (5 ∷ 1 ∷ 0 ∷ []) c whole) (rw e refl), k)

connect_domain_lem :
    (ip_string : List ℕ → List ℕ) (domain : List ℕ) (port : ℕ) (reply : Reply) (hi lo : ℕ)
    → HasLength reply
    → length domain ≤ 255
    → (c : Conn) (rest : List ℕ) → c.broken ≡ false
    → stream c.reads ≡ encode_reply reply hi lo ++ rest
    → (left : List (List ℕ)) × (connect_domain ip_string domain port c
        ≡ ok (
          shown ip_string reply,
          record c { sent = c.sent ++ request domain port; reads = left },
        ))
      × (stream left ≡ rest)
unfolding connect_domain
connect_domain_lem ip_string domain port reply hi lo long short c rest whole h =
    let c1 : Conn = record c { sent = c.sent ++ request domain port } in
    let fits : ltb 255 (length domain) ≡ false = ground arith in
    let coming : stream c1.reads
        ≡ (5 ∷ 0 ∷ 0 ∷ atyp_of reply ∷ []) ++ (payload reply ++ hi ∷ lo ∷ rest) =
      h
      ∙ ap (λ xs. 5 ∷ 0 ∷ 0 ∷ atyp_of reply ∷ xs)
          (append_assoc (payload reply) (hi ∷ lo ∷ []) rest) in
    let (left, e, k) =
      read_exact c1 (5 ∷ 0 ∷ 0 ∷ atyp_of reply ∷ []) (payload reply ++ hi ∷ lo ∷ rest) coming in
    let (left', e', k') =
      read_address_lem ip_string reply long (record c1 { reads = left }) (hi ∷ lo ∷ rest) k in
    let (left'', e'', k'') = read_exact (record c1 { reads = left' }) (hi ∷ lo ∷ []) rest k' in
    (left'', rw (fits, write_ok (request domain port) c whole) (rw e (rw e' (rw e'' refl))), k'')

-- Over a connection that takes what is written, a proxy that accepts the greeting and the request and
-- answers with an address of the right length: the test resolves to that address, in the text form of
-- `net.IP` where it is no name. It has sent the greeting and the request for its domain and port 80,
-- and read no byte beyond the answer, however the bytes are cut into chunks.
pub resolve_lem :
    (ip_string : List ℕ → List ℕ) (domain : List ℕ) (reply : Reply) (hi lo : ℕ)
    → HasLength reply
    → length domain ≤ 255
    → (c : Conn) (rest : List ℕ) → c.broken ≡ false
    → stream c.reads ≡ 5 ∷ 0 ∷ (encode_reply reply hi lo ++ rest)
    → (left : List (List ℕ)) × (resolve ip_string domain c
        ≡ ok (
          shown ip_string reply,
          record c { sent = (c.sent ++ 5 ∷ 1 ∷ 0 ∷ []) ++ request domain 80; reads = left },
        ))
      × (stream left ≡ rest)
unfolding resolve
resolve_lem ip_string domain reply hi lo long short c rest whole h =
    let (left, e, k) = handshake_lem c (encode_reply reply hi lo ++ rest) whole h in
    let (left', e', k') =
      connect_domain_lem ip_string domain 80 reply hi lo long short
        (record c { sent = c.sent ++ 5 ∷ 1 ∷ 0 ∷ []; reads = left }) rest whole k in
    (left', rw e e', k')
