-- ===== src/Circuit/Renewer/Commands.antt =====
-- internal/circuit/client.go: what a client has sent after a command, and what becomes of the command.
use Prim.Native.String.{◌++◌ as text_append}
use text.Mathlib.TextLemmas.{append_assoc as text_append_assoc}
use splitter.Prelude.{
  ℕ, zero, suc, String, ◌≡◌, refl, ap, ◌∙◌, ◌≢◌, ◌⊎◌, inl, inr, Bool, true, false, Option, none,
  some, arith, if◌then◌else◌, is_some, Bool-cases, Option-cases, strip_prefix, split_once,
}
use splitter.Circuit.{
  Client, send_failed, nil_conn, Conn, send, write_to, read_line, line_of, check_response, answered,
  newline,
}

abbrev pub newnyms : ℕ → String
newnyms zero = ""
newnyms (suc n) = text_append "SIGNAL NEWNYM\r\n" (newnyms n)

pub newnyms_more : (n : ℕ) → text_append (newnyms n) "SIGNAL NEWNYM\r\n" ≡ newnyms (suc n)
newnyms_more zero = refl
newnyms_more (suc n) =
    text_append_assoc "SIGNAL NEWNYM\r\n" (newnyms n) "SIGNAL NEWNYM\r\n"
    ∙ ap (λ t. text_append "SIGNAL NEWNYM\r\n" t) (newnyms_more n)

-- What is left of a connection by sending a command and reading the answer.
abbrev pub after_send : String → Conn → Conn
after_send cmd conn = record conn { sent = text_append conn.sent cmd }

-- The connection of a client, related to one that it had.
abbrev pub Holds : (Conn → Type 0) → Client → Type 0
Holds P c = (conn : Conn) × (c.conn ≡ some conn) × P conn

check_lem :
    (c : Client) (o : Option String)
    → ((check_response (c, o)).0 ≡ c) × ((check_response (c, o)).1 ≢ some nil_conn)
check_lem c none = (refl, λ h. ground arith)
check_lem c (some line) = elim (Bool-cases (is_some (strip_prefix "250" line))) [
  | inl e ↦ (refl, rw e (λ h. ground arith))
  | inr e ↦ (refl, rw e (λ h. ground arith))
]

line_lem : (c : Client) (conn : Conn) → Holds (λ conn'. conn'.sent ≡ conn.sent) (line_of c conn).0
line_lem c conn = elim (Option-cases (split_once newline conn.incoming)) [
  | inl e ↦ (record conn { incoming = "" }, rw (e, line_of) refl, refl)
  | inr ((line, rest), e) ↦ (record conn { incoming = rest }, rw (e, line_of) refl, refl)
]

read_line_lem :
    (c : Client) (conn : Conn)
    → c.conn ≡ some conn
    → let r = check_response (read_line c) in
      Holds (λ conn'. conn'.sent ≡ conn.sent) r.0 × (r.1 ≢ some nil_conn)
unfolding read_line
read_line_lem c conn h =
    let (same, ok) = check_lem (line_of c conn).0 (line_of c conn).1 in
    rw h (rw same (line_lem c conn), ok)

if_cases :
    {A : Type 0} (b : Bool) (x y : A) → ((if b then x else y) ≡ x) ⊎ ((if b then x else y) ≡ y)
if_cases true x y = inl refl
if_cases false x y = inr refl

-- A client with a connection sends all of a command, or fails.
pub send_cases :
    (cmd : String) (c : Client) (conn : Conn)
    → c.conn ≡ some conn
    → (send cmd c ≡ (c, some send_failed))
      ⊎ (send cmd c ≡ (record c { conn = some (after_send cmd conn) }, none))
unfolding send
send_cases cmd c conn h =
    let at : send cmd c ≡ write_to cmd c conn =
      ap (λ o. elim o [ none ↦ (c, some nil_conn) | some conn ↦ write_to cmd c conn ]) h in
    elim (if_cases conn.broken (c, some send_failed)
      (record c { conn = some (after_send cmd conn) }, none)) [
        | inl e ↦ inl (at ∙ e)
        | inr e ↦ inr (at ∙ e)
      ]

-- A command that is sent ends up behind what the connection has been sent, and one that is not leaves
-- it with an error; a client with a connection does not panic.
pub exchange_lem :
    (cmd : String) (c : Client) (conn : Conn)
    → c.conn ≡ some conn
    → let r = answered (send cmd c) in
      Holds
        (λ conn'.
          (conn'.sent ≡ conn.sent) × (r.1 ≢ none) ⊎ (conn'.sent ≡ text_append conn.sent cmd))
        r.0
      × (r.1 ≢ some nil_conn)
exchange_lem cmd c conn h = elim (send_cases cmd c conn h) [
  | inl e ↦ rw e ((conn, h, inl (refl, λ h. ground arith)), λ h. ground arith)
  | inr e ↦
      let ((conn', at, same), ok) =
        read_line_lem (record c { conn = some (after_send cmd conn) }) (after_send cmd conn) refl in
      rw e ((conn', at, inr same), ok)
]
