-- ===== src/Circuit/Renewer/Sessions.antt =====
-- internal/circuit/renewer.go: what the loop of one instance writes on its connections.
use Prim.Native.String.{◌++◌ as text_append}
use Prim.Native.String.append
use text.Mathlib.TextLemmas.{append_assoc as text_append_assoc, append-nil as text-append-nil}
use splitter.Prelude.{
  ℕ, suc, ◌≡◌, refl, sym, ap, ◌∙◌, ◌≢◌, ◌⊎◌, inl, inr, Option, none, some, List, [], ◌∷◌, ◌++◌,
  arith, Option-cases, All, All-append,
}
use splitter.Circuit.{
  Client, ClientError, nil_conn, Conn, new_client, connect, authenticate, signal_newnym, close,
  build_auth_command,
}
use splitter.Circuit.Renewer.{
  CircuitInstance, Tick, choose_interval, End, cancelled, connect_failed, auth_failed,
  reconnect_failed, Renewal, opened, close_client, reconnect, after_signal, turn, loop,
  closed_after, after_auth, run_instance,
}
use splitter.Circuit.Renewer.Commands.{newnyms, newnyms_more, Holds, exchange_lem}

-- A session: nothing, or the authentication and then requests for new circuits.
abbrev pub IsSession : Conn → Type 0
IsSession conn =
    (conn.sent ≡ "")
    ⊎ ((cookie : List ℕ) × (n : ℕ) × (conn.sent
          ≡ text_append (build_auth_command cookie) (newnyms n)))

-- A connection that nothing has been written to, if any.
abbrev pub IsFresh : Option Conn → Type 0
IsFresh none = Unit
IsFresh (some conn) = conn.sent ≡ ""

-- An authenticated session.
abbrev IsAuthenticated : Conn → Type 0
IsAuthenticated conn =
    (cookie : List ℕ) × (n : ℕ) × (conn.sent ≡ text_append (build_auth_command cookie) (newnyms n))

-- `SignalNewnym` keeps an authenticated session one.
signal_newnym-IsAuthenticated :
    (c : Client)
    → Holds IsAuthenticated c
    → Holds IsAuthenticated (signal_newnym c).0 × ((signal_newnym c).1 ≢ some nil_conn)
unfolding signal_newnym
signal_newnym-IsAuthenticated c (conn, at, (cookie, n, e)) =
    let ((conn', at', sent), ok) = exchange_lem "SIGNAL NEWNYM\r\n" c conn at in
    (
      elim sent [
        | inl (same, _) ↦ (conn', at', (cookie, n, same ∙ e))
        | inr more ↦ (
          conn',
          at',
          (
            cookie,
            suc n,
            more
                ∙ rw e (
                    text_append_assoc (build_auth_command cookie) (newnyms n) "SIGNAL NEWNYM\r\n"
                    ∙ ap (λ t. text_append (build_auth_command cookie) t) (newnyms_more n)),
          ),
        )
      ],
      ok,
    )

-- `Authenticate` makes a session of a fresh connection, an authenticated one where it succeeds.
authenticate-IsSession :
    (cookie : Option (List ℕ)) (c : Client) (conn : Conn)
    → c.conn ≡ some conn
    → conn.sent ≡ ""
    → let r = authenticate cookie c in
      Holds IsSession r.0 × (r.1 ≢ some nil_conn) × (r.1 ≡ none → Holds IsAuthenticated r.0)
unfolding authenticate
authenticate-IsSession none c conn h fresh =
    ((conn, h, inl fresh), (λ h. ground arith), λ h. ground arith)
authenticate-IsSession (some cookie) c conn h fresh =
    let ((conn', at, sent), ok) = exchange_lem (build_auth_command cookie) c conn h in
    elim sent [
      | inl (same, failed) ↦ ((conn', at, inl (same ∙ fresh)), ok, λ e. absurd (failed e))
      | inr more ↦
          let session : conn'.sent ≡ text_append (build_auth_command cookie) (newnyms 0) =
            more
            ∙ rw fresh (
                append.nil (build_auth_command cookie)
                ∙ sym (text-append-nil (build_auth_command cookie))) in
          ((conn', at, inr (cookie, 0, session)), ok, λ e. (conn', at, (cookie, 0, session)))
    ]

-- A client without a connection, or with a session.
abbrev IsQuiet : Client → Type 0
IsQuiet c = (c.conn ≡ none) ⊎ Holds IsSession c

weaken : (c : Client) → Holds IsAuthenticated c → IsQuiet c
weaken c (conn, at, session) = inr (conn, at, inr session)

reconnect_lem :
    (dial : Option Conn) (cookie : Option (List ℕ)) (c : Client)
    → c.conn ≡ none
    → IsFresh dial
    → let r = reconnect dial cookie c in
      IsQuiet r.0 × (r.1 ≢ some nil_conn) × (r.1 ≡ none → Holds IsAuthenticated r.0)
unfolding reconnect connect
reconnect_lem none cookie c h fresh = (inl h, (λ h. ground arith), λ h. ground arith)
reconnect_lem (some conn) cookie c h fresh =
    let (session, ok, good) =
      authenticate-IsSession cookie (record c { conn = some conn }) conn refl fresh in
    (inr session, ok, good)

opened_lem : (c : Client) → IsQuiet c → All IsSession (opened c.conn)
opened_lem c (inl e) = rw e tt
opened_lem c (inr (conn, at, session)) = rw at (session, tt)

close_client_lem :
    (s : Renewal) → IsQuiet s.client → All IsSession s.past → All IsSession (close_client s).past
unfolding close_client
close_client_lem s quiet h =
    All-append IsSession (opened s.client.conn) s.past (opened_lem s.client quiet) h

abbrev HasTurned : Renewal × Option ClientError → Type 0
HasTurned (s, e) =
    All IsSession s.past
    × IsQuiet s.client
    × (e ≢ some nil_conn)
    × (e ≡ none → Holds IsAuthenticated s.client)

after_signal_lem :
    (tick : Tick) (s : Renewal) (c : Client) (e : Option ClientError)
    → IsFresh tick.dial
    → All IsSession s.past
    → Holds IsAuthenticated c
    → HasTurned (after_signal tick s (c, e))
unfolding close_client close
after_signal_lem tick s c none fresh past held =
    (past, weaken c held, (λ h. ground arith), λ h. held)
after_signal_lem tick s c (some e) fresh past held =
    let (quiet, ok, good) = reconnect_lem tick.dial tick.cookie (close c) refl fresh in
    (
      All-append IsSession (opened c.conn) s.past (opened_lem c (weaken c held)) past,
      quiet,
      ok,
      good,
    )

-- A turn of an authenticated client leaves an authenticated one, or an error.
turn_lem :
    (ci : CircuitInstance) (tick : Tick) (s : Renewal)
    → IsFresh tick.dial
    → Holds IsAuthenticated s.client
    → All IsSession s.past
    → HasTurned (turn ci tick s)
unfolding turn
turn_lem ci tick s fresh auth past =
    let (held, ok) = signal_newnym-IsAuthenticated s.client auth in
    after_signal_lem tick (record s { waits = s.waits ++ (choose_interval tick ci).0 ∷ [] })
      (signal_newnym s.client).0 (signal_newnym s.client).1 fresh past held

-- No end of a run is a panic.
abbrev pub IsOrderly : End → Type 0
IsOrderly cancelled = Unit
IsOrderly (connect_failed e) = some e ≢ some nil_conn
IsOrderly (auth_failed e) = some e ≢ some nil_conn
IsOrderly (reconnect_failed e) = some e ≢ some nil_conn

abbrev HasSessions : Renewal × End → Type 0
HasSessions (s, e) = All IsSession s.past × IsQuiet s.client × IsOrderly e

loop_lem :
    (ci : CircuitInstance) (ticks : List Tick) (s : Renewal)
    → All (λ (tick : Tick). IsFresh tick.dial) ticks
    → Holds IsAuthenticated s.client
    → All IsSession s.past
    → HasSessions (loop ci ticks s)
unfolding loop
loop_lem ci [] s fresh auth past = (past, weaken s.client auth, tt)
loop_lem ci (tick ∷ ticks) s (now, fresh) auth past =
    let (past', quiet, ok, good) = turn_lem ci tick s now auth past in
    elim (Option-cases (turn ci tick s).1) [
      | inl e ↦ rw (e, loop) (loop_lem ci ticks (turn ci tick s).0 fresh (good e) past')
      | inr (e', e) ↦
          let fine : some e' ≢ some nil_conn = rw e at ok in rw (e, loop) (past', quiet, fine)
    ]

abbrev HasEnded : Renewal × End → Type 0
HasEnded (s, e) = All IsSession s.past × (s.client.conn ≡ none) × IsOrderly e

finish : (s : Renewal) (e : End) → HasSessions (s, e) → HasEnded (closed_after (s, e))
unfolding close_client close
finish s e (past, quiet, ok) =
    (All-append IsSession (opened s.client.conn) s.past (opened_lem s.client quiet) past, refl, ok)

after_auth_lem :
    (ci : CircuitInstance) (ticks : List Tick) (c : Client) (e : Option ClientError)
    → All (λ (tick : Tick). IsFresh tick.dial) ticks
    → Holds IsSession c
    → e ≢ some nil_conn
    → (e ≡ none → Holds IsAuthenticated c)
    → HasEnded (after_auth ci ticks (c, e))
after_auth_lem ci ticks c none later session ok good =
    let s : Renewal = record { client = c; past = []; waits = []; renewed = 0 } in
    finish (loop ci ticks s).0 (loop ci ticks s).1 (loop_lem ci ticks s later (good refl) tt)
after_auth_lem ci ticks c (some e) later session ok good =
    let s : Renewal = record { client = c; past = []; waits = []; renewed = 0 } in
    finish s (auth_failed e) (tt, inr session, ok)

-- With connections that nothing has been written to, and whatever the other end answers, the cookie
-- file holds and the ticks bring: each connection of a run has been sent nothing, or the authentication
-- once and first and then only requests for new circuits. When the run ends none is open, and the run
-- does not use a client that has none.
pub run_instance-IsSession :
    (ci : CircuitInstance) (dial : Option Conn) (cookie : Option (List ℕ)) (ticks : List Tick)
    → IsFresh dial
    → All (λ (tick : Tick). IsFresh tick.dial) ticks
    → let r = run_instance ci dial cookie ticks in
      All IsSession r.0.past × (r.0.client.conn ≡ none) × IsOrderly r.1
unfolding run_instance connect new_client
run_instance-IsSession ci none cookie ticks fresh later = (tt, refl, λ h. ground arith)
run_instance-IsSession ci (some conn) cookie ticks fresh later =
    let c : Client = record {
      addr = ci.control_addr;
      cookie_path = ci.cookie_path;
      conn = some conn;
    } in
    let (session, ok, good) = authenticate-IsSession cookie c conn refl fresh in
    after_auth_lem ci ticks (authenticate cookie c).0 (authenticate cookie c).1 later session ok
      good
