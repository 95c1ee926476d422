-- ===== src/Circuit/Renewer/Reconnects.antt =====
-- internal/circuit/renewer.go: the loop of one instance while it can reconnect.
use Prim.Native.String.{◌++◌ as text_append}
use splitter.Prelude.{
  ℕ, suc, ◌+◌, String, ◌≡◌, refl, ap, ◌∙◌, true, false, Option, none, some, List, [], ◌∷◌, ◌++◌,
  arith, is_some, length, All,
}
use splitter.Circuit.{
  Client, ClientError, Conn, connect, send, answered, authenticate, signal_newnym, close,
  build_auth_command,
}
use splitter.Circuit.Renewer.{
  CircuitInstance, Tick, choose_interval, cancelled, Renewal, opened, close_client,
  then_authenticate, reconnect, after_signal, turn, loop, run_instance,
}
use splitter.Circuit.Renewer.Commands.{Holds, exchange_lem}
use splitter.Circuit.Renewer.Lasting.{Confirms, exchange_ok, new_conn, begin_confirmed}

-- A dial that reaches a Tor that confirms the authentication.
abbrev pub IsUp : Option Conn → Option (List ℕ) → Type 0
IsUp dial cookie =
    (incoming : String) × (rest : String) × (dial ≡ some (new_conn incoming))
    × Confirms incoming rest
    × (is_some cookie ≡ true)

reconnect_up :
    (dial : Option Conn) (cookie : Option (List ℕ)) (c : Client)
    → IsUp dial cookie
    → let r = reconnect dial cookie c in (r.1 ≡ none) × Holds (λ conn. Unit) r.0
unfolding reconnect connect authenticate
reconnect_up dial none c (incoming, rest, at, confirms, readable) = ground arith
reconnect_up dial (some cookie) c (incoming, rest, at, confirms, readable) =
    let c' : Client = record c { conn = some (new_conn incoming) } in
    let e = exchange_ok (build_auth_command cookie) c' "" incoming rest refl confirms in
    let whole : reconnect dial (some cookie) c ≡ answered (send (build_auth_command cookie) c') =
      ap (λ d. then_authenticate (some cookie) (connect d c)) at in
    rw whole (
      rw e (
        refl,
        (
          record {
            sent = text_append "" (build_auth_command cookie);
            incoming = rest;
            broken = false;
          },
          refl,
          tt,
        ),
      ))

after_signal_up :
    (tick : Tick) (s : Renewal) (c : Client) (e : Option ClientError)
    → IsUp tick.dial tick.cookie
    → (conn : Conn) → c.conn ≡ some conn
    → let (s', e') = after_signal tick s (c, e) in
      (e' ≡ none)
      × Holds (λ conn. Unit) s'.client
      × (s'.renewed + length s'.past ≡ suc (s.renewed + length s.past))
unfolding close_client
after_signal_up tick s c none up conn at = (refl, (conn, at, tt), omega arith)
after_signal_up tick s c (some e) up conn at =
    let (ok, held) = reconnect_up tick.dial tick.cookie (close c) up in
    (ok, held, let more : opened c.conn ≡ conn ∷ [] = ap opened at in rw more (omega arith))

-- A turn where a reconnect would succeed: one more renewal, or one more connection.
turn_up :
    (ci : CircuitInstance) (tick : Tick) (s : Renewal)
    → IsUp tick.dial tick.cookie
    → Holds (λ conn. Unit) s.client
    → let (s', e) = turn ci tick s in
      (e ≡ none)
      × Holds (λ conn. Unit) s'.client
      × (s'.renewed + length s'.past ≡ suc (s.renewed + length s.past))
unfolding turn signal_newnym
turn_up ci tick s up (conn, at, _) =
    let ((conn', at', _), _) = exchange_lem "SIGNAL NEWNYM\r\n" s.client conn at in
    after_signal_up tick (record s { waits = s.waits ++ (choose_interval tick ci).0 ∷ [] })
      (signal_newnym s.client).0 (signal_newnym s.client).1 up conn' at'

loop_up :
    (ci : CircuitInstance) (ticks : List Tick) (s : Renewal)
    → All (λ (tick : Tick). IsUp tick.dial tick.cookie) ticks
    → Holds (λ conn. Unit) s.client
    → let (s', e) = loop ci ticks s in
      (e ≡ cancelled)
      × Holds (λ conn. Unit) s'.client
      × (s'.renewed + length s'.past ≡ s.renewed + length s.past + length ticks)
unfolding loop
loop_up ci [] s up held = (refl, held, omega arith)
loop_up ci (tick ∷ ticks) s (now, up) held =
    let (ok, held', one) = turn_up ci tick s now held in
    let (over, held'', all) = loop_up ci ticks (turn ci tick s).0 up held' in
    rw (ok, loop) (over, held'', omega (arith, one, all))

-- Where each dial reaches a Tor that confirms the authentication, with a cookie that can be read, a run
-- lasts until it is cancelled, whatever becomes of its requests in between; and each tick has either
-- renewed the circuits or closed a connection, the last one of which is closed at the end.
pub run_instance-up :
    (ci : CircuitInstance) (dial : Option Conn) (cookie : Option (List ℕ)) (ticks : List Tick)
    → IsUp dial cookie
    → All (λ (tick : Tick). IsUp tick.dial tick.cookie) ticks
    → let r = run_instance ci dial cookie ticks in
      (r.1 ≡ cancelled) × (r.0.renewed + length r.0.past ≡ suc (length ticks))
unfolding run_instance close_client
run_instance-up ci dial none ticks (incoming, rest, at, confirms, readable) up = ground arith
run_instance-up ci dial (some cookie) ticks (incoming, rest, at, confirms, readable) up =
    let (s, e, there, none_yet, no_past) = begin_confirmed ci cookie ticks incoming rest confirms in
    let whole : run_instance ci dial (some cookie) ticks
        ≡ run_instance ci (some (new_conn incoming)) (some cookie) ticks =
      ap (λ d. run_instance ci d (some cookie) ticks) at in
    let conn : Conn = record {
      sent = build_auth_command cookie;
      incoming = rest;
      broken = false;
    } in
    let (over, (conn', there', _), all) = loop_up ci ticks s up (conn, there, tt) in
    let last : opened (loop ci ticks s).0.client.conn ≡ conn' ∷ [] = ap opened there' in
    rw (whole ∙ e) (over, rw last (omega (arith, all, none_yet, ap length no_past)))
