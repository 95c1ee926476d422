-- ===== src/Circuit/Renewer/Refused.antt =====
-- internal/circuit/renewer.go: the loop of one instance whose Tor is gone.
use Prim.Native.String.{◌++◌ as text_append}
use splitter.Prelude.{
  ℕ, suc, String, ◌≡◌, refl, ap, false, none, some, List, ◌∷◌, ◌++◌, arith, length, split_once,
}
use splitter.Circuit.{
  Client, ClientError, dial_failed, no_response, nil_conn, connect, send, write_to, read_line,
  line_of, answered, signal_newnym, build_auth_command, newline,
}
use splitter.Circuit.Renewer.{
  CircuitInstance, Tick, reconnect_failed, Renewal, close_client, reconnect, turn, loop,
  run_instance,
}
use splitter.Circuit.Renewer.Commands.{newnyms}
use splitter.Circuit.Renewer.Lasting.{Answers, IsAt, loop_confirmed, new_conn, begin_confirmed}

-- A connection on which nothing more comes in.
abbrev IsSilent : String → Type 0
IsSilent incoming = split_once newline incoming ≡ none

exchange_silent :
    (cmd : String) (c : Client) (sent incoming : String)
    → c.conn ≡ some (record { sent = sent; incoming = incoming; broken = false })
    → IsSilent incoming
    → answered (send cmd c) ≡ (
      record c {
        conn = some (record { sent = text_append sent cmd; incoming = ""; broken = false });
      },
      some no_response,
    )
unfolding send read_line
exchange_silent cmd c sent incoming h quiet =
    let at : send cmd c ≡ (
      record c {
        conn = some (record { sent = text_append sent cmd; incoming = incoming; broken = false });
      },
      none,
    ) =
      ap (λ o. elim o [ none ↦ (c, some nil_conn) | some conn ↦ write_to cmd c conn ]) h in
    rw at (rw (quiet, line_of) refl)

turn_refused :
    (ci : CircuitInstance) (tick : Tick) (s : Renewal) (sent incoming : String)
    → IsAt s sent incoming
    → IsSilent incoming
    → tick.dial ≡ none
    → let (s', e) = turn ci tick s in (e ≡ some dial_failed) × (s'.renewed ≡ s.renewed)
unfolding turn signal_newnym close_client reconnect connect
turn_refused ci tick s sent incoming at quiet down =
    let e = exchange_silent "SIGNAL NEWNYM\r\n" s.client sent incoming at quiet in
    rw e (rw down (refl, refl))

loop_failed :
    (ci : CircuitInstance) (tick : Tick) (later : List Tick) (s : Renewal) (e : ClientError)
    → (turn ci tick s).1 ≡ some e
    → loop ci (tick ∷ later) s ≡ ((turn ci tick s).0, reconnect_failed e)
unfolding loop
loop_failed ci tick later s e h =
    ap
      (λ o. elim o [
        | none ↦ loop ci later (turn ci tick s).0
        | some e' ↦ ((turn ci tick s).0, reconnect_failed e')
      ])
      h

-- Where Tor confirms the authentication and `n` requests, then ends the connection, and refuses the one
-- reconnect that follows, the run has ended for good: it has renewed the circuits `n` times, and
-- whatever the later ticks bring, a Tor that listens again included, is never looked at.
pub run_instance-refused :
    (ci : CircuitInstance) (cookie : List ℕ) (ticks : List Tick) (tick : Tick) (later : List Tick)
    (incoming rest : String)
    → Answers (suc (length ticks)) incoming rest
    → split_once newline rest ≡ none
    → tick.dial ≡ none
    → let r = run_instance ci (some (new_conn incoming)) (some cookie) (ticks ++ tick ∷ later) in
      (r.1 ≡ reconnect_failed dial_failed) × (r.0.renewed ≡ length ticks)
unfolding close_client loop
run_instance-refused ci cookie ticks tick later incoming rest (mid, confirms, h) quiet down =
    let (s, e, at, none_yet, no_past) =
      begin_confirmed ci cookie (ticks ++ tick ∷ later) incoming mid confirms in
    let (s', e', at', renewed, past) =
      loop_confirmed ci ticks (tick ∷ later) s (build_auth_command cookie) mid rest at h in
    let (failed, same) =
      turn_refused ci tick s' (text_append (build_auth_command cookie) (newnyms (length ticks)))
        rest at' quiet down in
    let over : loop ci (tick ∷ later) s' ≡ ((turn ci tick s').0, reconnect_failed dial_failed) =
      loop_failed ci tick later s' dial_failed failed in
    rw e (rw e' (rw over (refl, omega (arith, renewed, none_yet, same))))
