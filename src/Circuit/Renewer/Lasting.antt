-- ===== src/Circuit/Renewer/Lasting.antt =====
-- internal/circuit/renewer.go: the loop of one instance while each request is confirmed.
use Prim.Native.String.{◌++◌ as text_append}
use Prim.Native.String.append
use text.Mathlib.TextLemmas.{append_assoc as text_append_assoc, append-nil as text-append-nil}
use splitter.Prelude.{
  ℕ, zero, suc, ◌+◌, String, ◌≡◌, refl, sym, ap, ◌∙◌, true, false, none, some, List, [], ◌∷◌, ◌++◌,
  append-nil, arith, is_some, length, strip_prefix, split_once,
}
use splitter.Circuit.{
  Client, nil_conn, Conn, new_client, connect, send, write_to, read_line, line_of, answered,
  authenticate, signal_newnym, build_auth_command, trim_line, newline,
}
use splitter.Circuit.Renewer.{
  CircuitInstance, Tick, cancelled, Renewal, close_client, turn, loop, closed_after, after_auth,
  run_instance,
}
use splitter.Circuit.Renewer.Commands.{newnyms}

-- What comes in: a line that starts with 250, and then the rest.
abbrev pub Confirms : String → String → Type 0
Confirms incoming rest =
    (line : String) × (split_once newline incoming ≡ some (line, rest))
    × (is_some (strip_prefix "250" (trim_line line)) ≡ true)

-- `n` such lines, and then `rest`.
abbrev pub Answers : ℕ → String → String → Type 0
Answers zero incoming rest = incoming ≡ rest
Answers (suc n) incoming rest = (later : String) × Confirms incoming later × Answers n later rest

-- A command on a connection that can be written to and that a confirmation comes in on.
pub exchange_ok :
    (cmd : String) (c : Client) (sent incoming rest : String)
    → c.conn ≡ some (record { sent = sent; incoming = incoming; broken = false })
    → Confirms incoming rest
    → answered (send cmd c) ≡ (
      record c {
        conn = some (record { sent = text_append sent cmd; incoming = rest; broken = false });
      },
      none,
    )
unfolding send read_line
exchange_ok cmd c sent incoming rest h (line, split, confirmed) =
    let at : send cmd c ≡ (
      record c {
        conn = some (record { sent = text_append sent cmd; incoming = incoming; broken = false });
      },
      none,
    ) =
      ap (λ o. elim o [ none ↦ (c, some nil_conn) | some conn ↦ write_to cmd c conn ]) h in
    rw at (rw (split, line_of) (rw confirmed refl))

-- A loop on such a connection.
abbrev pub IsAt : Renewal → String → String → Type 0
IsAt s sent incoming =
    s.client.conn ≡ some (record { sent = sent; incoming = incoming; broken = false })

turn_confirmed :
    (ci : CircuitInstance) (tick : Tick) (s : Renewal) (sent incoming rest : String)
    → IsAt s sent incoming
    → Confirms incoming rest
    → let (s', e) = turn ci tick s in
      (e ≡ none)
      × IsAt s' (text_append sent "SIGNAL NEWNYM\r\n") rest
      × (s'.renewed ≡ suc s.renewed)
      × (s'.past ≡ s.past)
unfolding turn signal_newnym
turn_confirmed ci tick s sent incoming rest at h =
    let e = exchange_ok "SIGNAL NEWNYM\r\n" s.client sent incoming rest at h in
    rw e (refl, refl, refl, refl)

pub loop_confirmed :
    (ci : CircuitInstance) (ticks more : List Tick) (s : Renewal) (sent incoming rest : String)
    → IsAt s sent incoming
    → Answers (length ticks) incoming rest
    → (s' : Renewal) × (loop ci (ticks ++ more) s ≡ loop ci more s')
      × IsAt s' (text_append sent (newnyms (length ticks))) rest
      × (s'.renewed ≡ s.renewed + length ticks)
      × (s'.past ≡ s.past)
unfolding loop
loop_confirmed ci [] more s sent incoming rest at h =
    (s, refl, rw (text-append-nil sent) (rw h at at), omega arith, refl)
loop_confirmed ci (tick ∷ ticks) more s sent incoming rest at (later, confirms, h) =
    let (ok, at', more_renewed, past) = turn_confirmed ci tick s sent incoming later at confirms in
    let (s', e, at'', renewed, past') =
      loop_confirmed ci ticks more (turn ci tick s).0 (text_append sent "SIGNAL NEWNYM\r\n") later
        rest at' h in
    (
      s',
      rw (ok, loop) e,
      rw⁻¹ (text_append_assoc sent "SIGNAL NEWNYM\r\n" (newnyms (length ticks))) at'',
      omega (arith, renewed, more_renewed),
      past' ∙ past,
    )

abbrev pub new_conn : String → Conn
new_conn incoming = record { sent = ""; incoming = incoming; broken = false }

pub begin_confirmed :
    (ci : CircuitInstance) (cookie : List ℕ) (ticks : List Tick) (incoming rest : String)
    → Confirms incoming rest
    → (s : Renewal) × (run_instance ci (some (new_conn incoming)) (some cookie) ticks
        ≡ closed_after (loop ci ticks s))
      × IsAt s (build_auth_command cookie) rest
      × (s.renewed ≡ 0)
      × (s.past ≡ [])
unfolding run_instance connect new_client authenticate
begin_confirmed ci cookie ticks incoming rest h =
    let c : Client = record {
      addr = ci.control_addr;
      cookie_path = ci.cookie_path;
      conn = some (new_conn incoming);
    } in
    let e = exchange_ok (build_auth_command cookie) c "" incoming rest refl h in
    let sent : text_append "" (build_auth_command cookie) ≡ build_auth_command cookie =
      append.nil (build_auth_command cookie) in
    let c' : Client = record c {
      conn = some (record {
        sent = text_append "" (build_auth_command cookie);
        incoming = rest;
        broken = false;
      });
    } in
    (
      record { client = c'; past = []; waits = []; renewed = 0 },
      ap (λ r. after_auth ci ticks r) e,
      ap (λ t. some (record { sent = t; incoming = rest; broken = false })) sent,
      refl,
      refl,
    )

-- Where Tor confirms the authentication and then each request, a run over `n` ticks lasts until it is
-- cancelled, renews the circuits `n` times, and has sent on its one connection the authentication and
-- `n` requests.
pub run_instance-confirmed :
    (ci : CircuitInstance) (cookie : List ℕ) (ticks : List Tick) (incoming rest : String)
    → Answers (suc (length ticks)) incoming rest
    → let r = run_instance ci (some (new_conn incoming)) (some cookie) ticks in
      (r.1 ≡ cancelled)
      × (r.0.renewed ≡ length ticks)
      × (r.0.past
          ≡ record {
            sent = text_append (build_auth_command cookie) (newnyms (length ticks));
            incoming = rest;
            broken = false;
          }
            ∷ [])
unfolding close_client loop
run_instance-confirmed ci cookie ticks incoming rest (later, confirms, h) =
    let (s, e, at, none_yet, no_past) = begin_confirmed ci cookie ticks incoming later confirms in
    let (s', e', at', renewed, past) =
      loop_confirmed ci ticks [] s (build_auth_command cookie) later rest at h in
    let all : loop ci ticks s ≡ (s', cancelled) =
      ap (λ ts. loop ci ts s) (sym (append-nil ticks)) ∙ e' in
    rw e (rw all (refl, omega (arith, renewed, none_yet), rw at' (rw past (rw no_past refl))))
