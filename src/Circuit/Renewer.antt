-- ===== src/Circuit/Renewer.antt =====
-- internal/circuit/renewer.go: the loop that asks Tor for new circuits, for one instance, and the start
-- and the stop of all loops.
-- A tick is one turn of the loop whose timer runs out before the context is done: what it finds of the
-- world. A run ends with the list of its ticks, where the context is done.
pub mod Commands
pub mod Lasting
pub mod Reconnects
pub mod Refused
pub mod Sessions
use Prim.Native.String.{◌++◌ as text_append}
use splitter.Prelude.{
  ℕ, suc, ◌*◌, String, Bool, true, false, Option, none, some, List, [], ◌∷◌, ◌++◌, ℤ, int_text,
}
use splitter.Circuit.{
  Client, ClientError, Conn, new_client, connect, authenticate, signal_newnym, close,
}
use splitter.Circuit.Pattern.{
  TrafficPattern, Clock, Mode, fixed, second, random_interval, adaptive_interval,
}

pub record CircuitInstance : Type 0 where
  pub id : ℤ
  pub control_addr : String
  pub cookie_path : String
  pub min_interval : ℕ
  pub max_interval : ℕ

pub record Renewer : Type 0 where
  pub instances : List CircuitInstance
  -- per `Start`, the last one first: whether its context is cancelled
  pub contexts : List Bool
  pub pattern : Option TrafficPattern

unfoldable pub new_renewer : Renewer
new_renewer = record { instances = []; contexts = []; pattern = none }

unfoldable pub add_instance : ℤ → ℤ → String → Renewer → Renewer
add_instance id control_port path r = record r {
  instances =
      r.instances
      ++ record {
        id = id;
        control_addr = text_append "127.0.0.1:" (int_text control_port);
        cookie_path = path;
        min_interval = 10 * second;
        max_interval = 15 * second;
      }
        ∷ [];
}

unfoldable pub set_traffic_pattern : TrafficPattern → Renewer → Renewer
set_traffic_pattern tp r = record r { pattern = some tp }

abbrev pub add_context : Renewer → List CircuitInstance → Renewer × Bool
add_context r [] = (r, false)
add_context r (_ ∷ _) = (record r { contexts = false ∷ r.contexts }, true)

-- The result, and whether the loops start.
unfoldable pub start : Renewer → Renewer × Bool
start r = add_context r r.instances

abbrev pub cancel_last : List Bool → List Bool
cancel_last [] = []
cancel_last (_ ∷ rest) = true ∷ rest

unfoldable pub stop : Renewer → Renewer
stop r = record r { contexts = cancel_last r.contexts }

pub record Tick : Type 0 where
  pub int64n : ℕ → ℕ
  pub clock : Clock
  -- the renewer's pattern, as it stands
  pub pattern : Option TrafficPattern
  -- what a reconnect finds: the connection and the cookie
  pub dial : Option Conn
  pub cookie : Option (List ℕ)

unfoldable pub choose_interval : Tick → CircuitInstance → ℕ × Mode
choose_interval tick ci = elim tick.pattern [
  | none ↦ (random_interval tick.int64n ci.min_interval ci.max_interval, fixed)
  | some tp ↦ (adaptive_interval tick.int64n tick.clock tp ci.min_interval ci.max_interval).0
]

pub data End : Type 0 where
  cancelled : End
  connect_failed auth_failed reconnect_failed : ClientError → End

-- A loop under way: its client, the connections that it has closed, the last one first, the intervals
-- that it has waited for, and how often Tor has confirmed.
pub record Renewal : Type 0 where
  pub client : Client
  pub past : List Conn
  pub waits : List ℕ
  pub renewed : ℕ

abbrev pub opened : Option Conn → List Conn
opened none = []
opened (some conn) = conn ∷ []

-- `client.Close`
unfoldable pub close_client : Renewal → Renewal
close_client s = record s { client = close s.client; past = opened s.client.conn ++ s.past }

abbrev pub then_authenticate :
    Option (List ℕ) → Client × Option ClientError → Client × Option ClientError
then_authenticate cookie (c, some e) = (c, some e)
then_authenticate cookie (c, none) = authenticate cookie c

unfoldable pub reconnect : Option Conn → Option (List ℕ) → Client → Client × Option ClientError
reconnect dial cookie c = then_authenticate cookie (connect dial c)

-- What a turn of the loop leaves: the state, and the error of a reconnect that failed.
abbrev pub settle : Renewal → Client × Option ClientError → Renewal × Option ClientError
settle s (c, e) = (record s { client = c }, e)

abbrev pub after_signal :
    Tick → Renewal → Client × Option ClientError → Renewal × Option ClientError
after_signal tick s (c, none) = (record s { client = c; renewed = suc s.renewed }, none)
after_signal tick s (c, some e) =
    let s' = close_client (record s { client = c }) in
    settle s' (reconnect tick.dial tick.cookie s'.client)

unfoldable pub turn : CircuitInstance → Tick → Renewal → Renewal × Option ClientError
turn ci tick s =
    after_signal tick (record s { waits = s.waits ++ (choose_interval tick ci).0 ∷ [] })
      (signal_newnym s.client)

unfoldable pub loop : CircuitInstance → List Tick → Renewal → Renewal × End
loop ci [] s = (s, cancelled)
loop ci (tick ∷ ticks) s =
    let (s', e) = turn ci tick s in
    elim e [ none ↦ loop ci ticks s' | some e' ↦ (s', reconnect_failed e') ]

-- `defer client.Close()`
abbrev pub closed_after : Renewal × End → Renewal × End
closed_after (s, e) = (close_client s, e)

abbrev pub after_auth : CircuitInstance → List Tick → Client × Option ClientError → Renewal × End
after_auth ci ticks (c, e) =
    let s : Renewal = record { client = c; past = []; waits = []; renewed = 0 } in
    closed_after (elim e [ some e' ↦ (s, auth_failed e') | none ↦ loop ci ticks s ])

abbrev pub after_connect :
    CircuitInstance → Option (List ℕ) → List Tick → Client × Option ClientError → Renewal × End
after_connect ci cookie ticks (c, some e) =
    (record { client = c; past = []; waits = []; renewed = 0 }, connect_failed e)
after_connect ci cookie ticks (c, none) = after_auth ci ticks (authenticate cookie c)

unfoldable pub run_instance :
    CircuitInstance → Option Conn → Option (List ℕ) → List Tick → Renewal × End
run_instance ci dial cookie ticks =
    after_connect ci cookie ticks (connect dial (new_client ci.control_addr ci.cookie_path))
