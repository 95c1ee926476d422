-- ===== src/Circuit/Examples.antt =====
-- The circuit modules on concrete inputs.
use Prim.Native.String.{◌++◌ as text_append}
use splitter.Prelude.{
  ℕ, ◌+◌, ◌*◌, String, ◌≡◌, refl, false, Option, none, some, List, [], ◌∷◌, arith, length, All,
  leb_ℤ, trim_space, strip_prefix, split_once, pos,
}
use splitter.Circuit.{
  Conn, dial_failed, parse_response, encode_to_string, build_auth_command, trim_line,
}
use splitter.Circuit.Protocol.{read_cookie, read_cookie-build}
use splitter.Circuit.Pattern.{
  TrafficPattern, new_traffic_pattern, is_burst, request_rate, second, Clock,
}
use splitter.Circuit.Pattern.Window.{is_burst_lem, record_all}
use splitter.Circuit.Renewer.{
  CircuitInstance, Tick, cancelled, reconnect_failed, new_renewer, start, run_instance,
}
use splitter.Circuit.Renewer.Commands.{newnyms}
use splitter.Circuit.Renewer.Sessions.{IsSession, IsOrderly, run_instance-IsSession}
use splitter.Circuit.Renewer.Lasting.{new_conn, Answers, run_instance-confirmed}
use splitter.Circuit.Renewer.Refused.{run_instance-refused}
use splitter.Circuit.Renewer.Reconnects.{run_instance-up}

encoded : encode_to_string (171 ∷ 7 ∷ []) ≡ "ab07"
unfolding encode_to_string
encoded = refl

parsed : (parse_response "250 OK\r\n" ≡ some ("250", "OK")) × (parse_response "250\r\n" ≡ none)
unfolding parse_response trim_line trim_space
parsed = (refl, refl)

read_cookie-build_example : read_cookie (build_auth_command (171 ∷ 7 ∷ [])) ≡ some (171 ∷ 7 ∷ [])
read_cookie-build_example = read_cookie-build (171 ∷ 7 ∷ []) (omega arith, (omega arith, tt))

abbrev times : List ℕ
times = 1 ∷ 5 ∷ 6 ∷ 9 ∷ []

is_burst_lem_example :
    let tp = record_all times (new_traffic_pattern 4 (pos 3)) in
    ((is_burst 10 tp).0 ≡ leb_ℤ (pos 3) (pos 2)) × ((request_rate 10 11 tp).0.requests ≡ 2)
is_burst_lem_example =
    is_burst_lem 4 (pos 3) times (omega arith, (omega arith, (omega arith, (omega arith, tt)))) 10
      11 (omega arith)

abbrev lowest : ℕ → ℕ
lowest n = 0

abbrev now : Clock
now = record { burst_at = 10; rate_at = 10; elapsed_at = 11 }

abbrev two_in_window : TrafficPattern
two_in_window = record { request_times = 6 ∷ 9 ∷ []; window_size = 4; burst_threshold = pos 2 }

abbrev instance_1 : CircuitInstance
instance_1 = record {
  id = pos 1;
  control_addr = "127.0.0.1:9051";
  cookie_path = "/tmp/cookie";
  min_interval = 10 * second;
  max_interval = 15 * second;
}

abbrev a_tick : Option Conn → Tick
a_tick dial = record {
  int64n = lowest;
  clock = now;
  pattern = none;
  dial = dial;
  cookie = some (171 ∷ []);
}

abbrev confirmations : String
confirmations = "250 OK\r\n250 OK\r\n"

two_confirmations : Answers 2 confirmations ""
unfolding split_once strip_prefix trim_line
two_confirmations = ("250 OK\r\n", ("250 OK\r", refl, refl), ("", ("250 OK\r", refl, refl), refl))

added : (start new_renewer).1 ≡ false
unfolding start new_renewer
added = refl

run_instance-IsSession_example :
    let r =
      run_instance instance_1
        (some (new_conn "250 OK\r\n515 no\r\n"))
        (some (171 ∷ []))
        (a_tick (some (new_conn "")) ∷ a_tick none ∷ []) in
    All IsSession r.0.past × (r.0.client.conn ≡ none) × IsOrderly r.1
run_instance-IsSession_example =
    run_instance-IsSession instance_1 (some (new_conn "250 OK\r\n515 no\r\n")) (some (171 ∷ []))
      (a_tick (some (new_conn "")) ∷ a_tick none ∷ []) refl (refl, (tt, tt))

run_instance-confirmed_example :
    let r =
      run_instance instance_1
        (some (new_conn confirmations))
        (some (171 ∷ []))
        (a_tick none ∷ []) in
    (r.1 ≡ cancelled)
    × (r.0.renewed ≡ 1)
    × (r.0.past
        ≡ record {
          sent = text_append (build_auth_command (171 ∷ [])) (newnyms 1);
          incoming = "";
          broken = false;
        }
          ∷ [])
run_instance-confirmed_example =
    run_instance-confirmed instance_1 (171 ∷ []) (a_tick none ∷ []) confirmations ""
      two_confirmations

run_instance-refused_example :
    let r =
      run_instance instance_1
        (some (new_conn confirmations))
        (some (171 ∷ []))
        (a_tick none ∷ a_tick none ∷ a_tick (some (new_conn confirmations)) ∷ []) in
    (r.1 ≡ reconnect_failed dial_failed) × (r.0.renewed ≡ 1)
unfolding split_once
run_instance-refused_example =
    run_instance-refused instance_1 (171 ∷ []) (a_tick none ∷ []) (a_tick none)
      (a_tick (some (new_conn confirmations)) ∷ []) confirmations "" two_confirmations refl refl

run_instance-up_example :
    let ticks = a_tick (some (new_conn confirmations)) ∷ [] in
    let r = run_instance instance_1 (some (new_conn confirmations)) (some (171 ∷ [])) ticks in
    (r.1 ≡ cancelled) × (r.0.renewed + length r.0.past ≡ 2)
run_instance-up_example =
    let (rest, confirms, _) = two_confirmations in
    run_instance-up instance_1 (some (new_conn confirmations)) (some (171 ∷ []))
      (a_tick (some (new_conn confirmations)) ∷ []) (confirmations, rest, refl, confirms, refl)
      ((confirmations, rest, refl, confirms, refl), tt)
