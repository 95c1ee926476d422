-- ===== src/Health/Leak.antt =====
-- internal/health/dnsleak.go: the test of a tester, and the loop of the periodic checker.
pub mod Latest
mod Examples
use splitter.Prelude.{
  ℕ, ◌⊎◌, inl, inr, Bool, true, false, not, ◌&&◌, Option, none, some, List, [], ◌∷◌, ◌==◌,
  if◌then◌else◌, is_some,
}
use splitter.Health.{SocksError, Result, Conn, resolve, Checker, append_result}
use splitter.Health.Result.{ok, err}

-- Why a test has no address from Tor: the proxy cannot be dialled, or the exchange with it fails; and
-- whether the direct resolution failed as well.
pub data TorError : Type 0 where
  no_dial : TorError
  no_exchange : SocksError → TorError

pub data TestError : Type 0 where
  both_failed tor_failed : TorError → TestError

pub record LeakResult : Type 0 where
  pub leak_detected : Bool
  pub tor_ip : List ℕ
  pub direct_ip : List ℕ
  pub test_domain : List ℕ
  pub error : Option TestError

-- What a test meets: the addresses of the resolver, if it has not failed, and the connection to the
-- proxy, if it can be dialled.
pub record Surroundings : Type 0 where
  pub direct : Option (List (List ℕ))
  pub dial : Option Conn

unfoldable pub same_text : List ℕ → List ℕ → Bool
same_text [] [] = true
same_text [] (c ∷ cs) = false
same_text (b ∷ bs) [] = false
same_text (b ∷ bs) (c ∷ cs) = (b == c) && same_text bs cs

-- The first address of the resolver, or no text.
unfoldable pub first_direct : Option (List (List ℕ)) → List ℕ
first_direct none = []
first_direct (some []) = []
first_direct (some (addr ∷ addrs)) = addr

unfoldable pub has_direct : Option (List (List ℕ)) → Bool
has_direct none = false
has_direct (some []) = false
has_direct (some (addr ∷ addrs)) = true

abbrev exchanged : Result (List ℕ × Conn) → List ℕ ⊎ TorError
exchanged (ok (addr, c)) = inl addr
exchanged (err e) = inr (no_exchange e)

unfoldable pub resolve_through_socks5 : (List ℕ → List ℕ) → List ℕ → Option Conn → List ℕ ⊎ TorError
resolve_through_socks5 ip_string domain none = inr no_dial
resolve_through_socks5 ip_string domain (some c) = exchanged (resolve ip_string domain c)

abbrev pub told :
    LeakResult → Option (List (List ℕ)) → List ℕ ⊎ TorError → LeakResult × Option TestError
told result none (inr e) = (record result { error = some (both_failed e) }, some (both_failed e))
told result (some addrs) (inr e) =
    (record result { error = some (tor_failed e) }, some (tor_failed e))
told result direct (inl addr) = (
  record result {
    tor_ip = addr;
    leak_detected = has_direct direct && not (same_text result.direct_ip addr);
  },
  none,
)

-- `Test`
unfoldable pub test : (List ℕ → List ℕ) → List ℕ → Surroundings → LeakResult × Option TestError
test ip_string domain w =
    told
      (record {
        leak_detected = false;
        tor_ip = [];
        direct_ip = first_direct w.direct;
        test_domain = domain;
        error = none;
      })
      w.direct (resolve_through_socks5 ip_string domain w.dial)

-- What the loop's `select` picks: the end of the context, or a tick with what its test meets, and whether
-- the context has ended after the test.
pub data Pick : Type 0 where
  done : Pick
  tick : Surroundings → Bool → Pick

-- A test is kept if it comes without an error.
unfoldable pub keep : LeakResult × Option TestError → Checker LeakResult → Checker LeakResult
keep (result, none) c = append_result c result
keep (result, some e) c = c

unfoldable pub rounds :
    (List ℕ → List ℕ) → List ℕ → List Pick → Checker LeakResult → Checker LeakResult
rounds ip_string domain [] c = c
rounds ip_string domain (done ∷ picks) c = c
rounds ip_string domain (tick w ended ∷ picks) c =
    let r = test ip_string domain w in
    let rest = rounds ip_string domain picks (keep r c) in if is_some r.1 && ended then c else rest

-- `run`: the first test comes before the ticker.
unfoldable pub run_checker :
    (List ℕ → List ℕ) → List ℕ → Surroundings → List Pick → Checker LeakResult → Checker LeakResult
run_checker ip_string domain w picks c =
    rounds ip_string domain picks (keep (test ip_string domain w) c)

unfoldable pub last_result : {R : Type 0} → List R → Option R
last_result [] = none
last_result (r ∷ []) = some r
last_result (r ∷ s ∷ rs) = last_result (s ∷ rs)
