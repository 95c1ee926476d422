-- ===== src/Network.antt =====
-- internal/network/allocator.go: the port allocator.
-- A port and a count are natural numbers (the configuration admits no negative port). The set
-- `allocd` is a list with no repetition, written by `insert` and `delete` alone. What the operating
-- system answers to `net.Listen` is the argument `listen`: whether a listener on that port opens.
-- One call of an operation sees one such answer for each port. The mutex makes each operation one step.
pub mod Scan
pub mod Ledger
mod Examples
use splitter.Prelude.{
  ℕ, zero, suc, ◌+◌, ◌-◌, Bool, true, false, ◌||◌, Option, none, some, List, [], ◌∷◌, ltb, leb,
  ◌==◌, if◌then◌else◌, count,
}

abbrev pub max_port_scan : ℕ
max_port_scan = 1000

abbrev pub max_port : ℕ
max_port = 65535

pub record Allocator : Type 0 where
  pub allocd : List ℕ

pub data AllocError : Type 0 where
  no_available_port no_consecutive_ports count_not_positive : AllocError

pub data Outcome : Type 0 where
  ok : ℕ → Outcome
  err : AllocError → Outcome

-- `_, taken := a.allocd[p]`
abbrev pub taken : ℕ → List ℕ → Bool
taken p [] = false
taken p (q ∷ s) = (q == p) || taken p s

-- `a.allocd[p] = struct{}{}`
abbrev pub insert : ℕ → List ℕ → List ℕ
insert p s = if taken p s then s else p ∷ s

-- `delete(a.allocd, p)`
abbrev pub delete : ℕ → List ℕ → List ℕ
delete p [] = []
delete p (q ∷ s) = let rest = delete p s in if q == p then rest else q ∷ rest

unfoldable pub new_allocator : Allocator
new_allocator = record { allocd = [] }

-- Open a listener on the port, close it, and tell whether it opened.
unfoldable pub is_available : (ℕ → Bool) → ℕ → Bool
is_available listen p = if listen p then true else false

-- The loop of `allocatePortLocked`: `rounds` are left and `candidate` is the port of this one.
unfoldable pub scan : (ℕ → Bool) → List ℕ → ℕ → ℕ → Option ℕ
unfolding is_available
scan listen s zero candidate = none
scan listen s (suc rounds) candidate =
    let next = scan listen s rounds (candidate + 1) in
    if ltb max_port candidate
    then none
    else if taken candidate s
    then next
    else if is_available listen candidate
    then some candidate
    else next

abbrev pub claim_port : Allocator → Option ℕ → Outcome × Allocator
claim_port a none = (err no_available_port, a)
claim_port a (some p) = (ok p, record a { allocd = insert p a.allocd })

unfoldable pub allocate_port : (ℕ → Bool) → Allocator → ℕ → Outcome × Allocator
allocate_port listen a preferred = claim_port a (scan listen a.allocd max_port_scan preferred)

-- The inner loop of `AllocateN`: are the `count` ports from `p` on all free?
unfoldable pub all_free : (ℕ → Bool) → List ℕ → ℕ → ℕ → Bool
unfolding is_available
all_free listen s zero p = true
all_free listen s (suc count) p =
    let next = all_free listen s count (p + 1) in
    if taken p s then false else if is_available listen p then next else false

-- The loop that records the `count` ports from `p` on.
unfoldable pub insert_range : ℕ → ℕ → List ℕ → List ℕ
insert_range zero p s = s
insert_range (suc count) p s = insert_range count (p + 1) (insert p s)

-- The outer loop of `AllocateN`.
unfoldable pub scan_range : (ℕ → Bool) → List ℕ → ℕ → ℕ → ℕ → Option ℕ
scan_range listen s count zero base = none
scan_range listen s count (suc rounds) base =
    let next = scan_range listen s count rounds (base + 1) in
    if leb (base + count - 1) max_port
    then (if all_free listen s count base then some base else next)
    else none

abbrev pub claim_range : Allocator → ℕ → Option ℕ → Outcome × Allocator
claim_range a count none = (err no_consecutive_ports, a)
claim_range a count (some base) = (ok base, record a { allocd = insert_range count base a.allocd })

unfoldable pub allocate_n : (ℕ → Bool) → Allocator → ℕ → ℕ → Outcome × Allocator
unfolding insert_range
allocate_n listen a preferred count =
    if count == 0
    then (err count_not_positive, a)
    else claim_range a count (scan_range listen a.allocd count max_port_scan preferred)

unfoldable pub release : Allocator → ℕ → Allocator
release a p = record a { allocd = delete p a.allocd }

unfoldable pub release_all : Allocator → Allocator
release_all a = record a { allocd = [] }

-- The allocated ports, in no order that the code promises.
unfoldable pub allocated : Allocator → List ℕ
allocated a = a.allocd
