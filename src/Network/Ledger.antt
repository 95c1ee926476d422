-- ===== src/Network/Ledger.antt =====
-- What the allocator's record of ports keeps over any sequence of operations.
use splitter.Prelude.{
  ℕ, zero, suc, ◌+◌, ◌≤◌, ◌<◌, ◌≡◌, refl, ◌≢◌, Bool, true, false, Option, none, some, List, [], ◌∷◌,
  arith, ◌==◌, if◌then◌else◌, All, count,
}
use splitter.Network.{
  max_port_scan, max_port, Allocator, Outcome, ok, err, taken, insert, delete, claim_port,
  claim_range, new_allocator, scan, allocate_port, insert_range, scan_range, allocate_n, release,
  release_all, allocated,
}
use splitter.Network.Scan.{
  taken-insert, taken-insert_range, scan_sound, range_sound, all_free_sound,
}

-- No port stands in the record twice, and each is a port number.
abbrev pub IsLedger : List ℕ → Type 0
IsLedger [] = Unit
IsLedger (p ∷ s) = (taken p s ≡ false) × (p ≤ max_port) × IsLedger s

taken-delete : (p q : ℕ) (s : List ℕ) → taken q (delete p s) ≡ (if p == q then false else taken q s)
taken-delete p q [] = ground arith
taken-delete p q (r ∷ s) = ground (arith, taken-delete p q s)

IsLedger-insert : (p : ℕ) (s : List ℕ) → p ≤ max_port → IsLedger s → IsLedger (insert p s)
IsLedger-insert p s m h = ground arith

IsLedger-delete : (p : ℕ) (s : List ℕ) → IsLedger s → IsLedger (delete p s)
IsLedger-delete p [] h = h
IsLedger-delete p (r ∷ s) h = ground (arith, taken-delete p r s, IsLedger-delete p s h.2)

IsLedger-insert_range :
    (count p : ℕ) (s : List ℕ)
    → p + count ≤ max_port + 1
    → IsLedger s
    → IsLedger (insert_range count p s)
unfolding insert_range
IsLedger-insert_range zero p s m h = h
IsLedger-insert_range (suc count) p s m h =
    IsLedger-insert_range count (p + 1) (insert p s) (omega arith)
      (IsLedger-insert p s (omega arith) h)

-- One call of the allocator, with what the operating system answers during it.
pub data Call : Type 0 where
  call_port : (ℕ → Bool) → ℕ → Call
  call_n : (ℕ → Bool) → ℕ → ℕ → Call
  call_release : ℕ → Call
  call_release_all : Call

abbrev pub serve : Allocator → Call → Allocator
serve a (call_port listen p) = (allocate_port listen a p).1
serve a (call_n listen p count) = (allocate_n listen a p count).1
serve a (call_release p) = release a p
serve a call_release_all = release_all a

abbrev pub serve_all : Allocator → List Call → Allocator
serve_all a [] = a
serve_all a (c ∷ cs) = serve_all (serve a c) cs

claim_port-IsLedger :
    (a : Allocator) (o : Option ℕ)
    → ((q : ℕ) → o ≡ some q → q ≤ max_port)
    → IsLedger a.allocd
    → IsLedger (claim_port a o).1.allocd
claim_port-IsLedger a none top h = h
claim_port-IsLedger a (some q) top h = IsLedger-insert q a.allocd (top q refl) h

claim_range-IsLedger :
    (a : Allocator) (n : ℕ) (o : Option ℕ)
    → ((q : ℕ) → o ≡ some q → q + n ≤ max_port + 1)
    → IsLedger a.allocd
    → IsLedger (claim_range a n o).1.allocd
claim_range-IsLedger a n none top h = h
claim_range-IsLedger a n (some q) top h = IsLedger-insert_range n q a.allocd (top q refl) h

allocate_n-suc :
    (listen : ℕ → Bool) (a : Allocator) (p n : ℕ)
    → allocate_n listen a p (suc n)
      ≡ claim_range a (suc n) (scan_range listen a.allocd (suc n) max_port_scan p)
unfolding allocate_n
allocate_n-suc listen a p n = ground arith

allocate_n-IsLedger :
    (listen : ℕ → Bool) (a : Allocator) (p count : ℕ)
    → IsLedger a.allocd
    → IsLedger (allocate_n listen a p count).1.allocd
allocate_n-IsLedger listen a p zero h = unfold allocate_n in h
allocate_n-IsLedger listen a p (suc n) h = rw (allocate_n-suc listen a p n) (
    claim_range-IsLedger a (suc n) (scan_range listen a.allocd (suc n) max_port_scan p)
      (λ q e. omega (arith, range_sound listen a.allocd (suc n) max_port_scan p q e)) h)

serve-IsLedger : (a : Allocator) (c : Call) → IsLedger a.allocd → IsLedger (serve a c).allocd
unfolding allocate_port release release_all
serve-IsLedger a (call_port listen p) h =
    claim_port-IsLedger a (scan listen a.allocd max_port_scan p)
      (λ q e. (scan_sound listen a.allocd max_port_scan p q e).2) h
serve-IsLedger a (call_n listen p n) h = allocate_n-IsLedger listen a p n h
serve-IsLedger a (call_release p) h = IsLedger-delete p a.allocd h
serve-IsLedger a call_release_all h = tt

serve_all-IsLedger :
    (a : Allocator) (cs : List Call) → IsLedger a.allocd → IsLedger (serve_all a cs).allocd
serve_all-IsLedger a [] h = h
serve_all-IsLedger a (c ∷ cs) h = serve_all-IsLedger (serve a c) cs (serve-IsLedger a c h)

-- After any calls on a new allocator, `Allocated` lists no port twice and none above 65535.
pub allocated-IsLedger : (cs : List Call) → IsLedger (allocated (serve_all new_allocator cs))
unfolding allocated new_allocator
allocated-IsLedger cs = serve_all-IsLedger new_allocator cs tt

-- A call that does not release the port `p`.
abbrev pub Keeps : ℕ → Call → Type 0
Keeps p (call_port listen q) = Unit
Keeps p (call_n listen q count) = Unit
Keeps p (call_release q) = q ≢ p
Keeps p call_release_all = ⊥

claim_port-taken :
    (p : ℕ) (a : Allocator) (o : Option ℕ)
    → taken p a.allocd ≡ true
    → taken p (claim_port a o).1.allocd ≡ true
claim_port-taken p a none h = h
claim_port-taken p a (some q) h = ground (arith, taken-insert q p a.allocd)

claim_range-taken :
    (p : ℕ) (a : Allocator) (n : ℕ) (o : Option ℕ)
    → taken p a.allocd ≡ true
    → taken p (claim_range a n o).1.allocd ≡ true
claim_range-taken p a n none h = h
claim_range-taken p a n (some q) h = ground (arith, taken-insert_range n q p a.allocd)

allocate_n-taken :
    (listen : ℕ → Bool) (p : ℕ) (a : Allocator) (q count : ℕ)
    → taken p a.allocd ≡ true
    → taken p (allocate_n listen a q count).1.allocd ≡ true
allocate_n-taken listen p a q zero h = unfold allocate_n in h
allocate_n-taken listen p a q (suc n) h =
    rw (allocate_n-suc listen a q n)
      (claim_range-taken p a (suc n) (scan_range listen a.allocd (suc n) max_port_scan q) h)

serve-taken :
    (p : ℕ) (a : Allocator) (c : Call)
    → Keeps p c
    → taken p a.allocd ≡ true
    → taken p (serve a c).allocd ≡ true
unfolding allocate_port release
serve-taken p a (call_port listen q) k h =
    claim_port-taken p a (scan listen a.allocd max_port_scan q) h
serve-taken p a (call_n listen q n) k h = allocate_n-taken listen p a q n h
serve-taken p a (call_release q) k h = ground (arith, taken-delete q p a.allocd, k)
serve-taken p a call_release_all k h = absurd k

serve_all-taken :
    (p : ℕ) (a : Allocator) (cs : List Call)
    → All (Keeps p) cs
    → taken p a.allocd ≡ true
    → taken p (serve_all a cs).allocd ≡ true
serve_all-taken p a [] k h = h
serve_all-taken p a (c ∷ cs) (k, ks) h = serve_all-taken p (serve a c) cs ks (serve-taken p a c k h)

-- What an outcome hands out: one port, or the `count` ports from the base on.
abbrev pub HandsOut : ℕ → Outcome → ℕ → Type 0
HandsOut count (ok base) q = (base ≤ q) × (q < base + count)
HandsOut count (err e) q = ⊥

record_of_port :
    (a : Allocator) (p : ℕ) (o : Option ℕ)
    → HandsOut 1 (claim_port a o).0 p
    → taken p (claim_port a o).1.allocd ≡ true
record_of_port a p none h = absurd h
record_of_port a p (some q) h = ground (arith, taken-insert q p a.allocd)

fresh_of_port :
    (listen : ℕ → Bool) (a : Allocator) (preferred q : ℕ)
    → HandsOut 1 (allocate_port listen a preferred).0 q
    → taken q a.allocd ≡ false
unfolding allocate_port
fresh_of_port listen a preferred q h = go (scan listen a.allocd max_port_scan preferred) refl h
  where
    go :
        (o : Option ℕ)
        → scan listen a.allocd max_port_scan preferred ≡ o
        → HandsOut 1 (claim_port a o).0 q
        → taken q a.allocd ≡ false
    go none e x = absurd x
    go (some r) e x =
        let f = scan_sound listen a.allocd max_port_scan preferred r e in
        let same : q ≡ r = omega arith in rw same f.3.0

fresh_of_range :
    (listen : ℕ → Bool) (a : Allocator) (preferred count q : ℕ)
    → HandsOut count (allocate_n listen a preferred count).0 q
    → taken q a.allocd ≡ false
unfolding allocate_n
fresh_of_range listen a preferred zero q h = absurd h
fresh_of_range listen a preferred (suc n) q h =
    go (scan_range listen a.allocd (suc n) max_port_scan preferred) refl (rw allocate_n-suc at h)
  where
    go :
        (o : Option ℕ)
        → scan_range listen a.allocd (suc n) max_port_scan preferred ≡ o
        → HandsOut (suc n) (claim_range a (suc n) o).0 q
        → taken q a.allocd ≡ false
    go none e x = absurd x
    go (some r) e x =
        let f = range_sound listen a.allocd (suc n) max_port_scan preferred r e in
        (all_free_sound listen a.allocd (suc n) r f.3 q x.0 x.1).0

-- A port that `AllocatePort` has handed out is handed out by no later `AllocatePort` or `AllocateN`,
-- alone or within a range, as long as no call in between releases it: whatever the other calls are,
-- and whatever the operating system answers.
pub handed_out_once :
    (listen : ℕ → Bool) (a : Allocator) (preferred p : ℕ)
    → HandsOut 1 (allocate_port listen a preferred).0 p
    → (cs : List Call) → All (Keeps p) cs
    → (listen' : ℕ → Bool) (preferred' count : ℕ)
    → let later = serve_all (allocate_port listen a preferred).1 cs in
      (¬ HandsOut 1 (allocate_port listen' later preferred').0 p)
      × (¬ HandsOut count (allocate_n listen' later preferred' count).0 p)
handed_out_once listen a preferred p h cs keeps listen' preferred' count = (
  λ again. cc (held, fresh_of_port listen' later preferred' p again),
  λ again. cc (held, fresh_of_range listen' later preferred' count p again),
)
  where
    later : Allocator
    later = serve_all (allocate_port listen a preferred).1 cs

    held : taken p later.allocd ≡ true
    held = serve_all-taken p (allocate_port listen a preferred).1 cs keeps (
        unfold allocate_port in record_of_port a p (scan listen a.allocd max_port_scan preferred) h)
