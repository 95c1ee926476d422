-- ===== src/Network/Examples.antt =====
-- The allocator on concrete inputs.
use splitter.Prelude.{
  ℕ, ◌+◌, ◌-◌, ◌%◌, ◌≤◌, ◌<◌, ◌≡◌, refl, ◌⊎◌, Bool, true, ◌&&◌, ◌||◌, List, [], ◌∷◌, arith, ltb,
  leb, ◌==◌,
}
use splitter.Network.{
  taken, max_port_scan, max_port, Allocator, ok, err, no_consecutive_ports, scan, allocate_port,
  scan_range, all_free, allocate_n,
}
use splitter.Network.Scan.{IsFreeRange, IsFirstFreeRange, allocate_n-IsFirstFreeRange}
use splitter.Network.Ledger.{
  Call, call_port, call_n, call_release, serve_all, HandsOut, handed_out_once,
}

-- Only even ports accept a listener.
abbrev even : ℕ → Bool
even p = p % 2 == 0

abbrev all_open : ℕ → Bool
all_open p = true

abbrev held : Allocator
held = record { allocd = 5000 ∷ 5004 ∷ [] }

skips_taken_and_closed :
    allocate_port even held 4999 ≡ (ok 5002, record { allocd = 5002 ∷ 5000 ∷ 5004 ∷ [] })
unfolding allocate_port scan
skips_taken_and_closed = refl

range_skips : (allocate_n all_open held 5000 3).0 ≡ ok 5001
unfolding allocate_n scan_range all_free
range_skips = refl

stops_at_last_port : (allocate_n all_open held 65535 2).0 ≡ err no_consecutive_ports
unfolding allocate_n scan_range
stops_at_last_port = refl

allocate_n-IsFirstFreeRange_example :
    ((p : ℕ) × IsFirstFreeRange all_open held.allocd 3 5000 p
      × ((allocate_n all_open held 5000 3).0 ≡ ok p)
      × ((q : ℕ)
          → taken q (allocate_n all_open held 5000 3).1.allocd
            ≡ (leb p q && ltb q (p + 3)) || taken q held.allocd))
    ⊎ (((q : ℕ)
          → 5000 ≤ q
          → q < 5000 + max_port_scan
          → q + 3 - 1 ≤ max_port
          → ¬ IsFreeRange all_open held.allocd 3 q)
        × (allocate_n all_open held 5000 3 ≡ (err no_consecutive_ports, held)))
allocate_n-IsFirstFreeRange_example = allocate_n-IsFirstFreeRange all_open held 5000 3 (omega arith)

abbrev calls : List Call
calls =
    call_port even 5000 ∷ call_n all_open 5000 3 ∷ call_release 5000 ∷ call_port all_open 5000 ∷ []

handed_out_once_example :
    let later = serve_all (allocate_port even held 4999).1 calls in
    (¬ HandsOut 1 (allocate_port all_open later 5002).0 5002)
    × (¬ HandsOut 3 (allocate_n all_open later 5002 3).0 5002)
unfolding allocate_port scan
handed_out_once_example =
    handed_out_once even held 4999 5002 (omega arith) calls (omega arith) all_open 5002 3
