-- ===== src/Network/Scan.antt =====
-- What `AllocatePort` and `AllocateN` return.
use splitter.Prelude.{
  ℕ, zero, suc, ◌+◌, ◌-◌, ◌≤◌, ◌<◌, ◌≡◌, refl, ◌⊎◌, inl, inr, Bool, true, false, ◌&&◌, ◌||◌, none,
  some, List, ◌∷◌, arith, ltb, leb, ◌==◌, Bool-cases, Option-cases, count,
}
use splitter.Network.{
  max_port_scan, max_port, insert, Allocator, ok, err, no_available_port, no_consecutive_ports,
  taken, scan, allocate_port, all_free, insert_range, scan_range, allocate_n,
}

pub taken-insert : (p q : ℕ) (s : List ℕ) → taken q (insert p s) ≡ (p == q) || taken q s
taken-insert p q s = elim (Bool-cases (p == q)) [
  | inl e ↦ let e' : p ≡ q = ground arith in rw e' (ground arith)
  | inr e ↦ ground (arith, e)
]

-- Exactly the ports of the range are added.
pub taken-insert_range :
    (count p q : ℕ) (s : List ℕ)
    → taken q (insert_range count p s) ≡ (leb p q && ltb q (p + count)) || taken q s
unfolding insert_range
taken-insert_range zero p q s = ground arith
taken-insert_range (suc count) p q s =
    rw (taken-insert_range count (p + 1) q (insert p s), taken-insert p q s) (ground arith)

-- A port that nothing holds: not recorded, and open to a listener.
abbrev pub IsFree : (ℕ → Bool) → List ℕ → ℕ → Type 0
IsFree listen s p = (taken p s ≡ false) × (listen p ≡ true)

module _ (listen : ℕ → Bool) (s : List ℕ) where
  pub scan_sound :
      (rounds c p : ℕ)
      → scan listen s rounds c ≡ some p
      → (c ≤ p) × (p < c + rounds) × (p ≤ max_port) × IsFree listen s p
  unfolding scan
  scan_sound zero c p h = ground arith
  scan_sound (suc rounds) c p h = ground (arith, scan_sound rounds (c + 1) p)

  -- No candidate before the result is free.
  pub scan_first :
      (rounds c p q : ℕ) → scan listen s rounds c ≡ some p → c ≤ q → q < p → ¬ IsFree listen s q
  unfolding scan
  scan_first zero c p q h lo hi f = ground arith
  scan_first (suc rounds) c p q h lo hi f = elim (Bool-cases (q == c)) [
    | inl same ↦ let e : q ≡ c = ground arith in ground (arith, f, e)
    | inr other ↦ ground (arith, scan_first rounds (c + 1) p q)
  ]

  scan-none :
      (rounds c q : ℕ)
      → scan listen s rounds c ≡ none
      → c ≤ q
      → q < c + rounds
      → q ≤ max_port
      → ¬ IsFree listen s q
  unfolding scan
  scan-none zero c q h lo hi m f = absurd (omega arith)
  scan-none (suc rounds) c q h lo hi m f = elim (Bool-cases (q == c)) [
    | inl same ↦ let e : q ≡ c = ground arith in ground (arith, f, e)
    | inr other ↦ ground (arith, scan-none rounds (c + 1) q)
  ]

  pub all_free_sound :
      (count base : ℕ)
      → all_free listen s count base ≡ true
      → (q : ℕ) → base ≤ q
      → q < base + count
      → IsFree listen s q
  unfolding all_free
  all_free_sound zero base h q lo hi = absurd (omega arith)
  all_free_sound (suc count) base h q lo hi = elim (Bool-cases (q == base)) [
    | inl same ↦ let e : q ≡ base = ground arith in ground (arith, e)
    | inr other ↦ all_free_sound count (base + 1) (ground arith) q (ground arith) (omega arith)
  ]

  all_free_complete :
      (count base : ℕ)
      → ((q : ℕ) → base ≤ q → q < base + count → IsFree listen s q)
      → all_free listen s count base ≡ true
  unfolding all_free
  all_free_complete zero base f = refl
  all_free_complete (suc count) base f = ground (
    arith,
    f base (omega arith) (omega arith),
    all_free_complete count (base + 1) (λ q lo hi. f q (omega arith) (omega arith)),
  )

-- All the `count` ports from `base` on are free.
abbrev pub IsFreeRange : (ℕ → Bool) → List ℕ → ℕ → ℕ → Type 0
IsFreeRange listen s count base = (q : ℕ) → base ≤ q → q < base + count → IsFree listen s q

module _ (listen : ℕ → Bool) (s : List ℕ) (count : ℕ) where
  pub range_sound :
      (rounds c p : ℕ)
      → scan_range listen s count rounds c ≡ some p
      → (c ≤ p) × (p < c + rounds) × (p + count - 1 ≤ max_port) × (all_free listen s count p ≡ true)
  unfolding scan_range
  range_sound zero c p h = ground arith
  range_sound (suc rounds) c p h = ground (arith, range_sound rounds (c + 1) p)

  pub range_first :
      (rounds c p q : ℕ)
      → scan_range listen s count rounds c ≡ some p
      → c ≤ q
      → q < p
      → all_free listen s count q ≡ false
  unfolding scan_range
  range_first zero c p q h lo hi = ground arith
  range_first (suc rounds) c p q h lo hi = elim (Bool-cases (q == c)) [
    | inl same ↦ let e : q ≡ c = ground arith in rw e (ground (arith, e))
    | inr other ↦ ground (arith, range_first rounds (c + 1) p q)
  ]

  range_none :
      (rounds c q : ℕ)
      → scan_range listen s count rounds c ≡ none
      → c ≤ q
      → q < c + rounds
      → q + count - 1 ≤ max_port
      → all_free listen s count q ≡ false
  unfolding scan_range
  range_none zero c q h lo hi m = absurd (omega arith)
  range_none (suc rounds) c q h lo hi m = elim (Bool-cases (q == c)) [
    | inl same ↦ let e : q ≡ c = ground arith in rw e (ground (arith, e))
    | inr other ↦ ground (arith, range_none rounds (c + 1) q)
  ]

not-IsFreeRange :
    (listen : ℕ → Bool) (s : List ℕ) (count q : ℕ)
    → all_free listen s count q ≡ false
    → ¬ IsFreeRange listen s count q
not-IsFreeRange listen s count q h f = cc (h, all_free_complete listen s count q f)

-- `p` is the first port at or after `preferred`, within the scan and the port numbers, that is free.
abbrev pub IsFirstFree : (ℕ → Bool) → List ℕ → ℕ → ℕ → Type 0
IsFirstFree listen s preferred p =
    (preferred ≤ p)
    × (p < preferred + max_port_scan)
    × (p ≤ max_port)
    × IsFree listen s p
    × ((q : ℕ) → preferred ≤ q → q < p → ¬ IsFree listen s q)

abbrev pub IsFirstFreeRange : (ℕ → Bool) → List ℕ → ℕ → ℕ → ℕ → Type 0
IsFirstFreeRange listen s count preferred p =
    (preferred ≤ p)
    × (p < preferred + max_port_scan)
    × (p + count - 1 ≤ max_port)
    × IsFreeRange listen s count p
    × ((q : ℕ) → preferred ≤ q → q < p → ¬ IsFreeRange listen s count q)

module _ (listen : ℕ → Bool) (a : Allocator) where
  -- `AllocatePort` returns the first free port of the 1000 at or after the preferred one, up to 65535,
  -- and records it; or no such port is free, and it returns an error and changes nothing.
  pub allocate_port-IsFirstFree :
      (preferred : ℕ)
      → ((p : ℕ) × IsFirstFree listen a.allocd preferred p
          × (allocate_port listen a preferred ≡ (ok p, record a { allocd = p ∷ a.allocd })))
        ⊎ (((q : ℕ)
              → preferred ≤ q
              → q < preferred + max_port_scan
              → q ≤ max_port
              → ¬ IsFree listen a.allocd q)
            × (allocate_port listen a preferred ≡ (err no_available_port, a)))
  unfolding allocate_port
  allocate_port-IsFirstFree preferred =
      elim (Option-cases (scan listen a.allocd max_port_scan preferred)) [
        | inl e ↦ inr (λ q. scan-none listen a.allocd max_port_scan preferred q e, rw e)
        | inr (p, e) ↦
            let (lo, hi, top, free) = scan_sound listen a.allocd max_port_scan preferred p e in
            inl (
              p,
              (lo, hi, top, free, λ q. scan_first listen a.allocd max_port_scan preferred p q e),
              rw (e, free.0),
            )
      ]

  -- `AllocateN` with a positive count returns the first base, of the 1000 at or after the preferred
  -- one, whose `count` ports end at 65535 or before and are all free, and then those ports are recorded and
  -- nothing else has changed in what is; or there is no such base, and it returns an error and changes nothing.
  pub allocate_n-IsFirstFreeRange :
      (preferred count : ℕ)
      → 0 < count
      → ((p : ℕ) × IsFirstFreeRange listen a.allocd count preferred p
          × ((allocate_n listen a preferred count).0 ≡ ok p)
          × ((q : ℕ)
              → taken q (allocate_n listen a preferred count).1.allocd
                ≡ (leb p q && ltb q (p + count)) || taken q a.allocd))
        ⊎ (((q : ℕ)
              → preferred ≤ q
              → q < preferred + max_port_scan
              → q + count - 1 ≤ max_port
              → ¬ IsFreeRange listen a.allocd count q)
            × (allocate_n listen a preferred count ≡ (err no_consecutive_ports, a)))
  unfolding allocate_n
  allocate_n-IsFirstFreeRange preferred count positive =
      elim (Option-cases (scan_range listen a.allocd count max_port_scan preferred)) [
        | inl e ↦ inr (
          λ q lo hi top.
              not-IsFreeRange listen a.allocd count q
                (range_none listen a.allocd count max_port_scan preferred q e lo hi top),
          rw e (ground arith),
        )
        | inr (p, e) ↦
            let (lo, hi, top, free) =
              range_sound listen a.allocd count max_port_scan preferred p e in
            inl (
              p,
              (
                lo,
                hi,
                top,
                all_free_sound listen a.allocd count p free,
                λ q l h.
                    not-IsFreeRange listen a.allocd count q
                      (range_first listen a.allocd count max_port_scan preferred p q e l h),
              ),
              rw e (ground arith),
              λ q. let all = taken-insert_range count p q a.allocd in rw e (ground arith),
            )
      ]
