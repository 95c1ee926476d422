-- ===== src/Tor/Restart/Signals.antt =====
-- What holds of a restart loop after any events.
use splitter.Prelude.{
  ℕ, ◌≤◌, ◌≡◌, refl, ◌∙◌, ◌⊎◌, inl, inr, true, false, List, [], ◌∷◌, ◌++◌, map, append_assoc,
  append-nil, arith, leb→le, Bool-cases, length, All, pos,
}
use splitter.Tor.Backoff.{backoff_duration}
use splitter.Tor.Restart.{
  ready, bootstrapping, watching, grace_over, launching, returned, start_ok, start_failed,
  backoff_over, cancelled, exited, stopped_outside, started_outside, is_bootstrapping, dispatch,
  Phase, backing_off, Event, Runner, begin, step, run, total_signals, all_ready,
}

-- The wait of a runner that backs off is that of its count of failures.
abbrev pub WaitsRight : Phase → ℕ → Type 0
WaitsRight (backing_off d) failures = (1 ≤ failures) × (d ≡ backoff_duration (pos failures))
WaitsRight _ failures = Unit

pub record Inv (r : Runner) : Type 0 where
  pub once_false : r.once ≡ false → r.signals ≡ 0
  pub once_true : r.once ≡ true → r.signals ≡ 1
  pub ready_signalled : r.state ≡ ready → r.signals ≡ 1
  pub waits : WaitsRight r.phase r.failures

begin-Inv : Inv begin
unfolding begin
begin-Inv = record {
  once_false = λ _. refl;
  once_true = λ h. cc;
  ready_signalled = λ h. cc;
  waits = tt;
}

step-Inv : (r : Runner) (e : Event) → Inv r → Inv (step r e)
unfolding step
step-Inv r e h = ground arith

run_from-Inv : (r : Runner) (es : List Event) → Inv r → Inv (run r es)
unfolding run
run_from-Inv r [] h = h
run_from-Inv r (e ∷ es) h = run_from-Inv (step r e) es (step-Inv r e h)

-- After any events, the instance has signalled once if it used its one signal and not at all if it did
-- not; it is ready only if it has signalled; and a wait is that of the failures counted, of at least one.
pub run-Inv : (es : List Event) → Inv (run begin es)
run-Inv es = run_from-Inv begin es begin-Inv

at_most_one : (r : Runner) → Inv r → r.signals ≤ 1
at_most_one r h = elim (Bool-cases r.once) [
  | inl e ↦ omega (arith, h.once_true e)
  | inr e ↦ omega (arith, h.once_false e)
]

total-le : (rs : List Runner) → All Inv rs → total_signals rs ≤ length rs
total-le [] h = omega arith
total-le (r ∷ rs) (h, hs) = omega (arith, at_most_one r h, total-le rs hs)

each_signalled :
    (rs : List Runner) → All Inv rs → length rs ≤ total_signals rs → All (λ r. r.signals ≡ 1) rs
each_signalled [] h full = tt
each_signalled (r ∷ rs) (h, hs) full = (
  omega (arith, at_most_one r h, total-le rs hs),
  each_signalled rs hs (omega (arith, at_most_one r h, total-le rs hs)),
)

traces-Inv : (traces : List (List Event)) → All Inv (map (run begin) traces)
traces-Inv [] = tt
traces-Inv (es ∷ traces) = (run-Inv es, traces-Inv traces)

-- The bootstrap timer of a launched process has run out in these events, and set the instance's state
-- from bootstrapping to ready.
abbrev pub WasReady : List Event → Type 0
WasReady es =
    (before : List Event) × (after : List Event) × (es ≡ before ++ grace_over ∷ after)
    × ((run begin before).phase ≡ watching true)
    × ((run begin before).state ≡ bootstrapping)
    × ((run begin (before ++ grace_over ∷ [])).state ≡ ready)

-- A step that sends the first signal is the one that makes the instance ready.
abbrev FirstSent : Runner → Event → Type 0
FirstSent r e =
    (e ≡ grace_over)
    × (r.phase ≡ watching true)
    × (r.state ≡ bootstrapping)
    × ((step r e).state ≡ ready)

first_at :
    (p : Phase) (e : Event) (r : Runner)
    → r.once ≡ false
    → r.signals ≡ 0
    → (((dispatch p e r).once ≡ false) × ((dispatch p e r).signals ≡ 0))
      ⊎ ((e ≡ grace_over)
          × (p ≡ watching true)
          × (r.state ≡ bootstrapping)
          × ((dispatch p e r).state ≡ ready))
first_at launching e r quiet none_yet = inl (ground arith)
first_at (backing_off d) e r quiet none_yet = inl (ground arith)
first_at (watching false) e r quiet none_yet = inl (ground arith)
first_at returned e r quiet none_yet = inl (ground arith)
first_at (watching true) grace_over r quiet none_yet =
    elim (Bool-cases (is_bootstrapping r.state)) [
      | inl e ↦ inr (refl, refl, ground arith, rw e (rw quiet refl))
      | inr e ↦ inl (rw e (quiet, none_yet))
    ]
first_at (watching true) start_ok r quiet none_yet = inl (ground arith)
first_at (watching true) start_failed r quiet none_yet = inl (ground arith)
first_at (watching true) backoff_over r quiet none_yet = inl (ground arith)
first_at (watching true) cancelled r quiet none_yet = inl (ground arith)
first_at (watching true) (exited error) r quiet none_yet = inl (ground arith)
first_at (watching true) stopped_outside r quiet none_yet = inl (ground arith)
first_at (watching true) started_outside r quiet none_yet = inl (ground arith)

first_step :
    (r : Runner) (e : Event)
    → r.once ≡ false
    → r.signals ≡ 0
    → (((step r e).once ≡ false) × ((step r e).signals ≡ 0)) ⊎ FirstSent r e
unfolding step
first_step r e quiet none_yet = first_at r.phase e r quiet none_yet

run-append : (r : Runner) (es fs : List Event) → run r (es ++ fs) ≡ run (run r es) fs
unfolding run
run-append r [] fs = refl
run-append r (e ∷ es) fs = run-append (step r e) es fs

signal_lem :
    (done es : List Event)
    → (run begin done).once ≡ false
    → (run begin done).signals ≡ 0
    → (run begin (done ++ es)).signals ≡ 1
    → WasReady (done ++ es)
signal_lem done [] quiet none_yet h =
    let same = append-nil done in let none_sent = rw same at h in absurd (ground arith)
signal_lem done (e ∷ es) quiet none_yet h =
    let one : run begin (done ++ e ∷ []) ≡ step (run begin done) e =
      run-append begin done (e ∷ []) ∙ unfold run in refl in
    let all : (done ++ e ∷ []) ++ es ≡ done ++ e ∷ es = append_assoc done (e ∷ []) es in
    elim (first_step (run begin done) e quiet none_yet) [
      | inl (quiet', none_yet') ↦
          let later =
            signal_lem (done ++ e ∷ []) es (rw one quiet') (rw one none_yet') (rw all h) in
          rw all at later
      | inr (same, phase, state, up) ↦
          (done, es, rw same refl, phase, state, rw (← same) (rw one up))
    ]

signalled-WasReady : (es : List Event) → (run begin es).signals ≡ 1 → WasReady es
unfolding begin
signalled-WasReady es h = signal_lem [] es (unfold run in refl) (unfold run in refl) h

All-WasReady :
    (traces : List (List Event))
    → All (λ r. r.signals ≡ 1) (map (run begin) traces)
    → All WasReady traces
All-WasReady [] h = tt
All-WasReady (es ∷ traces) (here, later) = (signalled-WasReady es here, All-WasReady traces later)

-- When `StartAllWithRestart` has counted as many signals as there are instances, every instance, and
-- not some instance twice, has been ready, whatever happened to each: its bootstrap timer has run out
-- under a process of its own while it was bootstrapping, and it was ready then. Each has signalled once.
pub all_ready_each :
    (traces : List (List Event))
    → all_ready (map (run begin) traces) ≡ true
    → All WasReady traces × All (λ r. r.signals ≡ 1) (map (run begin) traces)
unfolding all_ready
all_ready_each traces h =
    let once = each_signalled (map (run begin) traces) (traces-Inv traces) (leb→le _ _ h) in
    (All-WasReady traces once, once)
