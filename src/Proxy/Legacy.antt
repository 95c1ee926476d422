-- ===== src/Proxy/Legacy.antt =====
-- internal/proxy/legacy.go: what the legacy proxy starts and leaves running, and the files it reads.
use Prim.Native.String.{◌++◌ as text_append}
use splitter.Prelude.{
  ℕ, zero, suc, ◌+◌, String, ◌≡◌, refl, ap, ◌∙◌, ◌⊎◌, inl, inr, Bool, true, false, not, ◌&&◌, ◌||◌,
  Option, none, some, List, [], ◌∷◌, ◌++◌, map, arith, ◌==◌, Bool-cases, Option-cases, length,
  length-append, ℤ, decimal, pos,
}
use splitter.Config.Types.{PrivoxyConfig}
use splitter.Proxy.{
  LegacyProxy, ProcessManager, stop_each, nones, start_each, start, stop_all, stop, config_path,
}

-- What the manager documents, for a test of which processes run: a spawn that succeeds adds one process
-- that did not run, a spawn that fails changes nothing, and a stop ends the process.
pub record IsLawful {S : Type 0} (manager : ProcessManager S) (live : S → ℕ → Bool) : Type 0 where
  pub spawn_fails :
      (name path : String) (args : List String) (s : S)
      → (manager.spawn_process name path args s).1 ≡ none
      → (k : ℕ) → live (manager.spawn_process name path args s).0 k ≡ live s k
  pub spawn_adds :
      (name path : String) (args : List String) (s : S) (h : ℕ)
      → (manager.spawn_process name path args s).1 ≡ some h
      → (live s h ≡ false)
        × ((k : ℕ) → live (manager.spawn_process name path args s).0 k ≡ (h == k || live s k))
  pub stop_ends :
      (h : ℕ) (s : S) (k : ℕ) → live (manager.stop_process h s).0 k ≡ (live s k && not (h == k))

abbrev pub among : ℕ → List ℕ → Bool
among k [] = false
among k (h ∷ hs) = h == k || among k hs

-- No number twice.
abbrev pub IsDistinct : List ℕ → Type 0
IsDistinct [] = Unit
IsDistinct (h ∷ hs) = (among h hs ≡ false) × IsDistinct hs

among-append : (k h : ℕ) (hs : List ℕ) → among k (hs ++ h ∷ []) ≡ (among k hs || h == k)
among-append k h [] = ground arith
among-append k h (g ∷ hs) = ground (arith, among-append k h hs)

IsDistinct-append :
    (hs : List ℕ) (h : ℕ) → IsDistinct hs → among h hs ≡ false → IsDistinct (hs ++ h ∷ [])
IsDistinct-append [] h apart new = (refl, tt)
IsDistinct-append (g ∷ hs) h (here, later) new =
    let both = among-append g h hs in (ground arith, IsDistinct-append hs h later (ground arith))

module _ {S : Type 0} (manager : ProcessManager S) (live : S → ℕ → Bool)
    (lawful : IsLawful manager live) where
  stop_each-live :
      (hs : List ℕ) (s : S) (k : ℕ)
      → live (stop_each manager hs s) k ≡ (live s k && not (among k hs))
  stop_each-live [] s k = ground arith
  stop_each-live (h ∷ hs) s k =
      let one = lawful.stop_ends h s k in
      let rest = stop_each-live hs (manager.stop_process h s).0 k in ground arith

  -- The processes of a list of handles.
  abbrev handles : List (Option ℕ) → List ℕ
  handles [] = []
  handles (none ∷ procs) = handles procs
  handles (some h ∷ procs) = h ∷ handles procs

  stop_all-live :
      (procs : List (Option ℕ)) (s : S) (k : ℕ)
      → live (stop_all manager procs s).0 k ≡ (live s k && not (among k (handles procs)))
  stop_all-live [] s k = ground arith
  stop_all-live (none ∷ procs) s k = stop_all-live procs s k
  stop_all-live (some h ∷ procs) s k =
      let one = lawful.stop_ends h s k in
      let rest = stop_all-live procs (manager.stop_process h s).0 k in ground arith

  handles-nones : (hs : List ℕ) (n : ℕ) → handles (map some hs ++ nones manager n) ≡ hs
  handles-nones [] zero = refl
  handles-nones [] (suc n) = handles-nones [] n
  handles-nones (h ∷ hs) n = ap (λ t. h ∷ t) (handles-nones hs n)

  handles-map : (hs : List ℕ) → handles (map some hs) ≡ hs
  handles-map [] = refl
  handles-map (h ∷ hs) = ap (λ t. h ∷ t) (handles-map hs)

  -- `s` is `base` with the processes `hs` besides, none of which ran in `base`.
  abbrev Adds : S → List ℕ → S → Type 0
  Adds base hs s =
      (k : ℕ) → (live s k ≡ (among k hs || live base k)) × ((among k hs && live base k) ≡ false)

  -- How a start ends: the processes all run, or those that had been started have been stopped.
  abbrev Started : S → ℕ → S × List (Option ℕ) × Bool → Type 0
  Started base n (s, procs, ok) =
      (hs : List ℕ) × (handles procs ≡ hs)
      × IsDistinct hs
      × ((k : ℕ) → (among k hs && live base k) ≡ false)
      × (((ok ≡ true) × (length hs ≡ n) × ((k : ℕ) → live s k ≡ (among k hs || live base k)))
          ⊎ ((ok ≡ false) × ((k : ℕ) → live s k ≡ live base k)))

  add_one :
      (base : S) (hs : List ℕ) (s s' : S) (h : ℕ)
      → Adds base hs s
      → live s h ≡ false
      → ((k : ℕ) → live s' k ≡ (h == k || live s k))
      → Adds base (hs ++ h ∷ []) s'
  add_one base hs s s' h adds fresh more k =
      let both = among-append k h hs in
      let now = more k in
      let (before, apart) = adds k in
      elim (Bool-cases (h == k)) [
        | inl e ↦
            let same : h ≡ k = ground arith in
            let quiet : live s k ≡ false = rw same at fresh in (ground arith, ground arith)
        | inr e ↦ (ground arith, ground arith)
      ]

  start_each-Started :
      (cfg : PrivoxyConfig) (base : S) (i : ℕ) (ports : List ℤ) (hs : List ℕ) (s : S)
      → Adds base hs s
      → IsDistinct hs
      → Started base (length hs + length ports) (start_each manager cfg i ports hs s)
  start_each-Started cfg base i [] hs s adds apart =
      (hs, handles-map hs, apart, (λ k. (adds k).1), inl (refl, omega arith, λ k. (adds k).0))
  start_each-Started cfg base i (port ∷ ports) hs s adds apart =
      let name = text_append "privoxy-" (decimal i) in
      let args = config_path cfg (pos i) ∷ [] in
      elim (Option-cases (manager.spawn_process name cfg.binary_path args s).1) [
        | inl e ↦
            let s' = (manager.spawn_process name cfg.binary_path args s).0 in
            rw (e, start_each)
              (
                hs,
                handles-nones hs (suc (length ports)),
                apart,
                λ k. (adds k).1,
                inr (
                  refl,
                  λ k.
                      let stopped = stop_each-live hs s' k in
                      let kept = lawful.spawn_fails name cfg.binary_path args s e k in
                      let (before, other) = adds k in ground arith,
                ),
              )
        | inr (h, e) ↦
            let s' = (manager.spawn_process name cfg.binary_path args s).0 in
            let (fresh, more) = lawful.spawn_adds name cfg.binary_path args s h e in
            let rest =
              start_each-Started cfg base (suc i) ports (hs ++ h ∷ []) s'
                (add_one base hs s s' h adds fresh more)
                (IsDistinct-append hs h apart (let (now, other) = adds h in ground arith)) in
            let long : length (hs ++ h ∷ []) + length ports ≡ length hs + suc (length ports) =
              omega (arith, length-append hs (h ∷ [])) in
            rw (e, start_each) (rw long at rest)
      ]

  -- With a lawful manager: a legacy proxy that has been set up and that starts has started as many
  -- processes as it has ports, no two the same and none of which ran before, and they and those that
  -- ran before are the ones that run; one that fails to start leaves those running that were. A stop after
  -- either leaves those running that were before the start.
  pub stop-start :
      (p : LegacyProxy) (s : S)
      → p.procs ≡ []
      → let (s', p', ok) = start manager p s in
        let (s'', p'', failed) = stop manager p' s' in
        ((ok ≡ true)
            × ((hs : List ℕ) × (length hs ≡ length p.ports)
                × IsDistinct hs
                × ((k : ℕ) → (among k hs && live s k) ≡ false)
                × ((k : ℕ) → live s' k ≡ (among k hs || live s k)))
          ⊎ (ok ≡ false) × ((k : ℕ) → live s' k ≡ live s k))
        × ((k : ℕ) → live s'' k ≡ live s k)
        × (p''.procs ≡ [])
  unfolding start stop
  stop-start p s none_yet = elim (Bool-cases (length p.ports == 0)) [
    | inl e ↦
        let no_handles : handles p.procs ≡ [] = ap handles none_yet in
        rw e (
          inl (refl, ([], ground arith, tt, (λ k. refl), λ k. refl)),
          λ k.
              let over = stop_all-live p.procs s k in
              let none_there = ap (among k) no_handles in ground arith,
          refl,
        )
    | inr e ↦
        let (s', procs, ok) = start_each manager p.cfg 0 p.ports [] s in
        let (hs, owned, distinct, apart, result) =
          start_each-Started p.cfg s 0 p.ports [] s (λ k. (refl, refl)) tt in
        let over : (k : ℕ)
            → live (stop_all manager procs s').0 k ≡ (live s' k && not (among k hs)) =
          λ k. stop_all-live procs s' k ∙ ap (λ l. live s' k && not (among k l)) owned in
        rw e (elim result [
          | inl (fine, long, more) ↦ (
            inl (fine, (hs, omega (arith, long), distinct, apart, more)),
            λ k. let a = apart k in let b = more k in let c = over k in ground arith,
            refl,
          )
          | inr (failed, same) ↦ (
            inr (failed, same),
            λ k. let a = apart k in let b = same k in let c = over k in ground arith,
            refl,
          )
        ])
  ]
