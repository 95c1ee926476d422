-- ===== src/Health/Examples.antt =====
-- internal/health/dnsleak.go: concrete runs.
use splitter.Prelude.{ℕ, ◌≡◌, refl, true, false, some, List, [], ◌∷◌, arith}
use splitter.Health.{Conn, read_full, request, resolve, Checker}
use splitter.Health.Result.{ok}
use splitter.Health.Reads.{stream}
use splitter.Health.Socks.{name, resolve_lem}

abbrev two_chunks : List (List ℕ)
two_chunks = (1 ∷ 2 ∷ []) ∷ (3 ∷ 4 ∷ []) ∷ []

splits_a_chunk : read_full 3 two_chunks ≡ some (1 ∷ 2 ∷ 3 ∷ [], (4 ∷ []) ∷ [])
unfolding read_full
splits_a_chunk = refl

-- "go.dev"
abbrev go_dev : List ℕ
go_dev = 103 ∷ 111 ∷ 46 ∷ 100 ∷ 101 ∷ 118 ∷ []

-- A proxy that answers with a name of two bytes, in three chunks and with a byte to spare.
abbrev answering : Conn
answering = record {
  sent = [];
  reads = (5 ∷ 0 ∷ 5 ∷ []) ∷ (0 ∷ 0 ∷ 3 ∷ 2 ∷ 104 ∷ []) ∷ (105 ∷ 0 ∷ 80 ∷ 9 ∷ []) ∷ [];
  broken = false;
}

resolve_lem_example :
    (left : List (List ℕ)) × (resolve (λ ip. ip) go_dev answering
      ≡ ok
          (104 ∷ 105 ∷ [], record answering { sent = 5 ∷ 1 ∷ 0 ∷ request go_dev 80; reads = left }))
    × (stream left ≡ 9 ∷ [])
resolve_lem_example =
    resolve_lem (λ ip. ip) go_dev (name (104 ∷ 105 ∷ [])) 0 80 (omega arith) (omega arith) answering
      (9 ∷ []) refl refl

abbrev fresh : Checker ℕ
fresh = record { results = []; running = true }
