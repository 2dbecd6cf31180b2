-- ===== src/Queue/Mpmc/Tests.antt =====
-- HFT/Queue.hpp, class CustomMPMCLockFreeQueue on rings of one and two cells, and class LockedQueue.
use git_docs_test.Common.{
  ℕ, ◌≤◌, ◌≡◌, refl, true, false, none, some, [], ◌∷◌, ◌++◌, ok, Returns, ◌>>=◌, arith,
}
use git_docs_test.Queue.Fifo
use git_docs_test.Queue.Mpmc.{Mpmc, new, enqueue, dequeue}
use git_docs_test.Queue.Mpmc.Cells.{IsValid, exchanges}
use git_docs_test.Queue.Ring.{window}
use git_docs_test.Queue.Mpmc.Steps.{contents, published, published-IsValid}
use git_docs_test.Queue.Mpmc.Refine.{mpmc_enqueue, mpmc_dequeue}
use git_docs_test.Queue.Mpmc.Trip.{made, made-IsValid, send, receive, round_trip}
use git_docs_test.Queue.Locked.{producer, consumer, Shared, turns, sent, turns-sent}

abbrev two_cells : Mpmc ℕ
two_cells = made 2

two_cells-IsValid : IsValid two_cells
two_cells-IsValid = made-IsValid 2 (omega arith) (omega arith) (1, refl)

-- With one cell a full queue takes another message, which overwrites the first.
one_cell_overwrites :
    (new {A = ℕ} 1 >>= λ q. enqueue (false ∷ []) q (some 7) >>= λ (b, q').
    enqueue (false ∷ []) q' (some 8) >>= λ (b', q''). ok q''.buffer)
    ≡ ok (record { seq = 2; data_ptr = some 8 } ∷ [])
unfolding new enqueue
one_cell_overwrites = refl

full_refuses :
    (new {A = ℕ} 2 >>= λ q. send (true ∷ false ∷ []) q (some 7 ∷ some 8 ∷ []) >>= λ q'.
    enqueue (false ∷ []) q' (some 9) >>= λ (b, q''). ok b)
    ≡ ok false
unfolding new send enqueue
full_refuses = refl

mpmc_enqueue_example : Returns (enqueue (true ∷ false ∷ []) two_cells (some 7)) (λ (b, q').
    IsValid q'
    × (q'.capacity ≡ 2)
    × (q'.tail ≤ 1)
    × ((b, contents q') ≡ Fifo.enqueue 2 (contents two_cells) (some 7)))
unfolding exchanges
mpmc_enqueue_example =
    mpmc_enqueue (true ∷ false ∷ []) two_cells (some 7) two_cells-IsValid (omega arith) refl

abbrev one_message : Mpmc ℕ
one_message = published two_cells (some 7)

mpmc_dequeue_example : Returns (dequeue (true ∷ false ∷ []) one_message) (λ (p, q').
    IsValid q' × (q'.tail ≡ 1) × ((p, contents q') ≡ Fifo.dequeue (contents one_message)))
unfolding exchanges
mpmc_dequeue_example =
    mpmc_dequeue (true ∷ false ∷ []) one_message
      (published-IsValid (some 7) two_cells-IsValid (omega arith)) (omega arith) refl

round_trip_example :
    (send (true ∷ false ∷ []) two_cells (some 7 ∷ none ∷ []) >>= λ q'.
    receive (true ∷ false ∷ []) q' 2)
    ≡ ok (some 7 ∷ none ∷ [])
unfolding contents window exchanges
round_trip_example =
    round_trip (true ∷ false ∷ []) two_cells (some 7 ∷ none ∷ []) two_cells-IsValid refl
      (omega arith) (omega arith) refl

abbrev waiting : Shared ℕ
waiting = record { queue = []; returned = [] }

turns-sent_example :
    (turns (consumer ∷ producer 7 ∷ producer 8 ∷ consumer ∷ []) waiting).returned
      ++ (turns (consumer ∷ producer 7 ∷ producer 8 ∷ consumer ∷ []) waiting).queue
    ≡ [] ++ sent (consumer ∷ producer 7 ∷ producer 8 ∷ consumer ∷ [])
turns-sent_example = turns-sent (consumer ∷ producer 7 ∷ producer 8 ∷ consumer ∷ []) waiting
