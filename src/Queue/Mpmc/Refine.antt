-- ===== src/Queue/Mpmc/Refine.antt =====
-- CustomMPMCLockFreeQueue (HFT/Queue.hpp), one call after the other, against the bounded FIFO.
use git_docs_test.Common.{
  ℕ, ◌+◌, ◌^◌, ◌≤◌, ◌<◌, ◌≡◌, refl, sym, ap, ◌∙◌, Bool, true, false, Option, none, some, List, [],
  ◌∷◌, ◌++◌, length, lt→ltb, ok, ◌>>=◌, Returns, power_half, arith,
}
use native.Mathlib.Decide.{dec_lt}
use git_docs_test.Queue.Fifo
use git_docs_test.Queue.Mpmc.{
  Mpmc, cell_at, publish, release, claim_tail, claim_head, enqueue, dequeue,
}
use git_docs_test.Queue.Mpmc.Cells.{
  IsValid, exchanges, claims_tail, claims_head, refuses_tail, refuses_head,
}
use git_docs_test.Queue.Mpmc.Steps.{
  contents, published, publish_lem, published-IsValid, contents-published, released, release_lem,
  released-IsValid, contents-released, contents-empty, length-contents,
}

module _ {ℓ} {A : Type ℓ} where
  pub fifo_room :
      (n : ℕ) (xs : List (Option A)) (p : Option A)
      → length xs < n
      → Fifo.enqueue n xs p ≡ (true, xs ++ (p ∷ []))
  unfolding Fifo.enqueue
  fifo_room n xs p lt = rw (lt→ltb (length xs) n lt) refl

  fifo_full :
      (n : ℕ) (xs : List (Option A)) (p : Option A)
      → n ≤ length xs
      → Fifo.enqueue n xs p ≡ (false, xs)
  unfolding Fifo.enqueue
  fifo_full n xs p le = ground arith

  enqueue_run :
      (rounds : List Bool) (q : Mpmc A) (ptr : Option A) (o : Option ℕ)
      → claim_tail rounds q q.tail ≡ ok o
      → enqueue rounds q ptr
        ≡ ok (elim o [ none ↦ (false, q) | some pos ↦ (true, publish q ptr pos) ])
  unfolding enqueue
  enqueue_run rounds q ptr o e =
      ap (λ r. r >>= λ o. ok (elim o [ none ↦ (false, q) | some pos ↦ (true, publish q ptr pos) ]))
        e

  dequeue_run :
      (rounds : List Bool) (q : Mpmc A) (o : Option ℕ)
      → claim_head rounds q q.head ≡ ok o
      → dequeue rounds q
        ≡ ok (elim o [ none ↦ (none, q) | some pos ↦ ((cell_at q pos).data_ptr, release q pos) ])
  unfolding dequeue
  dequeue_run rounds q o e =
      ap
        (λ r. r >>= λ o.
          ok (elim o [ none ↦ (none, q) | some pos ↦ ((cell_at q pos).data_ptr, release q pos) ]))
        e

  -- On a queue of at least two cells that is in order, whose counters stay below 2^63, `enqueue`
  -- returns once its exchange does not fail without a reason, answers as the bounded FIFO, and leaves
  -- a queue in order that holds what the FIFO holds.
  pub mpmc_enqueue :
      (rounds : List Bool) (q : Mpmc A) (ptr : Option A)
      → IsValid q
      → q.tail + 1 < 2 ^ 63
      → exchanges rounds ≡ true
      → Returns (enqueue rounds q ptr) (λ (b, q').
        IsValid q'
        × (q'.capacity ≡ q.capacity)
        × (q'.tail ≤ q.tail + 1)
        × ((b, contents q') ≡ Fifo.enqueue q.capacity (contents q) ptr))
  mpmc_enqueue rounds q ptr v small e = elim (dec_lt q.tail (q.head + q.capacity)) [
    | yes room ↦ (
      (true, published q ptr),
      enqueue_run rounds q ptr (some q.tail) (claims_tail v rounds room (omega arith) e)
          ∙ ap (λ q'. ok (true, q')) (publish_lem q ptr (omega arith)),
      (
        published-IsValid ptr v room,
        refl,
        omega arith,
        rw (contents-published ptr v room) (
            sym (
              fifo_room q.capacity (contents q) ptr (omega (arith, length-contents q, v.several)))),
      ),
    )
    | no full ↦ (
      (false, q),
      enqueue_run rounds q ptr none
          (refuses_tail v rounds (omega (arith, v.bounded)) (omega arith) e),
      (
        v,
        refl,
        omega arith,
        sym (fifo_full q.capacity (contents q) ptr (omega (arith, length-contents q))),
      ),
    )
  ]

  pub mpmc_dequeue :
      (rounds : List Bool) (q : Mpmc A)
      → IsValid q
      → q.tail + 1 < 2 ^ 63
      → exchanges rounds ≡ true
      → Returns (dequeue rounds q) (λ (p, q').
        IsValid q' × (q'.tail ≡ q.tail) × ((p, contents q') ≡ Fifo.dequeue (contents q)))
  unfolding Fifo.dequeue
  mpmc_dequeue rounds q v small e = elim (dec_lt q.head q.tail) [
    | yes more ↦ (
      ((cell_at q q.head).data_ptr, released q),
      dequeue_run rounds q (some q.head) (claims_head v rounds more (omega arith) e)
          ∙ ap (λ q'. ok ((cell_at q q.head).data_ptr, q'))
              (release_lem q (omega arith) (omega (arith, power_half q.capacity v.power v.small))),
      (released-IsValid v more, refl, rw (contents-released v more) refl),
    )
    | no none_left ↦ (
      (none, q),
      dequeue_run rounds q none (refuses_head v rounds (omega (arith, v.ordered)) (omega arith) e),
      (v, refl, rw (contents-empty q (omega (arith, v.ordered))) refl),
    )
  ]
