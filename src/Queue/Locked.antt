-- ===== src/Queue/Locked.antt =====
-- HFT/Queue.hpp, class LockedQueue: a queue without a bound behind a mutex. A call holds the mutex
-- while it runs, and the `dequeue` of a thread that finds the queue empty sleeps until it is woken
-- with something in it.
use git_docs_test.Common.{
  ◌≡◌, refl, sym, ap, ◌∙◌, Bool, true, Option, none, some, List, [], ◌∷◌, ◌++◌,
}
use mathlib.Core.List.{append-nil, append_assoc}

module _ {ℓ} {A : Type ℓ} where
  unfoldable pub enqueue : List A → A → Bool × List A
  enqueue queue ptr = (true, queue ++ (ptr ∷ []))

  -- The message and the queue; `none` while the call waits.
  unfoldable pub dequeue : List A → Option (A × List A)
  dequeue [] = none
  dequeue (msg ∷ queue) = some (msg, queue)

-- What gets the mutex next: a call of `enqueue`, or a thread in `dequeue` that is called or awake.
pub data Turn {ℓ} (A : Type ℓ) : Type ℓ where
  producer : A → Turn A
  consumer : Turn A

pub record Shared {ℓ} (A : Type ℓ) : Type ℓ where
  pub queue : List A
  -- what the calls of `dequeue` have returned, in the order in which they held the mutex
  pub returned : List A

module _ {ℓ} {A : Type ℓ} where
  unfoldable pub turn : Turn A → Shared A → Shared A
  unfolding enqueue dequeue
  turn (producer ptr) s = record s { queue = (enqueue s.queue ptr).1 }
  turn consumer s = elim (dequeue s.queue) [
    | none ↦ s
    | some (msg, queue) ↦ record { queue = queue; returned = s.returned ++ (msg ∷ []) }
  ]

  unfoldable pub turns : List (Turn A) → Shared A → Shared A
  unfolding turn
  turns [] s = s
  turns (t ∷ ts) s = turns ts (turn t s)

  -- the messages of the calls of `enqueue`
  unfoldable pub sent : List (Turn A) → List A
  sent [] = []
  sent (producer ptr ∷ ts) = ptr ∷ sent ts
  sent (consumer ∷ ts) = sent ts

  kept :
      (t : Turn A) (s : Shared A)
      → (turn t s).returned ++ (turn t s).queue ≡ (s.returned ++ s.queue) ++ sent (t ∷ [])
  unfolding turn enqueue dequeue sent
  kept (producer ptr) s = sym (append_assoc s.returned s.queue (ptr ∷ []))
  kept consumer s = by_queue s.returned s.queue
    where
      by_queue :
          (r q : List A)
          → (turn consumer (record { queue = q; returned = r })).returned
              ++ (turn consumer (record { queue = q; returned = r })).queue
            ≡ (r ++ q) ++ []
      by_queue r [] = sym (append-nil (r ++ []))
      by_queue r (msg ∷ q) = append_assoc r (msg ∷ []) q ∙ sym (append-nil (r ++ (msg ∷ q)))

  sent_cons : (t : Turn A) (ts : List (Turn A)) → sent (t ∷ ts) ≡ sent (t ∷ []) ++ sent ts
  unfolding sent
  sent_cons (producer ptr) ts = refl
  sent_cons consumer ts = refl

  -- In whatever order the threads get the mutex, what was returned and then what is queued are the
  -- messages that were there and then the sent ones, in order: none is lost, doubled or overtaken.
  pub turns-sent :
      (ts : List (Turn A)) (s : Shared A)
      → (turns ts s).returned ++ (turns ts s).queue ≡ (s.returned ++ s.queue) ++ sent ts
  unfolding turns sent
  turns-sent [] s = sym (append-nil (s.returned ++ s.queue))
  turns-sent (t ∷ ts) s =
      turns-sent ts (turn t s)
      ∙ ap (λ xs. xs ++ sent ts) (kept t s)
      ∙ append_assoc (s.returned ++ s.queue) (sent (t ∷ [])) (sent ts)
      ∙ ap (λ xs. (s.returned ++ s.queue) ++ xs) (sym (sent_cons t ts))
