-- ===== src/Queue/Fifo.antt =====
-- The contract of `Queue<Q>` in HFT/Queue.hpp: a FIFO of at most `capacity` messages. A message is
-- a pointer, so `enqueue` takes an option (`none` is `nullptr`) and `dequeue` returns one.
use git_docs_test.Common.{
  ℕ, Bool, true, false, Option, none, List, [], ◌∷◌, ◌++◌, length, ltb, if◌then◌else◌,
}

module _ {ℓ} {A : Type ℓ} where
  unfoldable pub enqueue : ℕ → List (Option A) → Option A → Bool × List (Option A)
  enqueue capacity q p = if ltb (length q) capacity then (true, q ++ (p ∷ [])) else (false, q)

  unfoldable pub dequeue : List (Option A) → Option A × List (Option A)
  dequeue [] = (none, [])
  dequeue (p ∷ q) = (p, q)
