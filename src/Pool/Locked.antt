-- ===== src/Pool/Locked.antt =====
-- HFT/MemoryPool.hpp, class CustomLockedPool: a stack of message pointers, its top in front. The
-- two branches on ThreadSafe do the same, one of them under the mutex.
pub mod Owners
mod Tests
use git_docs_test.Common.{
  ℕ, zero, suc, ◌+◌, Option, some, List, [], ◌∷◌, Result, ok, throws, no_free_messages,
}

pub record Locked : Type 0 where
  pub free_msgs : List (Option ℕ)

-- `freeMsgs_.push(&pool_[i])` for the `n` indices from `i` on
unfoldable pub push_from : ℕ → ℕ → List (Option ℕ) → List (Option ℕ)
push_from zero i msgs = msgs
push_from (suc n) i msgs = push_from n (i + 1) (some i ∷ msgs)

-- The constructor, for any `Const::poolMsgCount`.
unfoldable pub new : ℕ → Locked
unfolding push_from
new count = record { free_msgs = push_from count 0 [] }

unfoldable pub allocate : Locked → Result (Option ℕ × Locked)
allocate p = elim p.free_msgs [
  | [] ↦ throws no_free_messages
  | msg ∷ rest ↦ ok (msg, record { free_msgs = rest })
]

unfoldable pub deallocate : Locked → Option ℕ → Result Locked
deallocate p msg = ok (record { free_msgs = msg ∷ p.free_msgs })
