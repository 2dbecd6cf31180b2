-- ===== src/Queue/Spsc.antt =====
-- HFT/Queue.hpp, class CustomSPSCLockFreeQueue: a ring of message pointers. The positions `head` and
-- `tail` are `size_t` and wrap. The operations here run one after the other; the single steps of
-- a producer and a consumer that run at the same time are in Spsc/Threads.
pub mod Refine
pub mod Threads
use Prim.Native.Nat.{bit_and}
use git_docs_test.Common.{
  ℕ, ◌+◌, ◌-◌, ◌%◌, ◌^◌, Bool, true, false, ◌||◌, not, Option, none, List, get_or, set, length,
  replicate, ltb, ◌==◌, if◌then◌else◌, Result, ok, throws, invalid_capacity,
}
use git_docs_test.Queue.Ring.{word_sub}

pub record Spsc {ℓ} (A : Type ℓ) : Type ℓ where
  pub buffer : List (Option A)
  pub head : ℕ
  pub tail : ℕ
  pub capacity : ℕ
  pub mask : ℕ

module _ {ℓ} {A : Type ℓ} where
  -- The constructor, for any `Const::queueCapacity`.
  unfoldable pub new : ℕ → Result (Spsc A)
  new capacity =
      let mask = word_sub capacity 1 in
      let q : Spsc A = record {
        buffer = replicate capacity none;
        head = 0;
        tail = 0;
        capacity = capacity;
        mask = mask;
      } in
      if capacity == 0 || not (bit_and capacity mask == 0) then throws invalid_capacity else ok q

  unfoldable pub enqueue : Spsc A → Option A → Bool × Spsc A
  enqueue q ptr =
      let tail = q.tail in
      let next_tail = (tail + 1) % 2 ^ 64 in
      if ltb q.capacity (word_sub next_tail q.head)
      then (false, q)
      else (true, record q { buffer = set q.buffer (bit_and tail q.mask) ptr; tail = next_tail })

  unfoldable pub dequeue : Spsc A → Option A × Spsc A
  dequeue q =
      if q.head == q.tail
      then (none, q)
      else (get_or q.buffer (bit_and q.head q.mask) none, record q { head = (q.head + 1) % 2 ^ 64 })
