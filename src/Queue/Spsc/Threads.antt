-- ===== src/Queue/Spsc/Threads.antt =====
-- HFT/Queue.hpp, class CustomSPSCLockFreeQueue with its two threads: `enqueue` and `dequeue` cut
-- into the steps that the atomics make visible, run in any order of one producer and one consumer
-- (sequentially consistent; weaker memory orders are not modelled).
pub mod Claims
pub mod Race
use Prim.Native.Nat.{bit_and}
use git_docs_test.Common.{
  ℕ, ◌+◌, ◌%◌, ◌^◌, Option, none, some, List, [], ◌∷◌, ◌++◌, get_or, set, ltb, ◌==◌, if◌then◌else◌,
}
use git_docs_test.Queue.Ring.{word_sub}
use git_docs_test.Queue.Spsc.{Spsc}

-- Where the producer stands in `enqueue(ptr)`: before it, behind the load of `tail_`, behind the
-- test against `head_`, behind the write of the slot.
pub data Producer (A : Type 0) : Type 0 where
  idle : Producer A
  tail_loaded : Option A → ℕ → Producer A
  admitted : Option A → ℕ → Producer A
  written : Option A → ℕ → Producer A

-- Where the consumer stands in `dequeue()`: before it, behind the load of `head_`, behind the test
-- against `tail_`, behind `fetch_add`, which returned the position to read.
pub data Consumer : Type 0 where
  resting : Consumer
  head_loaded : ℕ → Consumer
  available : Consumer
  claimed : ℕ → Consumer

pub record Threads (A : Type 0) : Type 0 where
  pub ring : Spsc A
  pub producer : Producer A
  pub consumer : Consumer
  -- what `dequeue` has returned, `nullptr` for an empty queue included, oldest first
  pub delivered : List (Option A)

module _ {A : Type 0} where
  -- One step of the producer; `next` is the argument of the next call of `enqueue`.
  unfoldable pub produce : Option A → Producer A → Threads A → Threads A
  produce next idle s = record s { producer = tail_loaded next s.ring.tail }
  produce next (tail_loaded p tail) s =
      if ltb s.ring.capacity (word_sub ((tail + 1) % 2 ^ 64) s.ring.head)
      then record s { producer = idle }
      else record s { producer = admitted p tail }
  produce next (admitted p tail) s = record s {
    ring = record (s.ring) { buffer = set s.ring.buffer (bit_and tail s.ring.mask) p };
    producer = written p tail;
  }
  produce next (written p tail) s = record s {
    ring = record (s.ring) { tail = (tail + 1) % 2 ^ 64 };
    producer = idle;
  }

  -- One step of the consumer.
  unfoldable pub consume : Consumer → Threads A → Threads A
  consume resting s = record s { consumer = head_loaded s.ring.head }
  consume (head_loaded head) s =
      if head == s.ring.tail
      then record s { consumer = resting; delivered = s.delivered ++ (none ∷ []) }
      else record s { consumer = available }
  consume available s = record s {
    ring = record (s.ring) { head = (s.ring.head + 1) % 2 ^ 64 };
    consumer = claimed s.ring.head;
  }
  consume (claimed head) s =
      let msg = get_or s.ring.buffer (bit_and head s.ring.mask) none in
      record s { consumer = resting; delivered = s.delivered ++ (msg ∷ []) }

-- A schedule says which thread moves, and what the producer enqueues if it begins a call.
pub data Move (A : Type 0) : Type 0 where
  producer_moves : Option A → Move A
  consumer_moves : Move A

module _ {A : Type 0} where
  unfoldable pub step : Move A → Threads A → Threads A
  unfolding produce consume
  step (producer_moves p) s = produce p s.producer s
  step consumer_moves s = consume s.consumer s

  unfoldable pub run : List (Move A) → Threads A → Threads A
  unfolding step
  run [] s = s
  run (m ∷ ms) s = run ms (step m s)
