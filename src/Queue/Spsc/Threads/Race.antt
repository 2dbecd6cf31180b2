-- ===== src/Queue/Spsc/Threads/Race.antt =====
-- HFT/Queue.hpp, CustomSPSCLockFreeQueue: `dequeue` advances `head_` before it reads the slot, so a
-- producer that finds the ring full up to then may overwrite the slot in between.
use Prim.Native.Nat.{bit_and}
use native.Mathlib.Nat.{add-mod_right}
use git_docs_test.Common.{
  ℕ, ◌+◌, ◌%◌, ◌^◌, ◌<◌, ◌≡◌, refl, sym, ap, ◌∙◌, false, Option, none, List, [], ◌∷◌, arith, get_or,
  ltb, ◌==◌, mask_of_power, power_half,
}
use git_docs_test.Queue.Ring.{word_sub}
use git_docs_test.Queue.Spsc.{Spsc}
use git_docs_test.Queue.Spsc.Refine.{IsValid, used, slot-eq, tail_slot}
use git_docs_test.Queue.Spsc.Threads.{
  Producer, Consumer, Threads, Move, producer_moves, consumer_moves, run,
}
use git_docs_test.Queue.Spsc.Threads.Claims.{all_claimed, wrote_reads}

module _ {A : Type 0} where
  -- both threads between their calls
  abbrev pub start : Spsc A → Threads A
  start r = record {
    ring = r;
    producer = Producer.idle;
    consumer = Consumer.resting;
    delivered = [];
  }

  -- the consumer claims, the producer runs a whole `enqueue(p)`, the consumer reads
  abbrev pub overtaking : Option A → List (Move A)
  overtaking p =
      consumer_moves
      ∷ consumer_moves
      ∷ consumer_moves
      ∷ producer_moves p
      ∷ producer_moves p
      ∷ producer_moves p
      ∷ producer_moves p
      ∷ consumer_moves
      ∷ []

  same_slot :
      {r : Spsc A} → IsValid r → used r ≡ r.capacity → bit_and r.tail r.mask ≡ bit_and r.head r.mask
  same_slot {r} v full =
      tail_slot v
      ∙ ap (λ (n : ℕ). (r.head + n) % r.capacity) full
      ∙ add-mod_right r.head r.capacity
      ∙ sym (slot-eq v r.head)

  -- On a full ring the claim of the oldest message can deliver the message enqueued last instead.
  pub overtaken :
      {r : Spsc A} (p : Option A)
      → IsValid r
      → used r ≡ r.capacity
      → ((run (overtaking p) (start r)).delivered ≡ p ∷ [])
        × (all_claimed (overtaking p) (start r) ≡ get_or r.buffer (bit_and r.head r.mask) none ∷ [])
  unfolding run all_claimed
  overtaken {r} p v full = rw (not_empty, has_room) (rw (← same_slot v full, wrote_reads p v), refl)
    where
      pos : 0 < r.capacity
      pos = (mask_of_power r.capacity v.power).0

      not_empty : (r.head == r.tail) ≡ false
      not_empty = ground (arith, pos)

      has_room : ltb r.capacity (word_sub ((r.tail + 1) % 2 ^ 64) ((r.head + 1) % 2 ^ 64)) ≡ false
      has_room = ground (arith, pos, power_half r.capacity v.power v.small)
