-- ===== src/Queue/Spsc/Threads/Claims.antt =====
-- HFT/Queue.hpp, CustomSPSCLockFreeQueue under every interleaving of one producer and one consumer:
-- the positions that the producer publishes and the consumer claims behave as a FIFO.
use Prim.Native.Nat.{bit_and}
use mathlib.Core.List.{append-nil, append_assoc}
use native.Mathlib.Numerals.{add-one}
use native.Mathlib.Nat.{mod-lt}
use git_docs_test.Common.{
  ◌≤◌, ℕ, ◌+◌, ◌%◌, ◌^◌, ◌<◌, ◌≡◌, refl, sym, ap, ◌∙◌, Option, none, List, [], ◌∷◌, ◌++◌, arith,
  get_or, set, length-set, ltb, ◌==◌, Bool-cases, inl, inr, mask_of_power,
}
use git_docs_test.Queue.Ring.{word_sub, window-suc, window-set_behind, get_or-set_self}
use git_docs_test.Queue.Spsc.{Spsc}
use git_docs_test.Queue.Spsc.Refine.{
  IsValid, used, contents, slot-eq, tail_slot, used-step, contents-popped, popped,
}
use git_docs_test.Queue.Spsc.Threads.{
  Producer, idle, tail_loaded, admitted, written, Consumer, resting, head_loaded, available,
  claimed, Threads, produce, consume, Move, producer_moves, consumer_moves, step, run,
}

module _ {A : Type 0} where
  -- What a producer in the middle of `enqueue` knows of the ring.
  abbrev pub ProducerKnows : Spsc A → Producer A → Type 0
  ProducerKnows r idle = Unit {0}
  ProducerKnows r (tail_loaded p t) = t ≡ r.tail
  ProducerKnows r (admitted p t) = (t ≡ r.tail) × (used r < r.capacity)
  ProducerKnows r (written p t) =
      (t ≡ r.tail) × (used r < r.capacity) × (get_or r.buffer (bit_and t r.mask) none ≡ p)

  -- What a consumer in the middle of `dequeue` knows of the ring.
  abbrev pub ConsumerKnows : Spsc A → Consumer → Type 0
  ConsumerKnows r resting = Unit {0}
  ConsumerKnows r (head_loaded h) = h ≡ r.head
  ConsumerKnows r available = 0 < used r
  ConsumerKnows r (claimed h) = Unit {0}

  pub record Inv (s : Threads A) : Type 0 where
    pub valid : IsValid s.ring
    pub producing : ProducerKnows s.ring s.producer
    pub consuming : ConsumerKnows s.ring s.consumer

  -- the message that the producer's next step publishes
  unfoldable pub published : Producer A → List (Option A)
  published idle = []
  published (tail_loaded p t) = []
  published (admitted p t) = []
  published (written p t) = p ∷ []

  -- the message at the position that the consumer's next step claims
  unfoldable pub claims : Spsc A → Consumer → List (Option A)
  claims r resting = []
  claims r (head_loaded h) = []
  claims r available = get_or r.buffer (bit_and r.head r.mask) none ∷ []
  claims r (claimed h) = []

  -- The producer's steps leave what the consumer knows true, and the other way round.
  ConsumerKnows-kept :
      (c : Consumer) (r r' : Spsc A)
      → r'.head ≡ r.head
      → used r ≤ used r'
      → ConsumerKnows r c
      → ConsumerKnows r' c
  ConsumerKnows-kept resting r r' h u k = tt
  ConsumerKnows-kept (head_loaded x) r r' h u k = k ∙ sym h
  ConsumerKnows-kept available r r' h u k = omega arith
  ConsumerKnows-kept (claimed x) r r' h u k = tt

  ProducerKnows-popped :
      (p : Producer A) (r : Spsc A)
      → IsValid r
      → 0 < used r
      → ProducerKnows r p
      → ProducerKnows (popped r) p
  unfolding popped
  ProducerKnows-popped idle r v u k = tt
  ProducerKnows-popped (tail_loaded p t) r v u k = k
  ProducerKnows-popped (admitted p t) r v u (e, room) = (e, omega (arith, v.head_word, v.tail_word))
  ProducerKnows-popped (written p t) r v u (e, room, w) =
      (e, omega (arith, v.head_word, v.tail_word), w)

  popped-IsValid : {r : Spsc A} → IsValid r → 0 < used r → IsValid (popped r)
  unfolding popped
  popped-IsValid {r} v u = ground arith

  wrote : Spsc A → ℕ → Option A → Spsc A
  wrote r t p = record r { buffer = set r.buffer (bit_and t r.mask) p }

  wrote-IsValid : {r : Spsc A} (t : ℕ) (p : Option A) → IsValid r → IsValid (wrote r t p)
  unfolding wrote
  wrote-IsValid {r} t p v = ground (arith, length-set r.buffer (bit_and t r.mask) p)

  pub wrote_reads :
      {r : Spsc A} (p : Option A)
      → IsValid r
      → get_or (set r.buffer (bit_and r.tail r.mask) p) (bit_and r.tail r.mask) none ≡ p
  wrote_reads {r} p v = get_or-set_self none r.buffer _ p (
      omega (
        arith,
        slot-eq v r.tail,
        mod-lt r.tail {m = r.capacity} (mask_of_power r.capacity v.power).0,
        v.width,
      ))

  stored-IsValid :
      {r : Spsc A}
      → IsValid r
      → used r < r.capacity
      → IsValid (record r { tail = (r.tail + 1) % 2 ^ 64 })
  stored-IsValid {r} v room = ground (arith, used-step v)

  produce-Inv :
      (next : Option A) (pc : Producer A) (s : Threads A)
      → IsValid s.ring
      → ProducerKnows s.ring pc
      → ConsumerKnows s.ring s.consumer
      → Inv (produce next pc s)
  unfolding produce wrote
  produce-Inv next idle s v k c = record { valid = v; producing = refl; consuming = c }
  produce-Inv next (tail_loaded p t) s v k c =
      elim (Bool-cases (ltb s.ring.capacity (word_sub ((t + 1) % 2 ^ 64) s.ring.head))) [
        | inl full ↦ rw full (record { valid = v; producing = tt; consuming = c })
        | inr room ↦
            rw room
              (record { valid = v; producing = (k, ground (arith, used-step v)); consuming = c })
      ]
  produce-Inv next (admitted p t) s v (e, room) c = record {
    valid = wrote-IsValid t p v;
    producing = (e, room, rw e (wrote_reads p v));
    consuming = ConsumerKnows-kept s.consumer s.ring (wrote s.ring t p) refl (omega arith) c;
  }
  produce-Inv next (written p t) s v (e, room, w) c = record {
    valid = rw e (stored-IsValid v room);
    producing = tt;
    consuming =
        ConsumerKnows-kept s.consumer s.ring (record (s.ring) { tail = (t + 1) % 2 ^ 64 }) refl
          (rw e (omega (arith, used-step v))) c;
  }

  consume-Inv :
      (pc : Consumer) (s : Threads A)
      → IsValid s.ring
      → ProducerKnows s.ring s.producer
      → ConsumerKnows s.ring pc
      → Inv (consume pc s)
  unfolding consume popped
  consume-Inv resting s v k c = record { valid = v; producing = k; consuming = refl }
  consume-Inv (head_loaded h) s v k c = elim (Bool-cases (h == s.ring.tail)) [
    | inl e ↦ rw e (record { valid = v; producing = k; consuming = tt })
    | inr e ↦
        rw e (record {
          valid = v;
          producing = k;
          consuming = ground (arith, v.head_word, v.tail_word);
        })
  ]
  consume-Inv available s v k c = record {
    valid = popped-IsValid v c;
    producing = ProducerKnows-popped s.producer s.ring v c k;
    consuming = tt;
  }
  consume-Inv (claimed h) s v k c = record { valid = v; producing = k; consuming = tt }

  produce-contents :
      (next : Option A) (pc : Producer A) (s : Threads A)
      → IsValid s.ring
      → ProducerKnows s.ring pc
      → contents (produce next pc s).ring ≡ contents s.ring ++ published pc
  unfolding produce published contents
  produce-contents next idle s v k = sym (append-nil _)
  produce-contents next (tail_loaded p t) s v k =
      elim (Bool-cases (ltb s.ring.capacity (word_sub ((t + 1) % 2 ^ 64) s.ring.head))) [
        | inl full ↦ rw (full, append-nil)
        | inr room ↦ rw (room, append-nil)
      ]
  produce-contents next (admitted p t) s v (e, room) =
      rw (e, tail_slot v, append-nil)
        (window-set_behind none s.ring.buffer s.ring.capacity s.ring.head (used s.ring) p room)
  produce-contents next (written p t) s v (e, room, w) =
      rw (e, used-step v, add-one, window-suc, ← tail_slot v, ← e, w)

  consume-contents :
      (pc : Consumer) (s : Threads A)
      → IsValid s.ring
      → ConsumerKnows s.ring pc
      → contents s.ring ≡ claims s.ring pc ++ contents (consume pc s).ring
  unfolding consume claims popped
  consume-contents resting s v k = refl
  consume-contents (head_loaded h) s v k = elim (Bool-cases (h == s.ring.tail)) [
    | inl e ↦ rw e
    | inr e ↦ rw e
  ]
  consume-contents available s v k = contents-popped v (omega (arith, v.head_word, v.tail_word))
  consume-contents (claimed h) s v k = refl

  -- all that is published, and all that is claimed, along a schedule
  unfoldable pub published_by : Move A → Threads A → List (Option A)
  published_by (producer_moves p) s = published s.producer
  published_by consumer_moves s = []

  unfoldable pub claimed_by : Move A → Threads A → List (Option A)
  claimed_by (producer_moves p) s = []
  claimed_by consumer_moves s = claims s.ring s.consumer

  unfoldable pub all_published : List (Move A) → Threads A → List (Option A)
  unfolding published_by published
  all_published [] s = []
  all_published (m ∷ ms) s = published_by m s ++ all_published ms (step m s)

  unfoldable pub all_claimed : List (Move A) → Threads A → List (Option A)
  unfolding claimed_by claims
  all_claimed [] s = []
  all_claimed (m ∷ ms) s = claimed_by m s ++ all_claimed ms (step m s)

  step-Inv : (m : Move A) (s : Threads A) → Inv s → Inv (step m s)
  unfolding step
  step-Inv (producer_moves p) s i = produce-Inv p s.producer s i.valid i.producing i.consuming
  step-Inv consumer_moves s i = consume-Inv s.consumer s i.valid i.producing i.consuming

  step-contents :
      (m : Move A) (s : Threads A)
      → Inv s
      → contents s.ring ++ published_by m s ≡ claimed_by m s ++ contents (step m s).ring
  unfolding step published_by claimed_by
  step-contents (producer_moves p) s i = sym (produce-contents p s.producer s i.valid i.producing)
  step-contents consumer_moves s i =
      append-nil _ ∙ consume-contents s.consumer s i.valid i.consuming

  -- Under every schedule the ring stays valid: it never holds more than its capacity.
  pub run-Inv : (ms : List (Move A)) (s : Threads A) → Inv s → Inv (run ms s)
  unfolding run
  run-Inv [] s i = i
  run-Inv (m ∷ ms) s i = run-Inv ms (step m s) (step-Inv m s i)

  -- Under every schedule the messages claimed, followed by those left in the ring, are those that
  -- were in it, followed by those published: nothing is lost, invented, doubled or reordered.
  pub run_fifo :
      (ms : List (Move A)) (s : Threads A)
      → Inv s
      → contents s.ring ++ all_published ms s ≡ all_claimed ms s ++ contents (run ms s).ring
  unfolding run all_published all_claimed
  run_fifo [] s i = append-nil _
  run_fifo (m ∷ ms) s i =
      sym (append_assoc (contents s.ring) (published_by m s) (all_published ms (step m s)))
      ∙ ap (λ w. w ++ all_published ms (step m s)) (step-contents m s i)
      ∙ append_assoc (claimed_by m s) (contents (step m s).ring) (all_published ms (step m s))
      ∙ ap (λ w. claimed_by m s ++ w) (run_fifo ms (step m s) (step-Inv m s i))
      ∙ sym (append_assoc (claimed_by m s) (all_claimed ms (step m s)) _)
