-- ===== src/Queue/Spsc/Refine.antt =====
-- The ring of CustomSPSCLockFreeQueue (HFT/Queue.hpp) against the bounded FIFO.
use Prim.Native.Nat.{bit_and}
use git_docs_test.Common.{
  ℕ, zero, suc, ◌+◌, ◌-◌, ◌%◌, ◌^◌, ◌≤◌, ◌<◌, ◌≡◌, refl, sym, ap, ap₂, ◌∙◌, inl, inr, Option, none,
  List, [], ◌∷◌, ◌++◌, arith, length, length-set, length-replicate, get_or, set, replicate, ◌==◌,
  Bool-cases, ok, Returns, throws, invalid_capacity, IsPowerOfTwo, mask_of_power, bit_and-power,
  mod_word, power_half, capacity_accepted, capacity_rejected, ◌≢◌,
}
use native.Mathlib.Numerals.{add-one}
use git_docs_test.Queue.Fifo
use git_docs_test.Queue.Ring.{word_sub, window, length-window, window_congr, window-set}
use git_docs_test.Queue.Spsc.{Spsc, new, enqueue, dequeue}

module _ {ℓ} {A : Type ℓ} where
  -- the messages between `head` and `tail`
  abbrev pub used : Spsc A → ℕ
  used q = word_sub q.tail q.head

  -- the queue that the ring stands for, oldest message first
  unfoldable pub contents : Spsc A → List (Option A)
  contents q = window none q.buffer q.capacity q.head (used q)

  pub record IsValid (q : Spsc A) : Type ℓ where
    pub power : IsPowerOfTwo q.capacity
    pub small : q.capacity < 2 ^ 64
    pub masked : q.mask ≡ q.capacity - 1
    pub width : length q.buffer ≡ q.capacity
    pub head_word : q.head < 2 ^ 64
    pub tail_word : q.tail < 2 ^ 64
    pub bounded : used q ≤ q.capacity

  pub length-contents : (q : Spsc A) → length (contents q) ≡ used q
  unfolding contents
  length-contents q = length-window none q.buffer q.capacity q.head (used q)

  pub slot-eq : {q : Spsc A} → IsValid q → (i : ℕ) → bit_and i q.mask ≡ i % q.capacity
  slot-eq {q} v i = rw v.masked (bit_and-power q.capacity i v.power)

  pub tail_slot : {q : Spsc A} → IsValid q → bit_and q.tail q.mask ≡ (q.head + used q) % q.capacity
  tail_slot {q} v =
      slot-eq v q.tail
      ∙ ap (λ (x : ℕ). x % q.capacity) meet
      ∙ mod_word q.capacity (q.head + used q) v.power v.small
    where
      meet : q.tail ≡ (q.head + used q) % 2 ^ 64
      meet = omega (arith, v.head_word, v.tail_word)

  pub used-step : {q : Spsc A} → IsValid q → word_sub ((q.tail + 1) % 2 ^ 64) q.head ≡ used q + 1
  used-step {q} v = omega (arith, power_half q.capacity v.power v.small, v.bounded)

  pushed : Spsc A → Option A → Spsc A
  pushed q p = record q {
    buffer = set q.buffer (bit_and q.tail q.mask) p;
    tail = (q.tail + 1) % 2 ^ 64;
  }

  contents-pushed :
      {q : Spsc A} (p : Option A)
      → IsValid q
      → used q < q.capacity
      → contents (pushed q p) ≡ contents q ++ (p ∷ [])
  unfolding contents pushed
  contents-pushed {q} p v room =
      rw (used-step v, tail_slot v, add-one)
        (window-set none q.buffer q.capacity q.head (used q) p (omega arith) room)

  -- `enqueue` answers as the bounded FIFO and leaves the ring holding the FIFO's queue.
  pub enqueue_refines :
      {q : Spsc A} (p : Option A)
      → IsValid q
      → let (b, q') = enqueue q p in (b, contents q') ≡ Fifo.enqueue q.capacity (contents q) p
  unfolding enqueue Fifo.enqueue pushed
  enqueue_refines {q} p v = ground (arith, used-step v, length-contents q, contents-pushed p v)

  window-step :
      (buf : List (Option A)) (cap h n : ℕ)
      → n ≢ 0
      → window none buf cap h n ≡ get_or buf (h % cap) none ∷ window none buf cap (h + 1) (n - 1)
  unfolding window
  window-step buf cap h zero p = absurd (p refl)
  window-step buf cap h (suc n) p =
      ap (λ m. get_or buf (h % cap) none ∷ window none buf cap (h + 1) m) (omega arith)

  unfoldable pub popped : Spsc A → Spsc A
  popped q = record q { head = (q.head + 1) % 2 ^ 64 }

  pub contents-popped :
      {q : Spsc A}
      → IsValid q
      → q.head ≢ q.tail
      → contents q ≡ get_or q.buffer (bit_and q.head q.mask) none ∷ contents (popped q)
  unfolding contents popped
  contents-popped {q} v ne =
      window-step q.buffer q.capacity q.head (used q) (omega arith)
      ∙ ap₂ ◌∷◌ (ap (λ i. get_or q.buffer i none) (sym (slot-eq v q.head))) (
          window_congr none q.buffer q.capacity (q.head + 1) ((q.head + 1) % 2 ^ 64) (used q - 1)
            (sym (mod_word q.capacity (q.head + 1) v.power v.small))
          ∙ ap (window none q.buffer q.capacity ((q.head + 1) % 2 ^ 64)) (omega arith))

  contents-empty : {q : Spsc A} → IsValid q → q.head ≡ q.tail → contents q ≡ []
  unfolding contents window
  contents-empty {q} v e =
      ap (window none q.buffer q.capacity q.head) {x = used q} {y = 0} (omega arith)

  -- `dequeue` answers as the FIFO and leaves the ring holding the FIFO's queue.
  pub dequeue_refines :
      {q : Spsc A}
      → IsValid q
      → let (p, q') = dequeue q in (p, contents q') ≡ Fifo.dequeue (contents q)
  unfolding dequeue Fifo.dequeue popped
  dequeue_refines {q} v = elim (Bool-cases (q.head == q.tail)) [
    | inl e ↦ rw (e, contents-empty v (ground arith))
    | inr e ↦ rw (e, contents-popped v (ground arith))
  ]

  pub enqueue-IsValid : {q : Spsc A} (p : Option A) → IsValid q → IsValid (enqueue q p).1
  unfolding enqueue
  enqueue-IsValid {q} p v =
      ground (arith, used-step v, length-set q.buffer (bit_and q.tail q.mask) p)

  pub dequeue-IsValid : {q : Spsc A} → IsValid q → IsValid (dequeue q).1
  unfolding dequeue
  dequeue-IsValid {q} v = ground arith

  fresh : ℕ → Spsc A
  fresh c = record {
    buffer = replicate c none;
    head = 0;
    tail = 0;
    capacity = c;
    mask = word_sub c 1;
  }

  fresh-IsValid : (c : ℕ) → c < 2 ^ 64 → IsPowerOfTwo c → IsValid (fresh c)
  unfolding fresh
  fresh-IsValid c lt pw = record {
    power = pw;
    small = lt;
    masked = omega (arith, (mask_of_power c pw).0);
    width = length-replicate c none;
    head_word = omega arith;
    tail_word = omega arith;
    bounded = omega arith;
  }

  -- A capacity that is a power of two makes a valid ring of that capacity that holds nothing.
  pub spsc_accepts :
      (c : ℕ)
      → c < 2 ^ 64
      → IsPowerOfTwo c
      → Returns (new {A = A} c) λ q. IsValid q × (q.capacity ≡ c) × (contents q ≡ [])
  unfolding new fresh
  spsc_accepts c lt pw = (
    fresh c,
    accepted,
    (fresh-IsValid c lt pw, refl, contents-empty (fresh-IsValid c lt pw) refl),
  )
    where
      accepted : new {A = A} c ≡ ok (fresh c)
      accepted = rw (capacity_accepted c lt pw)

  -- Any other capacity makes the constructor throw.
  pub spsc_rejects :
      (c : ℕ) → c < 2 ^ 64 → ¬ (IsPowerOfTwo c) → new {A = A} c ≡ throws invalid_capacity
  unfolding new
  spsc_rejects c lt np = rw (capacity_rejected c lt np)
