-- ===== src/Queue/Mpmc/Steps.antt =====
-- CustomMPMCLockFreeQueue (HFT/Queue.hpp): what is written after an exchange, on a queue in order.
use Prim.Native.Nat.{bit_and}
use git_docs_test.Common.{
  ℕ, suc, ◌+◌, ◌-◌, ◌%◌, ◌^◌, ◌<◌, ◌≡◌, ◌≢◌, refl, sym, ap, ◌∙◌, Option, List, [], ◌∷◌, ◌++◌, map,
  length, length-map, length-set, get_or, set, arith,
}
use mathlib.Core.List.{map-append}
use native.Mathlib.Nat.{mod-lt}
use native.Mathlib.Decide.{dec_lt}
use git_docs_test.Queue.Ring.{
  window, length-window, window_keep, window-set, slot-ne, get_or-set_ne', get_or-set_self,
}
use git_docs_test.Queue.Mpmc.{Cell, Mpmc, blank, cell_at, publish, release}
use git_docs_test.Queue.Mpmc.Cells.{IsValid, slot-eq, cell_at_lem, slot_next, next_word}

-- Different positions less than a capacity apart have different cells.
apart : (n p r : ℕ) → p < r → r < p + n → r % n ≢ p % n
apart n p r less near e =
    slot-ne {A = ℕ} 0 n p (r - p) (omega arith) (omega arith)
      (ap (λ (x : ℕ). x % n) {x = p + (r - p)} {y = r} (omega arith) ∙ e)

module _ {ℓ} {A : Type ℓ} where
  -- the queue that the ring stands for, oldest message first
  unfoldable pub contents : Mpmc A → List (Option A)
  contents q = map (λ c. c.data_ptr) (window blank q.buffer q.capacity q.head (q.tail - q.head))

  -- the queue with another cell for a position
  abbrev pub rewritten : Mpmc A → ℕ → Cell A → Mpmc A
  rewritten q pos c = record q { buffer = set q.buffer (bit_and pos q.mask) c }

  module _ {q : Mpmc A} (v : IsValid q) (pos : ℕ) (c : Cell A) where
    in_range : pos % q.capacity < length q.buffer
    in_range =
        omega (arith, v.width, v.several, mod-lt pos {m = q.capacity} (omega (arith, v.several)))

    cell_at-rewritten : cell_at (rewritten q pos c) pos ≡ c
    unfolding cell_at
    cell_at-rewritten =
        rw (slot-eq v pos) (get_or-set_self blank q.buffer (pos % q.capacity) c in_range)

    cell_at-rewritten_other :
        (p : ℕ) → pos % q.capacity ≢ p % q.capacity → cell_at (rewritten q pos c) p ≡ cell_at q p
    unfolding cell_at
    cell_at-rewritten_other p ne =
        rw (slot-eq v pos, slot-eq v p)
          (get_or-set_ne' blank q.buffer (pos % q.capacity) (p % q.capacity) c ne)

    cell_at-rewritten_next : cell_at (rewritten q pos c) (pos + q.capacity) ≡ c
    unfolding cell_at
    cell_at-rewritten_next =
        rw (slot-eq v (pos + q.capacity), slot_next q.capacity pos, sym (slot-eq v pos))
          cell_at-rewritten

  abbrev pub published : Mpmc A → Option A → Mpmc A
  published q ptr = record (rewritten q q.tail (record { seq = q.tail + 1; data_ptr = ptr })) {
    tail = q.tail + 1;
  }

  pub publish_lem :
      (q : Mpmc A) (ptr : Option A) → q.tail < 2 ^ 63 → publish q ptr q.tail ≡ published q ptr
  unfolding publish
  publish_lem q ptr small = rw (next_word q.tail small) refl

  pub published-IsValid :
      {q : Mpmc A} (ptr : Option A)
      → IsValid q
      → q.tail < q.head + q.capacity
      → IsValid (published q ptr)
  unfolding cell_at
  published-IsValid {q} ptr v room = record {
    power = v.power;
    small = v.small;
    several = v.several;
    masked = v.masked;
    width = length-set q.buffer (bit_and q.tail q.mask) _ ∙ v.width;
    ordered = omega (arith, v.ordered);
    bounded = omega arith;
    filled = λ p lo hi. elim (dec_lt p q.tail) [
      | yes before ↦
          ap (λ c. c.seq)
            (cell_at-rewritten_other v q.tail _ p
              (apart q.capacity p q.tail before (omega (arith, v.bounded))))
          ∙ v.filled p lo before
      | no here ↦
          let same : p ≡ q.tail = omega arith in
          rw same (
            ap (λ c. c.seq)
              (cell_at-rewritten v q.tail (record { seq = q.tail + 1; data_ptr = ptr })))
    ];
    vacant = λ p lo hi.
        ap (λ c. c.seq)
          (cell_at-rewritten_other v q.tail _ p
            (λ e. apart q.capacity q.tail p (omega arith) (omega (arith, v.ordered)) (sym e)))
        ∙ v.vacant p (omega arith) hi;
  }

  pub contents-published :
      {q : Mpmc A} (ptr : Option A)
      → IsValid q
      → q.tail < q.head + q.capacity
      → contents (published q ptr) ≡ contents q ++ (ptr ∷ [])
  unfolding contents
  contents-published {q} ptr v room = rw (slot-eq v q.tail) (
      ap (λ w. map (λ c. c.data_ptr) w)
        (ap (window blank _ q.capacity q.head) {x = q.tail + 1 - q.head} {y = suc (q.tail - q.head)}
            (omega (arith, v.ordered))
          ∙ ap
              (λ (i : ℕ).
                window blank
                  (set q.buffer (i % q.capacity) (record { seq = q.tail + 1; data_ptr = ptr }))
                  q.capacity q.head (suc (q.tail - q.head)))
              {x = q.tail} {y = q.head + (q.tail - q.head)} (omega (arith, v.ordered))
          ∙ window-set blank q.buffer q.capacity q.head (q.tail - q.head) _ (omega (arith, v.width))
              (omega (arith, v.ordered)))
      ∙ map-append (λ c. c.data_ptr) (window blank q.buffer q.capacity q.head (q.tail - q.head))
          (record { seq = q.tail + 1; data_ptr = ptr } ∷ []))

  abbrev pub released : Mpmc A → Mpmc A
  released q =
      record (rewritten q q.head (record (cell_at q q.head) { seq = q.head + q.capacity })) {
        head = q.head + 1;
      }

  pub release_lem :
      (q : Mpmc A) → q.head < 2 ^ 63 → q.head + q.capacity < 2 ^ 64 → release q q.head ≡ released q
  unfolding release
  release_lem q small fits =
      let wraps : (q.head + q.capacity) % 2 ^ 64 ≡ q.head + q.capacity = omega arith in
      rw (next_word q.head small, wraps) refl

  pub released-IsValid : {q : Mpmc A} → IsValid q → q.head < q.tail → IsValid (released q)
  unfolding cell_at
  released-IsValid {q} v more = record {
    power = v.power;
    small = v.small;
    several = v.several;
    masked = v.masked;
    width = length-set q.buffer (bit_and q.head q.mask) _ ∙ v.width;
    ordered = omega arith;
    bounded = omega (arith, v.bounded);
    filled = λ p lo hi.
        ap (λ c. c.seq)
          (cell_at-rewritten_other v q.head _ p
            (λ e. apart q.capacity q.head p (omega arith) (omega (arith, v.bounded)) (sym e)))
        ∙ v.filled p (omega arith) hi;
    vacant = λ p lo hi. elim (dec_lt p (q.head + q.capacity)) [
      | yes before ↦
          ap (λ c. c.seq)
            (cell_at-rewritten_other v q.head _ p
              (λ e. apart q.capacity q.head p (omega arith) before (sym e)))
          ∙ v.vacant p lo before
      | no here ↦
          let same : p ≡ q.head + q.capacity = omega arith in
          rw same (
            ap (λ c. c.seq)
              (cell_at-rewritten_next v q.head
                (record (cell_at q q.head) { seq = q.head + q.capacity })))
    ];
  }

  pub contents-released :
      {q : Mpmc A}
      → IsValid q
      → q.head < q.tail
      → contents q ≡ (cell_at q q.head).data_ptr ∷ contents (released q)
  unfolding contents window
  contents-released {q} v more =
      rw (slot-eq v q.head, cell_at_lem v q.head)
        (ap (λ n. map (λ c. c.data_ptr) (window blank q.buffer q.capacity q.head n))
            {x = q.tail - q.head} {y = suc (q.tail - (q.head + 1))} (omega arith)
          ∙ ap
              (λ w.
                (get_or q.buffer (q.head % q.capacity) blank).data_ptr ∷ map (λ c. c.data_ptr) w)
              (sym (
                window_keep blank q.buffer q.capacity (q.head + 1) (q.head % q.capacity)
                  (q.tail - (q.head + 1)) _
                  (λ j lt e.
                    apart q.capacity q.head (q.head + 1 + j) (omega arith)
                      (omega (arith, v.bounded)) (sym e)))))

  pub contents-empty : (q : Mpmc A) → q.head ≡ q.tail → contents q ≡ []
  unfolding contents window
  contents-empty q e =
      ap (λ n. map (λ c. c.data_ptr) (window blank q.buffer q.capacity q.head n))
        {x = q.tail - q.head} {y = 0} (omega arith)

  pub length-contents : (q : Mpmc A) → length (contents q) ≡ q.tail - q.head
  unfolding contents
  length-contents q =
      length-map (window blank q.buffer q.capacity q.head (q.tail - q.head)) (λ c. c.data_ptr)
      ∙ length-window blank q.buffer q.capacity q.head (q.tail - q.head)
