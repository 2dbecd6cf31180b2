-- ===== src/Queue/Mpmc.antt =====
-- HFT/Queue.hpp, class CustomMPMCLockFreeQueue: a ring of cells, each with a number that says at which
-- position it can be written or read next. The operations here run one after the other.
pub mod Cells
pub mod Steps
pub mod Refine
pub mod Trip
mod Tests
use Prim.Native.Nat.{bit_and}
use git_docs_test.Common.{
  ℕ, zero, suc, ◌+◌, ◌-◌, ◌%◌, ◌^◌, Bool, true, false, ◌||◌, ◌&&◌, not, Option, none, some, List,
  [], ◌∷◌, get_or, set, ltb, leb, ◌==◌, if◌then◌else◌, Result, ok, undefined, throws, ◌>>=◌,
  invalid_capacity,
}
use git_docs_test.Queue.Ring.{word_sub}

pub record Cell {ℓ} (A : Type ℓ) : Type ℓ where
  pub seq : ℕ
  pub data_ptr : Option A

pub record Mpmc {ℓ} (A : Type ℓ) : Type ℓ where
  pub buffer : List (Cell A)
  pub head : ℕ
  pub tail : ℕ
  pub capacity : ℕ
  pub mask : ℕ

-- what the loops use of `diff`
pub data Sign : Type 0 where
  negative null positive : Sign

-- `static_cast<int64_t>(seq) - static_cast<int64_t>(pos)`: a conversion keeps the words below 2^63
-- and takes 2^64 from the others, and a difference outside the range of an `int64_t` is undefined.
unfoldable pub difference : ℕ → ℕ → Result Sign
difference seq pos =
    let x = (seq + 2 ^ 63) % 2 ^ 64 in
    let y = (pos + 2 ^ 63) % 2 ^ 64 in
    if leb (y + 2 ^ 63) x || ltb (x + 2 ^ 63) y
    then undefined
    else ok (if x == y then null else (if ltb x y then negative else positive))

module _ {ℓ} {A : Type ℓ} where
  -- a cell as the vector makes it
  abbrev pub blank : Cell A
  blank = record { seq = 0; data_ptr = none }

  -- `n` cells, numbered from `i` on
  unfoldable pub numbered : ℕ → ℕ → List (Cell A)
  numbered i zero = []
  numbered i (suc n) = record { seq = i; data_ptr = none } ∷ numbered (i + 1) n

  -- The constructor, for any `Const::queueCapacity`.
  unfoldable pub new : ℕ → Result (Mpmc A)
  unfolding numbered
  new capacity =
      let mask = word_sub capacity 1 in
      let q : Mpmc A = record {
        buffer = numbered 0 capacity;
        head = 0;
        tail = 0;
        capacity = capacity;
        mask = mask;
      } in
      if capacity == 0 || not (bit_and capacity mask == 0) then throws invalid_capacity else ok q

  -- the cell of a position
  unfoldable pub cell_at : Mpmc A → ℕ → Cell A
  cell_at q pos = get_or q.buffer (bit_and pos q.mask) blank

  -- The loops, on one Boolean for each round: whether the weak exchange fails in it although the
  -- counter is at `pos`. The position that is claimed, `none` for the early return.
  unfoldable pub claim_tail : List Bool → Mpmc A → ℕ → Result (Option ℕ)
  unfolding cell_at difference
  claim_tail [] q pos = undefined
  claim_tail (fails ∷ rounds) q pos =
      let again = claim_tail rounds q q.tail in
      difference (cell_at q pos).seq pos >>= λ diff. elim diff [
        | null ↦ if pos == q.tail && not fails then ok (some pos) else again
        | negative ↦ ok none
        | positive ↦ again
      ]

  unfoldable pub claim_head : List Bool → Mpmc A → ℕ → Result (Option ℕ)
  unfolding cell_at difference
  claim_head [] q pos = undefined
  claim_head (fails ∷ rounds) q pos =
      let again = claim_head rounds q q.head in
      difference (cell_at q pos).seq ((pos + 1) % 2 ^ 64) >>= λ diff. elim diff [
        | null ↦ if pos == q.head && not fails then ok (some pos) else again
        | negative ↦ ok none
        | positive ↦ again
      ]

  -- What `enqueue` and `dequeue` write after the exchange, the new counter included.
  unfoldable pub publish : Mpmc A → Option A → ℕ → Mpmc A
  publish q ptr pos = record q {
    tail = (pos + 1) % 2 ^ 64;
    buffer =
        set q.buffer (bit_and pos q.mask) (record { seq = (pos + 1) % 2 ^ 64; data_ptr = ptr });
  }

  unfoldable pub release : Mpmc A → ℕ → Mpmc A
  unfolding cell_at
  release q pos = record q {
    head = (pos + 1) % 2 ^ 64;
    buffer =
        set q.buffer (bit_and pos q.mask)
          (record (cell_at q pos) { seq = (pos + q.capacity) % 2 ^ 64 });
  }

  unfoldable pub enqueue : List Bool → Mpmc A → Option A → Result (Bool × Mpmc A)
  unfolding claim_tail publish
  enqueue rounds q ptr = do
    claimed ← claim_tail rounds q q.tail
    ok (elim claimed [ none ↦ (false, q) | some pos ↦ (true, publish q ptr pos) ])

  unfoldable pub dequeue : List Bool → Mpmc A → Result (Option A × Mpmc A)
  unfolding claim_head release cell_at
  dequeue rounds q = do
    claimed ← claim_head rounds q q.head
    ok (elim claimed [ none ↦ (none, q) | some pos ↦ ((cell_at q pos).data_ptr, release q pos) ])
