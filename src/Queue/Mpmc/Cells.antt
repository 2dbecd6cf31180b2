-- ===== src/Queue/Mpmc/Cells.antt =====
-- The numbers of the cells of CustomMPMCLockFreeQueue (HFT/Queue.hpp), and the loops over them.
use Prim.Native.Nat.{bit_and}
use git_docs_test.Common.{
  ℕ, ◌+◌, ◌-◌, ◌*◌, ◌%◌, ◌^◌, ◌≤◌, ◌<◌, ◌≡◌, refl, sym, ap, ◌∙◌, Bool, true, false, ◌||◌, not, none,
  some, List, [], ◌∷◌, length, get_or, ok, IsPowerOfTwo, bit_and-power, arith,
}
use native.Mathlib.Nat.{mul-add-mod_self_left}
use git_docs_test.Queue.Mpmc.{
  Mpmc, negative, null, blank, difference, cell_at, claim_tail, claim_head,
}

shifted : (x : ℕ) → x < 2 ^ 63 → (x + 2 ^ 63) % 2 ^ 64 ≡ x + 2 ^ 63
shifted x lt = omega arith

pub difference-same : (x : ℕ) → x < 2 ^ 63 → difference x x ≡ ok null
unfolding difference
difference-same x lt = rw (shifted x lt) (ground arith)

pub difference-less : (x y : ℕ) → x < y → y < 2 ^ 63 → difference x y ≡ ok negative
unfolding difference
difference-less x y less lt = rw (shifted x (omega arith), shifted y lt) (ground arith)

pub next_word : (x : ℕ) → x < 2 ^ 63 → (x + 1) % 2 ^ 64 ≡ x + 1
next_word x lt = omega arith

-- A position a capacity further on has the same slot.
pub slot_next : (cap p : ℕ) → (p + cap) % cap ≡ p % cap
slot_next n p =
    ap (λ (x : ℕ). x % n) {x = p + n} {y = n * 1 + p} (omega arith) ∙ mul-add-mod_self_left n 1 p

-- In some round the exchange does not fail without a reason.
unfoldable pub exchanges : List Bool → Bool
exchanges [] = false
exchanges (fails ∷ rounds) = not fails || exchanges rounds

module _ {ℓ} {A : Type ℓ} where
  -- A queue of at least two cells: those of the positions from `head` to `tail` are numbered to be
  -- read, the others to be written, at their next position.
  pub record IsValid (q : Mpmc A) : Type ℓ where
    pub power : IsPowerOfTwo q.capacity
    pub small : q.capacity < 2 ^ 64
    pub several : 2 ≤ q.capacity
    pub masked : q.mask ≡ q.capacity - 1
    pub width : length q.buffer ≡ q.capacity
    pub ordered : q.head ≤ q.tail
    pub bounded : q.tail ≤ q.head + q.capacity
    pub filled : (p : ℕ) → q.head ≤ p → p < q.tail → (cell_at q p).seq ≡ p + 1
    pub vacant : (p : ℕ) → q.tail ≤ p → p < q.head + q.capacity → (cell_at q p).seq ≡ p

  module _ {q : Mpmc A} (v : IsValid q) where
    pub slot-eq : (p : ℕ) → bit_and p q.mask ≡ p % q.capacity
    slot-eq p = rw v.masked (bit_and-power q.capacity p v.power)

    pub cell_at_lem : (p : ℕ) → cell_at q p ≡ get_or q.buffer (p % q.capacity) blank
    unfolding cell_at
    cell_at_lem p = ap (λ i. get_or q.buffer i blank) (slot-eq p)

    -- A position a capacity further on has the same cell.
    pub cell_at-next : (p : ℕ) → cell_at q (p + q.capacity) ≡ cell_at q p
    cell_at-next p =
        cell_at_lem (p + q.capacity)
        ∙ ap (λ i. get_or q.buffer i blank) (slot_next q.capacity p)
        ∙ sym (cell_at_lem p)

    pub claims_tail :
        (rounds : List Bool)
        → q.tail < q.head + q.capacity
        → q.tail < 2 ^ 63
        → exchanges rounds ≡ true
        → claim_tail rounds q q.tail ≡ ok (some q.tail)
    unfolding claim_tail exchanges
    claims_tail [] room small e = cc
    claims_tail (true ∷ rounds) room small e =
        rw (v.vacant q.tail (omega arith) room, difference-same q.tail small)
          (ground (arith, claims_tail rounds room small e))
    claims_tail (false ∷ rounds) room small e =
        rw (v.vacant q.tail (omega arith) room, difference-same q.tail small) (ground arith)

    pub claims_head :
        (rounds : List Bool)
        → q.head < q.tail
        → q.tail < 2 ^ 63
        → exchanges rounds ≡ true
        → claim_head rounds q q.head ≡ ok (some q.head)
    unfolding claim_head exchanges
    claims_head [] more small e = cc
    claims_head (true ∷ rounds) more small e =
        rw
          (
            v.filled q.head (omega arith) more,
            next_word q.head (omega arith),
            difference-same (q.head + 1) (omega arith),
          )
          (ground (arith, claims_head rounds more small e))
    claims_head (false ∷ rounds) more small e =
        rw
          (
            v.filled q.head (omega arith) more,
            next_word q.head (omega arith),
            difference-same (q.head + 1) (omega arith),
          )
          (ground arith)

    -- In a full queue the cell at the tail still has the number of the oldest message.
    pub refuses_tail :
        (rounds : List Bool)
        → q.tail ≡ q.head + q.capacity
        → q.tail < 2 ^ 63
        → exchanges rounds ≡ true
        → claim_tail rounds q q.tail ≡ ok none
    unfolding claim_tail exchanges
    refuses_tail [] full small e = cc
    refuses_tail (fails ∷ rounds) full small e =
        rw (oldest, difference-less (q.head + 1) q.tail (omega (arith, v.several)) small) refl
      where
        oldest : (cell_at q q.tail).seq ≡ q.head + 1
        oldest =
            ap (λ p. (cell_at q p).seq) full
            ∙ ap (λ c. c.seq) (cell_at-next q.head)
            ∙ v.filled q.head (omega arith) (omega (arith, v.several))

    pub refuses_head :
        (rounds : List Bool)
        → q.head ≡ q.tail
        → q.tail < 2 ^ 63 - 1
        → exchanges rounds ≡ true
        → claim_head rounds q q.head ≡ ok none
    unfolding claim_head exchanges
    refuses_head [] none_left small e = cc
    refuses_head (fails ∷ rounds) none_left small e =
        rw
          (
            v.vacant q.head (omega arith) (omega (arith, v.several)),
            next_word q.head (omega arith),
            difference-less q.head (q.head + 1) (omega arith) (omega arith),
          )
          refl
