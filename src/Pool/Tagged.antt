-- ===== src/Pool/Tagged.antt =====
-- HFT/MemoryPool.hpp, class LockFreeThreadSafePool: a free list through `nextFree_`, its head an
-- index and a tag in one word. A call runs with no other between its load and its
-- compare_exchange, so that the exchange succeeds at the first try.
pub mod Stack
pub mod Owners
mod Tests
use Prim.Native.Nat.{bit_and, bit_or}
use git_docs_test.Common.{
  ℕ, zero, suc, ◌+◌, ◌-◌, ◌*◌, ◌/◌, ◌%◌, ◌^◌, Option, none, some, List, [], ◌∷◌, get_elem?, set,
  length, ltb, ◌==◌, if◌then◌else◌, Result, ok, throws, undefined, null_message, ◌>>=◌,
}

pub record Tagged : Type 0 where
  pub next_free : List ℕ
  pub head : ℕ

abbrev pub index_mask : ℕ
index_mask = 0xFFFF_FFFF

abbrev pub tag_shift : ℕ
tag_shift = 32

-- `size_t(-1)`
abbrev pub size_max : ℕ
size_max = 2 ^ 64 - 1

unfoldable pub pack : ℕ → ℕ → ℕ
pack index tag = bit_or (tag * 2 ^ tag_shift % 2 ^ 64) (index % 2 ^ 32)

unfoldable pub unpack : ℕ → ℕ × ℕ
unpack packed = (bit_and packed index_mask, packed / 2 ^ tag_shift % 2 ^ 32)

-- `nextFree_[i] = i - 1` for the `n` indices from `i` on
unfoldable pub links : ℕ → ℕ → List ℕ
links zero i = []
links (suc n) i = (i + 2 ^ 64 - 1) % 2 ^ 64 ∷ links n (i + 1)

-- The constructor, for any `Const::poolMsgCount`.
unfoldable pub new : ℕ → Tagged
unfolding links pack
new count = record { next_free = links count 0; head = pack ((count + 2 ^ 64 - 1) % 2 ^ 64) 0 }

-- `nextFree_[i]`
unfoldable pub read : List ℕ → ℕ → Result ℕ
read xs i = elim (get_elem? xs i) [ some x ↦ ok x | none ↦ undefined ]

-- `uint32_t` increment
unfoldable pub next_tag : ℕ → ℕ
next_tag tag = (tag + 1) % 2 ^ 32

unfoldable pub allocate : Tagged → Result (Option ℕ × Tagged)
allocate p =
    let (index, tag) = unpack p.head in
    if index == size_max then ok (none, p) else do
      next_index ← read p.next_free index
      ok (some index, record p { head = pack next_index (next_tag tag) })

unfoldable pub deallocate : Tagged → Option ℕ → Result Tagged
deallocate p none = throws null_message
deallocate p (some index) =
    let (head_index, tag) = unpack p.head in
    if ltb index (length p.next_free)
    then ok
        (record { next_free = set p.next_free index head_index; head = pack index (next_tag tag) })
    else undefined
