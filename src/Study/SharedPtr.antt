-- ===== src/Study/SharedPtr.antt =====
-- Study/weak_ptr_impl.cpp: SharedPtr and WeakPtr over control blocks with two counts. A pointer to a
-- control block is its index among the blocks that were made, and `none` is `nullptr`.
pub mod Cells
pub mod Counts
pub mod Releases
pub mod Program
pub mod Uses
pub mod Sound
mod Tests
use git_docs_test.Common.{
  ℕ, ◌+◌, Bool, true, false, ◌&&◌, ◌||◌, not, Option, none, some, List, [], ◌∷◌, ◌++◌, get_elem?,
  set, length, if◌then◌else◌, Result, ok, undefined, ◌>>=◌, ℤ, pos, ◌+ℤ◌, ◌-ℤ◌, fits_int, eqb_ℤ,
  ltb_ℤ,
}

pub record Block : Type 0 where
  pub ptr : Option ℕ
  pub shared_count : ℤ
  pub weak_count : ℤ

pub record Heap : Type 0 where
  -- a block that was deleted is `none`
  pub blocks : List (Option Block)
  -- the objects that were deleted, the last one first
  pub deleted : List ℕ

-- `++` and `--` of an `int`
unfoldable pub increment : ℤ → Result ℤ
increment count = if fits_int (count +ℤ pos 1) then ok (count +ℤ pos 1) else undefined

unfoldable pub decrement : ℤ → Result ℤ
decrement count = if fits_int (count -ℤ pos 1) then ok (count -ℤ pos 1) else undefined

-- `*control`, which is undefined for a block that was deleted
unfoldable pub block_at : Heap → ℕ → Result Block
block_at heap a = elim (get_elem? heap.blocks a) [
  | none ↦ undefined
  | some cell ↦ elim cell [ none ↦ undefined | some block ↦ ok block ]
]

unfoldable pub write_block : Heap → ℕ → Option Block → Heap
write_block heap a cell = record heap { blocks = set heap.blocks a cell }

-- `delete control->ptr`
unfoldable pub delete_object : Heap → Option ℕ → Heap
delete_object heap none = heap
delete_object heap (some object) = record heap { deleted = object ∷ heap.deleted }

-- `new ControlBlock<T>(ptr)`
unfoldable pub make_block : Heap → Option ℕ → Heap × Option ℕ
make_block heap ptr = (
  record heap {
    blocks =
        heap.blocks ++ (some (record { ptr = ptr; shared_count = pos 1; weak_count = pos 1 }) ∷ []);
  },
  some (length heap.blocks),
)

-- `if (control) control->shared_count++`
unfoldable pub add_shared : Heap → Option ℕ → Result Heap
unfolding block_at increment write_block
add_shared heap none = ok heap
add_shared heap (some a) = block_at heap a >>= λ block. increment block.shared_count >>= λ count.
    ok (write_block heap a (some (record block { shared_count = count })))

-- `if (control) control->weak_count++`
unfoldable pub add_weak : Heap → Option ℕ → Result Heap
unfolding block_at increment write_block
add_weak heap none = ok heap
add_weak heap (some a) = block_at heap a >>= λ block. increment block.weak_count >>= λ count.
    ok (write_block heap a (some (record block { weak_count = count })))

-- What `SharedPtr::release` does when no SharedPtr is left.
unfoldable pub delete_shared : Heap → ℕ → Block → Result Heap
unfolding decrement write_block delete_object
delete_shared heap a block = decrement block.weak_count >>= λ count. ok (
    write_block (delete_object heap block.ptr) a (
      if eqb_ℤ count (pos 0) then none else some (record block { ptr = none; weak_count = count })))

-- `SharedPtr::release`
unfoldable pub release_shared : Heap → Option ℕ → Result Heap
unfolding block_at decrement write_block delete_shared
release_shared heap none = ok heap
release_shared heap (some a) = block_at heap a >>= λ block.
    decrement block.shared_count >>= λ count.
    if eqb_ℤ count (pos 0)
    then delete_shared heap a (record block { shared_count = count })
    else ok (write_block heap a (some (record block { shared_count = count })))

-- `WeakPtr::release`
unfoldable pub release_weak : Heap → Option ℕ → Result Heap
unfolding block_at decrement write_block
release_weak heap none = ok heap
release_weak heap (some a) = block_at heap a >>= λ block. decrement block.weak_count >>= λ count.
    ok (
      write_block heap a (
        if eqb_ℤ block.shared_count (pos 0) && eqb_ℤ count (pos 0)
        then none
        else some (record block { weak_count = count })))

unfoldable pub get : Heap → Option ℕ → Result (Option ℕ)
unfolding block_at
get heap none = ok none
get heap (some a) = block_at heap a >>= λ block. ok block.ptr

unfoldable pub unique : Heap → Option ℕ → Result Bool
unfolding block_at
unique heap none = ok false
unique heap (some a) = block_at heap a >>= λ block. ok (eqb_ℤ block.shared_count (pos 1))

unfoldable pub expired : Heap → Option ℕ → Result Bool
unfolding block_at
expired heap none = ok true
expired heap (some a) = block_at heap a >>= λ block. ok (eqb_ℤ block.shared_count (pos 0))

-- The private constructor of SharedPtr that `lock` calls.
unfoldable pub from_weak : Heap → Option ℕ → Result (Heap × Option ℕ)
from_weak heap none = ok (heap, none)
from_weak heap (some a) = block_at heap a >>= λ block.
    if ltb_ℤ (pos 0) block.shared_count
    then (add_shared heap (some a) >>= λ heap'. ok (heap', some a))
    else ok (heap, none)

unfoldable pub lock : Heap → Option ℕ → Result (Heap × Option ℕ)
lock heap weak = expired heap weak >>= λ gone. if gone then ok (heap, none) else from_weak heap weak
