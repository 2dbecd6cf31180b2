-- ===== src/Pool/LockFree/Tests.antt =====
-- HFT/MemoryPool.hpp: CustomLockFreePool on concrete sequences of calls.
use git_docs_test.Common.{
  ℕ, ◌^◌, ◌<◌, ◌≡◌, refl, true, none, some, [], ◌∷◌, ok, throws, null_message, pool_overflow, arith,
  pos, negsuc, ◌+ℤ◌,
}
use git_docs_test.Pool.Owners.{allocated, Reaches, start, and_then, IsShared}
use git_docs_test.Pool.LockFree
use git_docs_test.Pool.LockFree.{LockFree}
use git_docs_test.Pool.LockFree.Owners.{HasFree, lock_free_pool, lock_free-IsShared}
use git_docs_test.Pool.LockFree.Race.{handed_twice}

small : 2 < 2 ^ 63
small = omega arith

abbrev one_below : LockFree
one_below = record { free_msgs = some 0 ∷ some 1 ∷ []; head = pos 0 }

abbrev all_taken : LockFree
all_taken = record { free_msgs = some 0 ∷ some 1 ∷ []; head = negsuc 0 }

lock_free_call : LockFree.allocate (LockFree.new 2) ≡ ok (some 1, one_below)
unfolding LockFree.to_int64 LockFree.addresses LockFree.new LockFree.slot LockFree.below
    LockFree.allocate
lock_free_call = refl

lock_free_next : LockFree.allocate one_below ≡ ok (some 0, all_taken)
unfolding LockFree.slot LockFree.below LockFree.allocate
lock_free_next = refl

overflow_refused : LockFree.deallocate 2 (LockFree.new 2) (some 0) ≡ throws pool_overflow
unfolding LockFree.to_int64 LockFree.addresses LockFree.new LockFree.deallocate ◌+ℤ◌
overflow_refused = refl

null_refused : LockFree.deallocate 2 one_below none ≡ throws null_message
unfolding LockFree.deallocate
null_refused = refl

lock_free_all : Reaches (lock_free_pool 2 small) (all_taken, 0 ∷ 1 ∷ [])
lock_free_all = and_then (and_then start (allocated lock_free_call)) (allocated lock_free_next)

lock_free-IsShared_example : IsShared (lock_free_pool 2 small) (all_taken, 0 ∷ 1 ∷ [])
lock_free-IsShared_example = lock_free-IsShared small lock_free_all

-- Message 1 is held, message 0 is free.
one_below-HasFree : HasFree 2 one_below (0 ∷ [])
unfolding LockFree.below
one_below-HasFree = record { stacked = (refl, tt); at_head = refl; size = refl }

handed_twice_example :
    (i : ℕ) × (p₁ : LockFree) × (p₂ : LockFree) × (LockFree.load one_below ≡ ok (some (i, some 0)))
    × (LockFree.allocate one_below ≡ ok (some 0, p₁))
    × (LockFree.deallocate 2 p₁ (some 1) ≡ ok p₂)
    × ((LockFree.exchange i p₂).0 ≡ true)
handed_twice_example =
    handed_twice small one_below-HasFree (omega arith) ((λ e. ground (arith, e)), tt) (omega arith)

loaded_once : LockFree.load one_below ≡ ok (some (0, some 0))
unfolding LockFree.load LockFree.slot
loaded_once = refl
