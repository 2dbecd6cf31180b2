-- ===== src/Pool/Locked/Tests.antt =====
-- HFT/MemoryPool.hpp: CustomLockedPool on concrete sequences of calls.
use git_docs_test.Common.{◌≡◌, refl, some, [], ◌∷◌, ok}
use git_docs_test.Pool.Owners.{allocated, Reaches, start, and_then}
use git_docs_test.Pool.Locked
use git_docs_test.Pool.Locked.{Locked}
use git_docs_test.Pool.Locked.Owners.{locked_pool}

abbrev one_on_stack : Locked
one_on_stack = record { free_msgs = some 0 ∷ [] }

locked_call : Locked.allocate (Locked.new 2) ≡ ok (some 1, one_on_stack)
unfolding Locked.push_from Locked.new Locked.allocate
locked_call = refl

locked_one : Reaches (locked_pool 2) (one_on_stack, 1 ∷ [])
locked_one = and_then start (allocated locked_call)

abbrev empty_stack : Locked
empty_stack = record { free_msgs = [] }

locked_next : Locked.allocate one_on_stack ≡ ok (some 0, empty_stack)
unfolding Locked.allocate
locked_next = refl
