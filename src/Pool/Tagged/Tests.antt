-- ===== src/Pool/Tagged/Tests.antt =====
-- HFT/MemoryPool.hpp: LockFreeThreadSafePool on concrete sequences of calls.
use git_docs_test.Common.{
  ◌+◌, ◌-◌, ◌*◌, ◌^◌, ◌<◌, ◌≡◌, refl, none, some, [], ◌∷◌, ok, throws, undefined, null_message,
  arith,
}
use git_docs_test.Pool.Tagged.{
  Tagged, pack, unpack, links, new, read, next_tag, allocate, deallocate,
}
use git_docs_test.Pool.Owners.{allocated, deallocated, Reaches, start, and_then, IsShared}
use git_docs_test.Pool.Tagged.Owners.{tagged_pool, tagged-IsShared, tagged_overrun}

few : 2 < 2 ^ 32
few = omega arith

-- the pool of two messages after one and after two calls of `allocate`
abbrev one_left : Tagged
one_left = record { next_free = (2 ^ 64 - 1) ∷ 0 ∷ []; head = 2 ^ 32 }

abbrev none_left : Tagged
none_left = record { next_free = (2 ^ 64 - 1) ∷ 0 ∷ []; head = 2 * 2 ^ 32 + (2 ^ 32 - 1) }

first_call : allocate (new 2) ≡ ok (some 1, one_left)
unfolding new links pack unpack read next_tag allocate
first_call = refl

second_call : allocate one_left ≡ ok (some 0, none_left)
unfolding pack unpack read next_tag allocate
second_call = refl

one_held : Reaches (tagged_pool 2 few) (one_left, 1 ∷ [])
one_held = and_then start (allocated first_call)

both_held : Reaches (tagged_pool 2 few) (none_left, 0 ∷ 1 ∷ [])
both_held = and_then one_held (allocated second_call)

abbrev given_back : Tagged
given_back = record { next_free = (2 ^ 64 - 1) ∷ (2 ^ 32 - 1) ∷ []; head = 3 * 2 ^ 32 + 1 }

give_back : deallocate none_left (some 1) ≡ ok given_back
unfolding pack unpack next_tag deallocate
give_back = refl

one_again : Reaches (tagged_pool 2 few) (given_back, 0 ∷ [])
one_again = and_then both_held (deallocated 1 (0 ∷ []) [] give_back)

null_refused : deallocate none_left none ≡ throws null_message
unfolding deallocate
null_refused = refl

tagged-IsShared_example : IsShared (tagged_pool 2 few) (given_back, 0 ∷ [])
tagged-IsShared_example = tagged-IsShared few one_again

tagged_overrun_example : allocate none_left ≡ undefined
tagged_overrun_example = tagged_overrun few both_held refl
