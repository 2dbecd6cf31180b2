-- ===== src/Pool/Tagged/Owners.antt =====
-- HFT/MemoryPool.hpp, LockFreeThreadSafePool fills the contract of a pool.
use git_docs_test.Common.{
  ℕ, ◌^◌, ◌<◌, ◌≡◌, ◌≢◌, ◌∙◌, some, List, [], ◌∷◌, length, ok, undefined, Returns, arith,
}
use git_docs_test.Pool.Contract.{MessagePool, IsAbsent}
use git_docs_test.Pool.Owners
use git_docs_test.Pool.Owners.{Reaches, IsShared, copies, all_held}
use git_docs_test.Pool.Tagged.{Tagged, new, allocate, deallocate}
use git_docs_test.Pool.Tagged.Stack.{
  HasFree, new-HasFree, allocate_pops, deallocate_pushes, allocate_exhausted, length-links,
}

abbrev pub Free : ℕ → Tagged → List ℕ → Type 0
Free n p xs = HasFree p xs × (length p.next_free ≡ n)

pub length-new : (n : ℕ) → length (new n).next_free ≡ n
unfolding new
length-new n = length-links n 0

pub pops :
    (n : ℕ) (p : Tagged) (x : ℕ) (xs : List ℕ)
    → Free n p (x ∷ xs)
    → Returns (allocate p) λ r. (r.0 ≡ some x) × Free n r.1 xs
pops n p x xs (h, size) =
    let (r, returned, (took, rest, same)) = allocate_pops x xs h in
    (r, returned, (took, (rest, same ∙ size)))

pub pushes :
    (n : ℕ) (p : Tagged) (x : ℕ) (xs : List ℕ)
    → Free n p xs
    → x < n
    → IsAbsent x xs
    → length xs < n
    → Returns (deallocate p (some x)) λ p'. Free n p' (x ∷ xs)
pushes n p x xs (h, size) inside absent room =
    let (r, returned, (pushed, same)) = deallocate_pushes x xs h (omega arith) absent in
    (r, returned, (pushed, same ∙ size))

pub none-Free : (n : ℕ) (p p' : Tagged) (x : ℕ) → Free n p [] → allocate p ≢ ok (some x, p')
none-Free n p p' x (h, size) e = cc (allocate_exhausted h, e)

abbrev pub tagged_pool : (n : ℕ) → n < 2 ^ 32 → MessagePool n
tagged_pool n h = record {
  State = Tagged;
  new = new n;
  allocate = allocate;
  deallocate = deallocate;
  HasFree = Free n;
  new-HasFree = (new-HasFree n h, length-new n);
  allocate_pops = pops n;
  allocate_none_free = none-Free n;
  deallocate_pushes = pushes n;
}

-- For fewer than 2^32 messages, in every state that calls of `allocate` and `deallocate` reach from
-- the constructed pool, where a message is only given back by an owner, each of the pool's
-- messages is free once or held once and not both.
pub tagged-IsShared :
    {n : ℕ} {s : Tagged × List ℕ} (h : n < 2 ^ 32)
    → Reaches (tagged_pool n h) s
    → IsShared (tagged_pool n h) s
tagged-IsShared {n} h r = Owners.reached-IsShared (tagged_pool n h) r

-- For `n < 2^32` messages, in every reached state in which fewer than `n` are held, `allocate`
-- returns a message of the pool that no one holds.
pub tagged_fresh :
    {n : ℕ} {s : Tagged × List ℕ} (h : n < 2 ^ 32)
    → Reaches (tagged_pool n h) s
    → length s.1 < n
    → Returns (allocate s.0) λ r. (x : ℕ) × (r.0 ≡ some x) × (x < n) × (copies x s.1 ≡ 0)
tagged_fresh {n} h r few = Owners.allocate_fresh (tagged_pool n h) r few

-- For `n < 2^32` messages, in every reached state in which `n` are held, `allocate` is undefined:
-- it reads `nextFree_` out of bounds.
pub tagged_overrun :
    {n : ℕ} {s : Tagged × List ℕ} (h : n < 2 ^ 32)
    → Reaches (tagged_pool n h) s
    → length s.1 ≡ n
    → allocate s.0 ≡ undefined
tagged_overrun {n} h r full = allocate_exhausted (all_held (tagged_pool n h) r full).0
