-- ===== src/Pool/Locked/Owners.antt =====
-- HFT/MemoryPool.hpp, CustomLockedPool fills the contract of a pool.
use git_docs_test.Common.{
  ℕ, zero, suc, ◌+◌, ◌<◌, ◌≡◌, ◌≢◌, ◌∙◌, refl, ap, some, List, [], ◌∷◌, map, length, ok, throws,
  no_free_messages, Returns, arith,
}
use git_docs_test.Pool.Contract.{MessagePool, IsAbsent, countdown}
use git_docs_test.Pool.Owners
use git_docs_test.Pool.Owners.{Reaches, IsShared, copies, all_held}
use git_docs_test.Pool.Locked.{Locked, push_from, new, allocate, deallocate}

abbrev pub Free : Locked → List ℕ → Type 0
Free p xs = p.free_msgs ≡ map some xs

pub pushed_from : (n i : ℕ) → push_from n i (map some (countdown i)) ≡ map some (countdown (i + n))
unfolding push_from
pushed_from zero i = ap (λ (k : ℕ). map some (countdown k)) (omega arith)
pushed_from (suc n) i =
    let msgs = some i ∷ map some (countdown i) in
    ap (λ (k : ℕ). push_from n k msgs) (omega arith)
    ∙ pushed_from n (suc i)
    ∙ ap (λ (k : ℕ). map some (countdown k)) (omega arith)

pub new-Free : (n : ℕ) → Free (new n) (countdown n)
unfolding new
new-Free n = pushed_from n 0 ∙ ap (λ (k : ℕ). map some (countdown k)) (omega arith)

pub pops :
    (p : Locked) (x : ℕ) (xs : List ℕ)
    → Free p (x ∷ xs)
    → Returns (allocate p) λ r. (r.0 ≡ some x) × Free r.1 xs
unfolding allocate
pops p x xs h = ((some x, record { free_msgs = map some xs }), rw h refl, (refl, refl))

pub allocate_exhausted : {p : Locked} → Free p [] → allocate p ≡ throws no_free_messages
unfolding allocate
allocate_exhausted h = rw h refl

pub none-Free : (p p' : Locked) (x : ℕ) → Free p [] → allocate p ≢ ok (some x, p')
none-Free p p' x h e = cc (allocate_exhausted h, e)

pub pushes :
    (n : ℕ) (p : Locked) (x : ℕ) (xs : List ℕ)
    → Free p xs
    → x < n
    → IsAbsent x xs
    → length xs < n
    → Returns (deallocate p (some x)) λ p'. Free p' (x ∷ xs)
unfolding deallocate
pushes n p x xs h inside absent room =
    (record { free_msgs = some x ∷ p.free_msgs }, refl, ap (λ ms. some x ∷ ms) h)

abbrev pub locked_pool : (n : ℕ) → MessagePool n
locked_pool n = record {
  State = Locked;
  new = new n;
  allocate = allocate;
  deallocate = deallocate;
  HasFree = Free;
  new-HasFree = new-Free n;
  allocate_pops = pops;
  allocate_none_free = none-Free;
  deallocate_pushes = pushes n;
}

-- In every state that calls of `allocate` and `deallocate` reach from the constructed pool, where
-- a message is only given back by an owner, each of the pool's messages is free once or held once
-- and not both.
pub locked-IsShared :
    {n : ℕ} {s : Locked × List ℕ} → Reaches (locked_pool n) s → IsShared (locked_pool n) s
locked-IsShared {n} r = Owners.reached-IsShared (locked_pool n) r

-- In every reached state of a pool of `n` messages in which fewer than `n` are held, `allocate`
-- returns a message of the pool that no one holds.
pub locked_fresh :
    {n : ℕ} {s : Locked × List ℕ}
    → Reaches (locked_pool n) s
    → length s.1 < n
    → Returns (allocate s.0) λ r. (x : ℕ) × (r.0 ≡ some x) × (x < n) × (copies x s.1 ≡ 0)
locked_fresh {n} r few = Owners.allocate_fresh (locked_pool n) r few

-- In every reached state of a pool of `n` messages in which `n` are held, `allocate` throws "No
-- free messages available in the pool".
pub locked_exhausted :
    {n : ℕ} {s : Locked × List ℕ}
    → Reaches (locked_pool n) s
    → length s.1 ≡ n
    → allocate s.0 ≡ throws no_free_messages
locked_exhausted {n} r full = allocate_exhausted (all_held (locked_pool n) r full)
