-- ===== src/Pool/LockFree/Owners.antt =====
-- HFT/MemoryPool.hpp, CustomLockFreePool fills the contract of a pool.
use git_docs_test.Common.{
  ℕ, zero, suc, ◌+◌, ◌-◌, ◌%◌, ◌^◌, ◌<◌, ◌≤◌, ◌≡◌, ◌≢◌, ◌∙◌, refl, sym, ap, Option, none, some,
  List, [], ◌∷◌, length, get_elem?, set, length-set, get_elem?-set_self, get_elem?-set_ne, ok,
  Returns, arith, ℤ, pos, ◌+ℤ◌, lt→ltb, ◌>>=◌, ltb_ℤ, true,
}
use git_docs_test.Pool.Contract.{MessagePool, IsAbsent, countdown}
use git_docs_test.Pool.Owners
use git_docs_test.Pool.Owners.{Reaches, IsShared, copies, all_held}
use git_docs_test.Pool.LockFree.{
  LockFree, to_int64, addresses, new, slot, write_slot, below, allocate, deallocate,
}

-- The free messages stand in the slots up to `head`, the last one to be taken first.
abbrev pub Stacked : List (Option ℕ) → List ℕ → Type 0
Stacked msgs [] = Unit {0}
Stacked msgs (x ∷ xs) = (get_elem? msgs (length xs) ≡ some (some x)) × Stacked msgs xs

pub record HasFree (n : ℕ) (p : LockFree) (xs : List ℕ) : Type 0 where
  pub stacked : Stacked p.free_msgs xs
  pub at_head : p.head ≡ below (length xs)
  pub size : length p.free_msgs ≡ n

length-addresses : (n i : ℕ) → length (addresses n i) ≡ n
unfolding addresses
length-addresses zero i = refl
length-addresses (suc n) i = ap suc (length-addresses n (i + 1))

get_elem?-addresses : (n i j : ℕ) → j < n → get_elem? (addresses n i) j ≡ some (some (i + j))
unfolding addresses
get_elem?-addresses zero i j h = absurd (omega arith)
get_elem?-addresses (suc n) i zero h = ap (λ (k : ℕ). some (some k)) (omega arith)
get_elem?-addresses (suc n) i (suc j) h =
    get_elem?-addresses n (i + 1) j (omega arith) ∙ ap (λ (k : ℕ). some (some k)) (omega arith)

length-countdown : (n : ℕ) → length (countdown n) ≡ n
length-countdown zero = refl
length-countdown (suc n) = ap suc (length-countdown n)

addresses-Stacked : (n k : ℕ) → k ≤ n → Stacked (addresses n 0) (countdown k)
addresses-Stacked n zero h = tt
addresses-Stacked n (suc k) h = (
  ap (get_elem? (addresses n 0)) (length-countdown k)
      ∙ get_elem?-addresses n 0 k h
      ∙ ap (λ (j : ℕ). some (some j)) (omega arith),
  addresses-Stacked n k (omega arith),
)

head_of : (n : ℕ) → n < 2 ^ 63 → to_int64 ((n + 2 ^ 64 - 1) % 2 ^ 64) ≡ below n
unfolding to_int64 below
head_of zero h = refl
head_of (suc n) h =
    let last : (suc n + 2 ^ 64 - 1) % 2 ^ 64 ≡ n = omega arith in
    rw last (rw (lt→ltb n (2 ^ 63) (omega arith)) refl)

pub new-HasFree : (n : ℕ) → n < 2 ^ 63 → HasFree n (new n) (countdown n)
unfolding new
new-HasFree n h = record {
  stacked = addresses-Stacked n n (omega arith);
  at_head = head_of n h ∙ ap below (sym (length-countdown n));
  size = length-addresses n 0;
}

pub slot-ok :
    (msgs : List (Option ℕ)) (i : ℕ) (msg : Option ℕ)
    → get_elem? msgs i ≡ some msg
    → slot msgs i ≡ ok msg
unfolding slot
slot-ok msgs i msg h = rw (h, slot) refl

-- `allocate` with the head at a free message
allocate_at :
    (msgs : List (Option ℕ)) (i : ℕ) (msg : Option ℕ)
    → get_elem? msgs i ≡ some msg
    → allocate (record { free_msgs = msgs; head = pos i })
      ≡ ok (msg, record { free_msgs = msgs; head = below i })
unfolding allocate
allocate_at msgs i msg h =
    ap (λ r. r >>= λ m. ok (m, record { free_msgs = msgs; head = below i })) (slot-ok msgs i msg h)

pub pops :
    (n : ℕ) (p : LockFree) (x : ℕ) (xs : List ℕ)
    → HasFree n p (x ∷ xs)
    → Returns (allocate p) λ r. (r.0 ≡ some x) × HasFree n r.1 xs
unfolding below
pops n p x xs h = (
  (some x, record p { head = below (length xs) }),
  ap (λ (z : ℤ). allocate (record p { head = z })) h.at_head
      ∙ allocate_at p.free_msgs (length xs) (some x) h.stacked.0,
  (refl, record { stacked = h.stacked.1; at_head = refl; size = h.size }),
)

pub allocate_exhausted : (n : ℕ) {p : LockFree} → HasFree n p [] → allocate p ≡ ok (none, p)
unfolding allocate below
allocate_exhausted n h = rw h.at_head refl

pub none_free : (n : ℕ) (p p' : LockFree) (x : ℕ) → HasFree n p [] → allocate p ≢ ok (some x, p')
none_free n p p' x h e = cc (allocate_exhausted n h, e)

-- A write behind the free messages leaves them.
Stacked-set :
    (msgs : List (Option ℕ)) (i : ℕ) (m : Option ℕ) (xs : List ℕ)
    → length xs ≤ i
    → Stacked msgs xs
    → Stacked (set msgs i m) xs
Stacked-set msgs i m [] h s = tt
Stacked-set msgs i m (x ∷ xs) h s = (
  get_elem?-set_ne msgs m (λ e. omega (arith, e)) ∙ s.0,
  Stacked-set msgs i m xs (omega arith) s.1,
)

next_of : (k : ℕ) → below k +ℤ pos 1 ≡ pos k
unfolding below ◌+ℤ◌
next_of zero = refl
next_of (suc k) = ground arith

fits : (k n : ℕ) → k < n → n < 2 ^ 63 → ltb_ℤ (pos k) (to_int64 n) ≡ true
unfolding to_int64
fits k n h small = rw (lt→ltb n (2 ^ 63) small) (lt→ltb (k + 0) (n + 0) (omega arith))

pub pushes :
    (n : ℕ)
    → n < 2 ^ 63
    → (p : LockFree) (x : ℕ) (xs : List ℕ) → HasFree n p xs
    → x < n
    → IsAbsent x xs
    → length xs < n
    → Returns (deallocate n p (some x)) λ p'. HasFree n p' (x ∷ xs)
unfolding deallocate below write_slot
pushes n small p x xs h inside absent room =
    let i = length xs in
    let next = ap (λ (z : ℤ). z +ℤ pos 1) h.at_head ∙ next_of i in
    let pushed : LockFree = record { free_msgs = set p.free_msgs i (some x); head = pos i } in
    (
      pushed,
      rw next (
          rw (fits i n room small)
            (rw (lt→ltb i (length p.free_msgs) (omega (arith, h.size))) refl)),
      record {
        stacked = (
          get_elem?-set_self p.free_msgs i (some x) (omega (arith, room, h.size)),
          Stacked-set p.free_msgs i (some x) xs (omega arith) h.stacked,
        );
        at_head = refl;
        size = length-set p.free_msgs i (some x) ∙ h.size;
      },
    )

abbrev pub lock_free_pool : (n : ℕ) → n < 2 ^ 63 → MessagePool n
lock_free_pool n small = record {
  State = LockFree;
  new = new n;
  allocate = allocate;
  deallocate = deallocate n;
  HasFree = HasFree n;
  new-HasFree = new-HasFree n small;
  allocate_pops = pops n;
  allocate_none_free = none_free n;
  deallocate_pushes = pushes n small;
}

-- For fewer than 2^63 messages, in every state that calls of `allocate` and `deallocate` reach from
-- the constructed pool, each call alone and a message only given back by an owner, each of the
-- pool's messages is free once or held once and not both.
pub lock_free-IsShared :
    {n : ℕ} {s : LockFree × List ℕ} (small : n < 2 ^ 63)
    → Reaches (lock_free_pool n small) s
    → IsShared (lock_free_pool n small) s
lock_free-IsShared {n} small r = Owners.reached-IsShared (lock_free_pool n small) r

-- For `n < 2^63` messages, in every state that calls, each alone, reach and in which fewer than
-- `n` are held, `allocate` returns a message of the pool that no one holds.
pub lock_free_fresh :
    {n : ℕ} {s : LockFree × List ℕ} (small : n < 2 ^ 63)
    → Reaches (lock_free_pool n small) s
    → length s.1 < n
    → Returns (allocate s.0) λ r. (x : ℕ) × (r.0 ≡ some x) × (x < n) × (copies x s.1 ≡ 0)
lock_free_fresh {n} small r few = Owners.allocate_fresh (lock_free_pool n small) r few

-- For `n < 2^63` messages, in every state that calls, each alone, reach and in which `n` are held,
-- `allocate` returns a null pointer and changes nothing.
pub lock_free_exhausted :
    {n : ℕ} {s : LockFree × List ℕ} (small : n < 2 ^ 63)
    → Reaches (lock_free_pool n small) s
    → length s.1 ≡ n
    → allocate s.0 ≡ ok (none, s.0)
lock_free_exhausted {n} small r full =
    allocate_exhausted n (all_held (lock_free_pool n small) r full)
