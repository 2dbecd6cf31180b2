-- ===== src/Pool/LockFree/Race.antt =====
-- HFT/MemoryPool.hpp, CustomLockFreePool: the compare_exchange of `allocate` looks at the index
-- alone, so a call does not see that the slot was emptied and filled again in between.
use git_docs_test.Common.{
  sym, subst, Result, throws, undefined, negsuc, ok-injective, some-injective, ℕ, ◌+◌, ◌^◌, ◌<◌,
  ◌≡◌, refl, ap, ◌∙◌, true, Option, some, List, ◌∷◌, length, get_elem?, ok, arith, ℤ, pos, ◌==◌,
  ◌>>=◌,
}
use git_docs_test.Pool.Contract.{IsAbsent}
use git_docs_test.Pool.LockFree.{LockFree, allocate, deallocate, load, exchange, below, slot}
use git_docs_test.Pool.LockFree.Owners.{HasFree, pops, pushes, slot-ok}

eqb_self : (i : ℕ) → ((i + 0) == (i + 0)) ≡ true
eqb_self i = ground arith

abbrev seen_at : ℕ → Option ℕ → Result (Option (ℕ × Option ℕ))
seen_at j m = ok (some (j, m))

-- A call that found the slot's content `r` at the head `j` goes on with that head.
found_at :
    (msgs : List (Option ℕ)) (j i : ℕ) (msg : Option ℕ) (r : Result (Option ℕ))
    → (r >>= seen_at j) ≡ ok (some (i, msg))
    → (r ≡ ok msg) × (j ≡ i)
found_at msgs j i msg (ok m) e =
    let pair = some-injective (ok-injective e) in (ap (λ q. ok q.1) pair, ap (λ q. q.0) pair)
found_at msgs j i msg (throws error) e = cc e
found_at msgs j i msg undefined e = cc e

steps_at :
    (msgs : List (Option ℕ)) (head : ℤ) (i : ℕ) (msg : Option ℕ)
    → load (record { free_msgs = msgs; head = head }) ≡ ok (some (i, msg))
    → (allocate (record { free_msgs = msgs; head = head })
        ≡ ok (msg, (exchange i (record { free_msgs = msgs; head = head })).1))
      × ((exchange i (record { free_msgs = msgs; head = head })).0 ≡ true)
unfolding load allocate exchange
steps_at msgs (negsuc k) i msg e = cc e
steps_at msgs (pos j) i msg e =
    let (content, same) = found_at msgs j i msg (slot msgs j) e in
    let p : LockFree = record { free_msgs = msgs; head = pos j } in
    let taken : allocate p ≡ ok (msg, record p { head = below j }) =
      ap (λ r. r >>= λ m. ok (m, record p { head = below j })) content in
    let swapped : exchange j p ≡ (true, record p { head = below j }) = rw (eqb_self j) refl in
    subst (λ (k : ℕ). (allocate p ≡ ok (msg, (exchange k p).1)) × ((exchange k p).0 ≡ true)) same
      (taken ∙ ap (λ q. ok (msg, q.1)) (sym swapped), ap (λ q. q.0) swapped)

-- If the load of `allocate` read a slot, an exchange that follows at once takes place, and the two
-- make the whole call.
pub allocate_steps :
    (p : LockFree) (i : ℕ) (msg : Option ℕ)
    → load p ≡ ok (some (i, msg))
    → (allocate p ≡ ok (msg, (exchange i p).1)) × ((exchange i p).0 ≡ true)
allocate_steps p i msg e = steps_at p.free_msgs p.head i msg e

load_at :
    (msgs : List (Option ℕ)) (i : ℕ) (msg : Option ℕ)
    → get_elem? msgs i ≡ some msg
    → load (record { free_msgs = msgs; head = pos i }) ≡ ok (some (i, msg))
unfolding load
load_at msgs i msg h = ap (λ r. r >>= λ m. ok (some (i, m))) (slot-ok msgs i msg h)

loaded :
    {n : ℕ} {p : LockFree} {x : ℕ} {xs : List ℕ}
    → HasFree n p (x ∷ xs)
    → load p ≡ ok (some (length xs, some x))
unfolding below
loaded {p} {x} {xs} h =
    ap (λ (z : ℤ). load (record p { head = z })) h.at_head
    ∙ load_at p.free_msgs (length xs) (some x) h.stacked.0

exchanged :
    {n : ℕ} {p : LockFree} {x : ℕ} {xs : List ℕ}
    → HasFree n p (x ∷ xs)
    → (exchange (length xs) p).0 ≡ true
unfolding exchange below
exchanged {xs} h = rw h.at_head (rw (same (length xs + 0)) refl)
  where
    same : (i : ℕ) → (i == i) ≡ true
    same i = ground arith

-- For `n < 2^63` messages and a free list that begins with `x`: after a call of `allocate` has read
-- `x`, another thread can allocate `x` and give back a message of the pool that is not free, and
-- the exchange of the first call then succeeds, so that `x` is handed out twice.
pub handed_twice :
    {n : ℕ} {p : LockFree} {x y : ℕ} {xs : List ℕ}
    → n < 2 ^ 63
    → HasFree n p (x ∷ xs)
    → y < n
    → IsAbsent y (x ∷ xs)
    → length xs < n
    → (i : ℕ) × (p₁ : LockFree) × (p₂ : LockFree) × (load p ≡ ok (some (i, some x)))
      × (allocate p ≡ ok (some x, p₁))
      × (deallocate n p₁ (some y) ≡ ok p₂)
      × ((exchange i p₂).0 ≡ true)
handed_twice {n} {p} {x} {y} {xs} small h inside absent room =
    let (r, taken, (first, rest)) = pops n p x xs h in
    let (p₂, given, pushed) = pushes n small r.1 y xs rest inside absent.1 room in
    let by_other : allocate p ≡ ok (some x, r.1) = taken ∙ ap (λ m. ok (m, r.1)) first in
    (length xs, r.1, p₂, loaded h, by_other, given, exchanged pushed)
