-- ===== src/Pool/LockFree.antt =====
-- HFT/MemoryPool.hpp, class CustomLockFreePool: a vector of message pointers and the atomic index of
-- the last free one. In `allocate` and `deallocate` a call runs with no other between its load
-- and its compare_exchange, so that the exchange succeeds at the first try; the single steps of
-- calls that run at the same time are in LockFree/Race.
pub mod Owners
mod Tests
pub mod Race
use git_docs_test.Common.{
  ℕ, zero, suc, ◌+◌, ◌-◌, ◌%◌, ◌^◌, Option, none, some, List, [], ◌∷◌, get_elem?, set, length, ltb,
  if◌then◌else◌, ℤ, pos, negsuc, ◌+ℤ◌, ltb_ℤ, Result, ok, throws, undefined, null_message,
  pool_overflow, ◌>>=◌, Bool, true, false, eqb_ℤ,
}

pub record LockFree : Type 0 where
  pub free_msgs : List (Option ℕ)
  pub head : ℤ

-- the conversion of a `size_t` to `int64_t`
unfoldable pub to_int64 : ℕ → ℤ
to_int64 n = if ltb n (2 ^ 63) then pos n else negsuc (2 ^ 64 - 1 - n)

-- `freeMsgs_[i] = &pool_[i]` for the `n` indices from `i` on
unfoldable pub addresses : ℕ → ℕ → List (Option ℕ)
addresses zero i = []
addresses (suc n) i = some i ∷ addresses n (i + 1)

-- The constructor, for any `Const::poolMsgCount`.
unfoldable pub new : ℕ → LockFree
unfolding to_int64 addresses
new count = record {
  free_msgs = addresses count 0;
  head = to_int64 ((count + 2 ^ 64 - 1) % 2 ^ 64);
}

-- `freeMsgs_[i]`
unfoldable pub slot : List (Option ℕ) → ℕ → Result (Option ℕ)
slot msgs i = elim (get_elem? msgs i) [ some msg ↦ ok msg | none ↦ undefined ]

-- `freeMsgs_[i] = msg`, where the conversion of a negative `i` to `size_t` is out of bounds
unfoldable pub write_slot : List (Option ℕ) → ℤ → Option ℕ → Result (List (Option ℕ))
write_slot msgs (pos i) msg = if ltb i (length msgs) then ok (set msgs i msg) else undefined
write_slot msgs (negsuc i) msg = undefined

-- the head after a pop at `currentHead`
unfoldable pub below : ℕ → ℤ
below zero = negsuc 0
below (suc i) = pos i

unfoldable pub allocate : LockFree → Result (Option ℕ × LockFree)
allocate p = elim p.head [
  | negsuc _ ↦ ok (none, p)
  | pos i ↦ slot p.free_msgs i >>= λ msg. ok (msg, record p { head = below i })
]

unfoldable pub deallocate : ℕ → LockFree → Option ℕ → Result LockFree
deallocate pool_msg_count p none = throws null_message
deallocate pool_msg_count p (some x) =
    let next_head = p.head +ℤ pos 1 in
    if ltb_ℤ next_head (to_int64 pool_msg_count)
    then write_slot p.free_msgs next_head (some x)
      >>= (λ msgs. ok (record { free_msgs = msgs; head = next_head }))
    else throws pool_overflow

-- The steps that the atomics make visible in `allocate`: the load of `head_` and the read of the
-- slot, and the compare_exchange, which says whether it took place.
unfoldable pub load : LockFree → Result (Option (ℕ × Option ℕ))
load p = elim p.head [
  | negsuc _ ↦ ok none
  | pos i ↦ slot p.free_msgs i >>= λ msg. ok (some (i, msg))
]

unfoldable pub exchange : ℕ → LockFree → Bool × LockFree
exchange seen p =
    if eqb_ℤ p.head (pos seen) then (true, record p { head = below seen }) else (false, p)
