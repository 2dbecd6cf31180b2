-- ===== src/HashMap/Open/Defs.antt =====
-- HFT/HashMap.hpp, class OpenAddressingHashMap: the state and the methods. `blank` is a slot as the
-- vector makes it, whose key and value nothing reads.
use Prim.Native.Nat.{bit_and}
use git_docs_test.Common.{
  ℕ, zero, suc, ◌+◌, ◌-◌, ◌*◌, ◌%◌, ◌^◌, Bool, true, false, Option, none, some, List, [], ◌∷◌,
  get_elem?, set, replicate, length, ◌==◌, if◌then◌else◌, Result, ok, throws, undefined, ◌>>=◌,
  map_full,
}
use git_docs_test.HashMap.Key.{Key}
use git_docs_test.HashMap.Load.{Load}
use git_docs_test.HashMap.Probe.{
  empty, occupied, Slot, holds, is_occupied, search, store, value_of, mark_deleted,
}

pub record Open (K V : Type 0) : Type 0 where
  pub table : List (Slot K V)
  pub size : ℕ
  pub mask : ℕ

module _ {K V : Type 0} ⦃key : Key K⦄ (load : Load) (blank : Slot K V) where
  -- a table of slots that are EMPTY
  unfoldable pub fresh : ℕ → List (Slot K V)
  fresh n = replicate n (record blank { status = empty })

  unfoldable pub new : ℕ → Open K V
  unfolding fresh
  new buckets = record { table = fresh buckets; size = 0; mask = (buckets + 2 ^ 64 - 1) % 2 ^ 64 }

  unfoldable pub get_hash : Open K V → K → ℕ
  get_hash m k = bit_and (key.hash k) m.mask

  -- `index & mask_`
  abbrev pub wrap : Open K V → ℕ → ℕ
  wrap m index = bit_and index m.mask

  unfoldable pub locate : Open K V → K → Result (Option ℕ)
  unfolding search get_hash
  locate m k = search (wrap m) m.table k (length m.table) (get_hash m k) (get_hash m k)

  unfoldable pub contains : Open K V → K → Result Bool
  unfolding locate
  contains m k = do found ← locate m k; ok (elim found [ none ↦ false | some index ↦ true ])

  unfoldable pub find : Open K V → K → Result (Option V)
  unfolding locate value_of
  find m k = do found ← locate m k; ok (value_of m.table found)

  unfoldable pub erase : Open K V → K → Result (Bool × Open K V)
  unfolding locate mark_deleted
  erase m k = do
    found ← locate m k
    ok (elim found [
      | none ↦ (false, m)
      | some index ↦ (
        true,
        record m { table = mark_deleted m.table index; size = (m.size + 2 ^ 64 - 1) % 2 ^ 64 },
      )
    ])

  -- `insert` behind its test of the load
  unfoldable pub put : Open K V → K → V → Result (Open K V)
  unfolding store get_hash
  put m k v = do
    (added, table) ← store (wrap m) m.table k v (get_hash m k)
    ok (record m { table = table; size = if added then (m.size + 1) % 2 ^ 64 else m.size })

  -- the loop of `reHash` over the old slots
  unfoldable pub refill :
      (Open K V → K → V → Result (Open K V)) → List (Slot K V) → Open K V → Result (Open K V)
  refill insert [] m = ok m
  refill insert (slot ∷ slots) m =
      let skipped = refill insert slots m in
      let inserted = (insert m slot.key slot.value >>= λ m'. refill insert slots m') in
      if is_occupied slot then inserted else skipped

  unfoldable pub rehash : (Open K V → K → V → Result (Open K V)) → Open K V → Result (Open K V)
  unfolding refill fresh
  rehash insert m =
      let new_size = length m.table * 2 % 2 ^ 64 in
      refill insert m.table
        (record { table = fresh new_size; size = 0; mask = (new_size + 2 ^ 64 - 1) % 2 ^ 64 })

  -- `insert`, which `reHash` calls, on fuel for the calls within each other
  unfoldable pub insert_in : ℕ → Open K V → K → V → Result (Open K V)
  unfolding put rehash
  insert_in zero m k v = undefined
  insert_in (suc depth) m k v =
      let rehashed = rehash (insert_in depth) m in
      do m' ← if load.exceeds (m.size + 1) (length m.table) then rehashed else ok m; put m' k v

  -- A call within a call of `reHash` finds a table that is large enough.
  unfoldable pub insert : Open K V → K → V → Result (Open K V)
  unfolding insert_in
  insert m k v = insert_in 2 m k v

  -- The loop of `operator[]`, on the rounds left: the index at which it stops, and whether a value
  -- is to be added there.
  unfoldable pub settle : Open K V → K → ℕ → ℕ → ℕ → Result (Bool × ℕ)
  settle m k zero original_index index = undefined
  settle m k (suc rounds) original_index index =
      let next = wrap m ((index + 1) % 2 ^ 64) in
      let rest = settle m k rounds original_index next in
      elim (get_elem? m.table index) [
        | none ↦ undefined
        | some slot ↦
            if is_occupied slot
            then (if holds k slot
                then ok (false, index)
                else (if next == original_index then throws map_full else rest))
            else ok (true, index)
      ]

  -- `Value{}` for the key, in a slot that had no element
  unfoldable pub added_at : Open K V → ℕ → K → V → Open K V
  added_at m index k default = record m {
    table = set m.table index (record { key = k; value = default; status = occupied });
    size = (m.size + 1) % 2 ^ 64;
  }

  -- `operator[]`, on fuel for its call of itself: the index of the value.
  unfoldable pub slot_of : ℕ → V → Open K V → K → Result (ℕ × Open K V)
  unfolding settle get_hash insert rehash added_at
  slot_of zero default m k = undefined
  slot_of (suc depth) default m k =
      let again = (rehash insert m >>= λ m'. slot_of depth default m' k) in
      do
        (missing, index) ← settle m k (length m.table) (get_hash m k) (get_hash m k)
        if missing
            then (if load.exceeds (m.size + 1) (length m.table)
                then again
                else ok (index, added_at m index k default))
            else ok (index, m)
