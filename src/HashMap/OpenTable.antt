-- ===== src/HashMap/OpenTable.antt =====
-- c++20/HashTables.cpp, class OpenAddressingHashTable: the slot of a key is the remainder of its
-- hash. The slots and the loops over them are those of OpenAddressingHashMap.
pub mod Alike
pub mod Agrees
mod Tests
use git_docs_test.Common.{
  ℕ, zero, suc, ◌+◌, ◌-◌, ◌*◌, ◌%◌, ◌^◌, Bool, true, false, Option, none, some, List, [], ◌∷◌,
  length, ◌==◌, if◌then◌else◌, Result, ok, undefined, ◌>>=◌,
}
use git_docs_test.HashMap.Key.{Key, ◌=?◌}
use git_docs_test.HashMap.Load.{Load}
use git_docs_test.HashMap.Probe.{Slot, is_occupied, search, store, value_of, mark_deleted}
use git_docs_test.HashMap.Open.Defs.{fresh}

pub record OpenTable (K V : Type 0) : Type 0 where
  pub table : List (Slot K V)
  pub size : ℕ

module _ {K V : Type 0} ⦃key : Key K⦄ (load : Load) (blank : Slot K V) where
  unfoldable pub new : ℕ → OpenTable K V
  unfolding fresh
  new size = record { table = fresh load blank size; size = 0 }

  -- The remainder by 0 is undefined.
  unfoldable pub get_hash : OpenTable K V → K → Result ℕ
  get_hash t k = if length t.table == 0 then undefined else ok (key.hash k % length t.table)

  -- `index % table_.size()`
  abbrev pub wrap : OpenTable K V → ℕ → ℕ
  wrap t index = index % length t.table

  unfoldable pub locate : OpenTable K V → K → Result (Option ℕ)
  unfolding search get_hash
  locate t k = get_hash t k >>= λ index. search (wrap t) t.table k (length t.table) index index

  unfoldable pub contains : OpenTable K V → K → Result Bool
  unfolding locate
  contains t k = do found ← locate t k; ok (elim found [ none ↦ false | some index ↦ true ])

  unfoldable pub find : OpenTable K V → K → Result (Option V)
  unfolding locate value_of
  find t k = do found ← locate t k; ok (value_of t.table found)

  unfoldable pub remove : OpenTable K V → K → Result (Bool × OpenTable K V)
  unfolding locate mark_deleted
  remove t k = do
    found ← locate t k
    ok (elim found [
      | none ↦ (false, t)
      | some index ↦ (
        true,
        record { table = mark_deleted t.table index; size = (t.size + 2 ^ 64 - 1) % 2 ^ 64 },
      )
    ])

  -- `insert` behind its test of the load
  unfoldable pub put : OpenTable K V → K → V → Result (OpenTable K V)
  unfolding store get_hash
  put t k v = get_hash t k >>= λ index. store (wrap t) t.table k v index >>= λ (added, table).
      ok (record { table = table; size = if added then (t.size + 1) % 2 ^ 64 else t.size })

  -- the loop of `reHash` over the old slots
  unfoldable pub refill :
      (OpenTable K V → K → V → Result (OpenTable K V))
      → List (Slot K V)
      → OpenTable K V
      → Result (OpenTable K V)
  refill insert [] t = ok t
  refill insert (slot ∷ slots) t =
      let skipped = refill insert slots t in
      let inserted = (insert t slot.key slot.value >>= λ t'. refill insert slots t') in
      if is_occupied slot then inserted else skipped

  unfoldable pub rehash :
      (OpenTable K V → K → V → Result (OpenTable K V)) → OpenTable K V → Result (OpenTable K V)
  unfolding refill fresh
  rehash insert t =
      refill insert t.table
        (record { table = fresh load blank (length t.table * 2 % 2 ^ 64); size = 0 })

  -- `insert`, which `reHash` calls, on fuel for the calls within each other
  unfoldable pub insert_in : ℕ → OpenTable K V → K → V → Result (OpenTable K V)
  unfolding put rehash
  insert_in zero t k v = undefined
  insert_in (suc depth) t k v =
      let rehashed = rehash (insert_in depth) t in
      (if load.exceeds (t.size + 1) (length t.table) then rehashed else ok t) >>= λ t'. put t' k v

  unfoldable pub insert : OpenTable K V → K → V → Result (OpenTable K V)
  unfolding insert_in
  insert t k v = insert_in 2 t k v
