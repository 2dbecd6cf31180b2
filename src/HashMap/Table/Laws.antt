-- ===== src/HashMap/Table/Laws.antt =====
-- c++20/HashTables.cpp, class ChainingHashTable: what `find` returns after `insert`.
use native.Mathlib.Nat.{mod-lt}
use git_docs_test.Common.{
  ℕ, ◌%◌, ◌<◌, ◌≡◌, refl, ap, ◌∙◌, true, false, some, [], length, length-set, get_or, get_or-set,
  set, ◌==◌, if◌then◌else◌, ok, Returns, arith,
}
use git_docs_test.HashMap.Key.{Key, ◌=?◌}
use git_docs_test.HashMap.Chaining.{find_in, write_in}
use git_docs_test.HashMap.Chaining.Buckets.{find_in-write_in}
use git_docs_test.HashMap.Table.{Table, index, insert, find}

module _ {K V : Type 0} ⦃key : Key K⦄ where
  unfoldable slot : Table K V → K → ℕ
  slot table k = key.hash k % length table

  index_lem : (table : Table K V) (k : K) → 0 < length table → index table k ≡ ok (slot table k)
  unfolding index slot
  index_lem table k h =
      let some_bucket : (length table == 0) ≡ false = ground arith in rw some_bucket refl

  find_lem :
      (table : Table K V) (k : K)
      → 0 < length table
      → find table k ≡ ok (find_in k (get_or table (slot table k) []))
  unfolding find
  find_lem table k h = rw (index_lem table k h) refl

  unfoldable written : Table K V → K → V → Table K V
  written table k v = set table (slot table k) (write_in k v (get_or table (slot table k) []))

  insert_lem :
      (table : Table K V) (k : K) (v : V)
      → 0 < length table
      → insert table k v ≡ ok (written table k v)
  unfolding insert written
  insert_lem table k v h = rw (index_lem table k h) refl

  slot-lt : (table : Table K V) (k : K) → 0 < length table → slot table k < length table
  unfolding slot
  slot-lt table k h = mod-lt (key.hash k) h

  slot_congr : (table : Table K V) (k q : K) → (k =? q) ≡ true → slot table k ≡ slot table q
  slot_congr table k q e = ap (slot table) ((key.equal_iff k q).0 e)

  slot-written : (table : Table K V) (k q : K) (v : V) → slot (written table k v) q ≡ slot table q
  unfolding slot written
  slot-written table k q v = rw length-set refl

  bucket_written :
      (table : Table K V) (k q : K) (v : V)
      → 0 < length table
      → get_or (written table k v) (slot table q) [] ≡ (
          if slot table k == slot table q
          then write_in k v (get_or table (slot table k) [])
          else get_or table (slot table q) [])
  unfolding written
  bucket_written table k q v h =
      get_or-set table (slot table k) (slot table q) (write_in k v (get_or table (slot table k) []))
        [] (slot-lt table k h)

  found_written :
      (table : Table K V) (k q : K) (v : V)
      → 0 < length table
      → find_in q (get_or (written table k v) (slot table q) [])
        ≡ (if k =? q then some v else find_in q (get_or table (slot table q) []))
  found_written table k q v h = ground (
    arith,
    ap (find_in q) (bucket_written table k q v h),
    find_in-write_in k q v (get_or table (slot table k) []),
    slot_congr table k q,
    λ (e : slot table k ≡ slot table q). ap (λ i. find_in q (get_or table i [])) e,
  )

  length-written : (table : Table K V) (k : K) (v : V) → length (written table k v) ≡ length table
  unfolding written
  length-written table k v =
      length-set table (slot table k) (write_in k v (get_or table (slot table k) []))

  -- On a ChainingHashTable with at least one bucket, `insert` returns a table in which the key has
  -- the value and the other keys have what they had.
  pub find-insert_table :
      (table : Table K V) (k : K) (v : V)
      → 0 < length table
      → Returns
          (insert table k v)
          (λ t. (q : K) → find t q ≡ (if k =? q then ok (some v) else find table q))
  find-insert_table table k v h = (
    written table k v,
    insert_lem table k v h,
    λ q.
        find_lem (written table k v) q (rw (length-written table k v) h)
        ∙ ap (λ i. ok (find_in q (get_or (written table k v) i []))) (slot-written table k q v)
        ∙ ap (λ o. ok o) (found_written table k q v h)
        ∙ ground (arith, find_lem table q h),
  )
