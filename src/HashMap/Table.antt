-- ===== src/HashMap/Table.antt =====
-- c++20/HashTables.cpp, class ChainingHashTable: a vector of lists of nodes, the bucket being the
-- remainder of the hash. The loops over a bucket are those of ChainingHashMap.
pub mod Laws
mod Tests
use git_docs_test.Common.{
  ℕ, ◌%◌, Bool, true, false, Option, List, [], ◌∷◌, length, get_or, set, replicate, ◌==◌,
  if◌then◌else◌, Result, ok, undefined, ◌>>=◌,
}
use git_docs_test.HashMap.Key.{Key}
use git_docs_test.HashMap.Chaining.{Node, find_in, contains_in, write_in, remove_in}

-- `table_`
abbrev pub Table : Type 0 → Type 0 → Type 0
Table K V = List (List (Node K V))

module _ {K V : Type 0} ⦃key : Key K⦄ where
  unfoldable pub new : ℕ → Table K V
  new size = replicate size []

  -- the bucket of a key; the remainder by 0 is undefined
  unfoldable pub index : Table K V → K → Result ℕ
  index table k = if length table == 0 then undefined else ok (key.hash k % length table)

  unfoldable pub insert : Table K V → K → V → Result (Table K V)
  unfolding index write_in
  insert table k v = do i ← index table k; ok (set table i (write_in k v (get_or table i [])))

  unfoldable pub contains : Table K V → K → Result Bool
  unfolding index contains_in
  contains table k = do i ← index table k; ok (contains_in k (get_or table i []))

  unfoldable pub remove : Table K V → K → Result (Bool × Table K V)
  unfolding index contains_in remove_in
  remove table k = do
    i ← index table k
    let c = get_or table i []
    ok (if contains_in k c then (true, set table i (remove_in k c)) else (false, table))

  unfoldable pub find : Table K V → K → Result (Option V)
  unfolding index find_in
  find table k = do i ← index table k; ok (find_in k (get_or table i []))
