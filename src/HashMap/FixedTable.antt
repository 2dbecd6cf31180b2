-- ===== src/HashMap/FixedTable.antt =====
-- c++20/HashTables.cpp, class FixedSizedChainingHashTable: buckets chained through the nodes of an
-- array of 1024. The nodes and the loops over a bucket are those of FixedSizedChainingHashMap.
pub mod Agrees
mod Tests
use git_docs_test.Common.{
  ℕ, ◌%◌, Bool, true, false, Option, none, some, List, [], ◌∷◌, ◌++◌, get_or, set, replicate,
  length, ◌==◌, if◌then◌else◌, Result, ok, throws, undefined, ◌>>=◌, no_free_nodes,
}
use git_docs_test.HashMap.Key.{Key}
use git_docs_test.HashMap.Fixed.{Cell, push_nodes, find_in, contains_in, unlink}

pub record FixedTable (K V : Type 0) : Type 0 where
  pub table : List (List (Cell K V))
  -- `free_nodes_`, its top first
  pub free_nodes : List ℕ

module _ {K V : Type 0} ⦃key : Key K⦄ where
  unfoldable pub new : ℕ → FixedTable K V
  unfolding push_nodes
  new size = record { table = replicate size []; free_nodes = push_nodes 1024 }

  -- the bucket of a key; the remainder by 0 is undefined
  unfoldable pub index : FixedTable K V → K → Result ℕ
  index t k = if length t.table == 0 then undefined else ok (key.hash k % length t.table)

  -- A node from the top of the free ones, linked at the end of the bucket `i`.
  unfoldable pub append_at : FixedTable K V → K → V → ℕ → Result (FixedTable K V)
  append_at t k v i = elim t.free_nodes [
    | [] ↦ throws no_free_nodes
    | node ∷ rest ↦ ok (record {
      free_nodes = rest;
      table =
          set t.table i
            (get_or t.table i [] ++ (record { address = node; key = k; value = v } ∷ []));
    })
  ]

  unfoldable pub insert : FixedTable K V → K → V → Result (FixedTable K V)
  unfolding index append_at
  insert t k v = do i ← index t k; append_at t k v i

  unfoldable pub contains : FixedTable K V → K → Result Bool
  unfolding index contains_in
  contains t k = do i ← index t k; ok (contains_in k (get_or t.table i []))

  -- The node that is unlinked is pushed to the free ones.
  unfoldable pub remove_at : FixedTable K V → K → ℕ → Bool × FixedTable K V
  unfolding unlink
  remove_at t k i = elim (unlink k (get_or t.table i [])) [
    | none ↦ (false, t)
    | some (node, rest) ↦
        (true, record { table = set t.table i rest; free_nodes = node ∷ t.free_nodes })
  ]

  unfoldable pub remove : FixedTable K V → K → Result (Bool × FixedTable K V)
  unfolding index remove_at
  remove t k = do i ← index t k; ok (remove_at t k i)

  unfoldable pub find : FixedTable K V → K → Result (Option V)
  unfolding index find_in
  find t k = do i ← index t k; ok (find_in k (get_or t.table i []))
