-- ===== src/HashMap/FixedTable/Agrees.antt =====
-- c++20/HashTables.cpp, class FixedSizedChainingHashTable, against the class
-- FixedSizedChainingHashMap of HFT/HashMap.hpp, whose mask does what the remainder does.
use git_docs_test.Common.{
  ℕ, ◌-◌, ◌≡◌, refl, sym, ap, Bool, Option, none, some, List, [], ◌∷◌, ◌++◌, get_or, set, length,
  length-set, ok, ◌>>=◌, IsPowerOfTwo, mask_of_power, bit_and-power, arith,
}
use git_docs_test.HashMap.Key.{Key}
use git_docs_test.HashMap.Fixed.{Cell, Fixed, unlink}
use git_docs_test.HashMap.Fixed
use git_docs_test.HashMap.FixedTable.{
  FixedTable, index, append_at, remove_at, insert, contains, remove, find,
}

module _ {K V : Type 0} ⦃key : Key K⦄ where
  -- the map with the buckets and the free nodes of the table
  abbrev pub to_map : FixedTable K V → Fixed K V
  to_map t = record { buckets = t.table; free_nodes = t.free_nodes; mask = length t.table - 1 }

  abbrev pub answer : Bool × FixedTable K V → Bool × Fixed K V
  answer (b, t) = (b, to_map t)

  index_run :
      (t : FixedTable K V) (k : K)
      → IsPowerOfTwo (length t.table)
      → index t k ≡ ok (Fixed.index (to_map t) k)
  unfolding index Fixed.index
  index_run t k p =
      rw (bit_and-power (length t.table) (key.hash k) p)
        (ground (arith, (mask_of_power (length t.table) p).0))

  append_run :
      (table : List (List (Cell K V))) (nodes : List ℕ) (k : K) (v : V)
      → let t : FixedTable K V = record { table = table; free_nodes = nodes } in
        Fixed.append_node (to_map t) k v
        ≡ (append_at t k v (Fixed.index (to_map t) k) >>= λ t'. ok (to_map t'))
  unfolding append_at Fixed.append_node Fixed.bucket
  append_run table [] k v = refl
  append_run table (node ∷ rest) k v =
      let t : FixedTable K V = record { table = table; free_nodes = node ∷ rest } in
      let i = Fixed.index (to_map t) k in
      sym (
        ap
          (λ n. ok (record {
            buckets =
                set table i
                  (get_or table i [] ++ (record { address = node; key = k; value = v } ∷ []));
            free_nodes = rest;
            mask = n - 1;
          }))
          (length-set table i _))

  remove_run :
      (t : FixedTable K V) (k : K) (found : Option (ℕ × List (Cell K V)))
      → unlink k (get_or t.table (Fixed.index (to_map t) k) []) ≡ found
      → Fixed.erase (to_map t) k ≡ answer (remove_at t k (Fixed.index (to_map t) k))
  unfolding remove_at Fixed.erase Fixed.bucket
  remove_run t k none e = rw (e, Fixed.erase, remove_at) refl
  remove_run t k (some (node, rest)) e = rw (e, Fixed.erase, remove_at, length-set) refl

  -- On a table with a power of two of buckets, every operation does what FixedSizedChainingHashMap
  -- does with the same buckets and free nodes.
  pub fixed_table_map :
      (t : FixedTable K V) (k : K) (v : V)
      → IsPowerOfTwo (length t.table)
      → (Fixed.insert (to_map t) k v ≡ (insert t k v >>= λ t'. ok (to_map t')))
        × ((remove t k >>= λ r. ok (answer r)) ≡ ok (Fixed.erase (to_map t) k))
        × (find t k ≡ ok (Fixed.find (to_map t) k))
        × (contains t k ≡ ok (Fixed.contains (to_map t) k))
  unfolding insert Fixed.insert remove find Fixed.find contains Fixed.contains Fixed.bucket
  fixed_table_map t k v p =
      let e = index_run t k p in
      (
        rw e (append_run t.table t.free_nodes k v),
        rw e (ap (λ r. ok r) (sym (remove_run t k _ refl))),
        rw e refl,
        rw e refl,
      )
