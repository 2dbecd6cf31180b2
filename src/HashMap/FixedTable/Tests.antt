-- ===== src/HashMap/FixedTable/Tests.antt =====
-- c++20/HashTables.cpp, class FixedSizedChainingHashTable with two buckets and with none.
use git_docs_test.Common.{ℕ, ◌≡◌, refl, ok, some, [], ◌∷◌, undefined, ◌>>=◌}
use git_docs_test.HashMap.Sample.{id_key}
use git_docs_test.HashMap.Fixed
use git_docs_test.HashMap.FixedTable.{FixedTable, new, insert, find, remove, contains}
use git_docs_test.HashMap.FixedTable.Agrees.{to_map, answer, fixed_table_map}

abbrev one_key : FixedTable ℕ ℕ
one_key = record {
  table = [] ∷ (record { address = 1; key = 3; value = 30 } ∷ []) ∷ [];
  free_nodes = 0 ∷ [];
}

-- The second insertion of a key keeps the first value.
kept_value : (insert one_key 3 31 >>= λ t. find t 3) ≡ ok (some 30)
unfolding insert find
kept_value = refl

no_buckets : find {K = ℕ} {V = ℕ} (new 0) 3 ≡ undefined
unfolding find new
no_buckets = refl

fixed_table_map_example :
    (Fixed.insert (to_map one_key) 5 50 ≡ (insert one_key 5 50 >>= λ t'. ok (to_map t')))
    × ((remove one_key 5 >>= λ r. ok (answer r)) ≡ ok (Fixed.erase (to_map one_key) 5))
    × (find one_key 5 ≡ ok (Fixed.find (to_map one_key) 5))
    × (contains one_key 5 ≡ ok (Fixed.contains (to_map one_key) 5))
fixed_table_map_example = fixed_table_map one_key 5 50 (1, refl)
