-- ===== src/HashMap/Table/Tests.antt =====
-- c++20/HashTables.cpp, class ChainingHashTable with two buckets.
use git_docs_test.Common.{ℕ, ◌≡◌, refl, true, [], ◌∷◌, ok, undefined}
use git_docs_test.HashMap.Sample.{id_key}
use git_docs_test.HashMap.Table.{Table, new, find, remove}

abbrev one_key : Table ℕ ℕ
one_key = [] ∷ (record { key = 3; value = 30 } ∷ []) ∷ []

removed_key : remove one_key 3 ≡ ok (true, [] ∷ [] ∷ [])
unfolding remove
removed_key = refl

no_buckets : find {K = ℕ} {V = ℕ} (new 0) 3 ≡ undefined
unfolding find new
no_buckets = refl
