-- ===== src/HashMap/Tests.antt =====
-- The maps of HFT/HashMap.hpp run on small tables, and their theorems at these inputs.
use git_docs_test.Common.{ℕ, ◌≡◌, refl, false, none, some, [], ◌∷◌, ◌==◌, if◌then◌else◌}
use git_docs_test.HashMap.Sample.{id_key}
use git_docs_test.HashMap.Contract.{is_some}
use git_docs_test.HashMap.Chaining.{Chaining, find, contains, insert, erase}
use git_docs_test.HashMap.Chaining.Buckets.{IsValid}
use git_docs_test.HashMap.Chaining.Laws.{find-insert, find-erase}

-- keys 1 and 3 share a bucket
abbrev two_buckets : Chaining ℕ ℕ
two_buckets = record {
  table = [] ∷ ((record { key = 1; value = 10 }) ∷ (record { key = 3; value = 30 }) ∷ []) ∷ [];
  mask = 1;
}

two_buckets-IsValid : IsValid two_buckets
two_buckets-IsValid = record { power = (1, refl); masked = refl }

insert_then_find : find (insert two_buckets 3 31) 3 ≡ some 31
unfolding insert find
insert_then_find = refl

erase_then_contains : contains (erase two_buckets 1).1 1 ≡ false
unfolding erase contains
erase_then_contains = refl

find-insert_example :
    find (insert two_buckets 3 31) 1 ≡ (if 3 == 1 then some 31 else find two_buckets 1)
find-insert_example = find-insert two_buckets 3 1 31 two_buckets-IsValid

find-erase_example :
    (find (erase two_buckets 1).1 3 ≡ (if 1 == 3 then none else find two_buckets 3))
    × ((erase two_buckets 1).0 ≡ is_some (find two_buckets 1))
find-erase_example = find-erase two_buckets 1 3 two_buckets-IsValid
