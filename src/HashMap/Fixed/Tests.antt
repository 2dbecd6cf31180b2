-- ===== src/HashMap/Fixed/Tests.antt =====
-- HFT/HashMap.hpp, class FixedSizedChainingHashMap on a map of two buckets.
use git_docs_test.Common.{
  ℕ, ◌*◌, ◌≡◌, refl, some, [], ◌∷◌, ◌==◌, if◌then◌else◌, ok, Returns, arith, ltb,
}
use git_docs_test.HashMap.Sample.{id_key}
use git_docs_test.HashMap.Fixed.{Fixed, new, insert, find}
use git_docs_test.HashMap.Fixed.Chains.{or_else, IsValid}
use git_docs_test.HashMap.Fixed.Laws.{insert_lem}
use git_docs_test.HashMap.Fixed.Nodes.{made, inserted, pool, Reached-pool}

abbrev two_buckets : Fixed ℕ ℕ
two_buckets = record {
  buckets = [] ∷ (record { address = 7; key = 3; value = 30 } ∷ []) ∷ [];
  free_nodes = 5 ∷ 6 ∷ [];
  mask = 1;
}

two_buckets-IsValid : IsValid two_buckets
two_buckets-IsValid = record { power = (1, refl); masked = refl }

-- A second value for a key stays behind the first.
hidden : (m : Fixed ℕ ℕ) × (insert two_buckets 3 31 ≡ ok m) × (find m 3 ≡ some 30)
unfolding insert find
hidden = (_, refl, refl)

insert_lem_example : Returns (insert two_buckets 3 31) (λ m'.
    (q : ℕ)
    → find m' q ≡ (if 3 == q then some (or_else (find two_buckets 3) 31) else find two_buckets q))
insert_lem_example = insert_lem two_buckets 3 31 5 (6 ∷ []) two_buckets-IsValid refl

abbrev one_bucket : Fixed ℕ ℕ
one_bucket = record {
  buckets = (record { address = 15; key = 4; value = 40 } ∷ []) ∷ [];
  free_nodes = 14 ∷ 13 ∷ 12 ∷ 11 ∷ 10 ∷ 9 ∷ 8 ∷ 7 ∷ 6 ∷ 5 ∷ 4 ∷ 3 ∷ 2 ∷ 1 ∷ 0 ∷ [];
  mask = 0;
}

abbrev no_keys : Fixed ℕ ℕ
no_keys = record { buckets = [] ∷ []; free_nodes = 15 ∷ one_bucket.free_nodes; mask = 0 }

first_made : new 1 ≡ ok no_keys
unfolding new
first_made = refl

first_inserted : insert no_keys 4 40 ≡ ok one_bucket
unfolding insert
first_inserted = refl

Reached-pool_example :
    IsValid one_bucket × ((x : ℕ) → pool one_bucket x ≡ (if ltb x (1 * 16) then 1 else 0))
Reached-pool_example =
    Reached-pool 1 0 one_bucket (0, refl) (omega arith)
      (inserted 4 40 (made first_made) first_inserted)
