-- ===== src/HashMap/Chaining.antt =====
-- HFT/HashMap.hpp, class ChainingHashMap: a vector of lists of nodes.
pub mod Buckets
pub mod Laws
use Prim.Native.Nat.{bit_and}
use git_docs_test.Common.{
  ℕ, ◌+◌, ◌-◌, ◌%◌, ◌^◌, Bool, true, false, ◌||◌, not, Option, none, some, List, [], ◌∷◌, ◌++◌,
  length, get_or, set, replicate, ◌==◌, if◌then◌else◌, Result, ok, throws, invalid_capacity,
}
use git_docs_test.HashMap.Key.{Key, ◌=?◌}

pub record Node (K V : Type 0) : Type 0 where
  pub key : K
  pub value : V

pub record Chaining (K V : Type 0) : Type 0 where
  pub table : List (List (Node K V))
  pub mask : ℕ

module _ {K V : Type 0} ⦃key : Key K⦄ where
  -- The constructor, for any `Const::initBuckets`.
  unfoldable pub new : ℕ → Result (Chaining K V)
  new buckets =
      let mask = (buckets + 2 ^ 64 - 1) % 2 ^ 64 in
      let m : Chaining K V = record { table = replicate buckets []; mask = mask } in
      if buckets == 0 || not (bit_and buckets mask == 0) then throws invalid_capacity else ok m

  -- the bucket of a key
  unfoldable pub index : Chaining K V → K → ℕ
  index m k = bit_and (key.hash k) m.mask

  unfoldable pub bucket : Chaining K V → K → List (Node K V)
  unfolding index
  bucket m k = get_or m.table (index m k) []

  -- The loops over a bucket, which stop at the first node with the key.
  unfoldable pub find_in : K → List (Node K V) → Option V
  find_in k [] = none
  find_in k (n ∷ c) = let rest = find_in k c in if n.key =? k then some n.value else rest

  unfoldable pub contains_in : K → List (Node K V) → Bool
  contains_in k [] = false
  contains_in k (n ∷ c) = let rest = contains_in k c in if n.key =? k then true else rest

  -- `node.value = value; return;`, or `emplace_back(key, value)` behind the loop
  unfoldable pub write_in : K → V → List (Node K V) → List (Node K V)
  write_in k v [] = record { key = k; value = v } ∷ []
  write_in k v (n ∷ c) =
      let rest = write_in k v c in if n.key =? k then record n { value = v } ∷ c else n ∷ rest

  -- `std::list::remove(node)`, which removes every node with the key of `node`
  unfoldable pub remove_in : K → List (Node K V) → List (Node K V)
  remove_in k [] = []
  remove_in k (n ∷ c) = let rest = remove_in k c in if n.key =? k then rest else n ∷ rest

  unfoldable pub find : Chaining K V → K → Option V
  unfolding find_in bucket
  find m k = find_in k (bucket m k)

  unfoldable pub contains : Chaining K V → K → Bool
  unfolding contains_in bucket
  contains m k = contains_in k (bucket m k)

  unfoldable pub insert : Chaining K V → K → V → Chaining K V
  unfolding write_in bucket
  insert m k v = record m { table = set m.table (index m k) (write_in k v (bucket m k)) }

  unfoldable pub erase : Chaining K V → K → Bool × Chaining K V
  unfolding remove_in contains_in bucket
  erase m k =
      if contains_in k (bucket m k)
      then (true, record m { table = set m.table (index m k) (remove_in k (bucket m k)) })
      else (false, m)

  -- `operator[]`: the value of the key, which is added with `Value{}` if it is missing.
  unfoldable pub read_at : V → Chaining K V → K → V × Chaining K V
  unfolding find_in bucket
  read_at empty m k = elim (find_in k (bucket m k)) [
    | some v ↦ (v, m)
    | none ↦ (
      empty,
      record m {
        table = set m.table (index m k) (bucket m k ++ (record { key = k; value = empty } ∷ []));
      },
    )
  ]

  -- `map[key] = value`: `operator[]`, then a write through the reference that it returns
  unfoldable pub assign_at : V → Chaining K V → K → V → Chaining K V
  unfolding read_at write_in
  assign_at empty m k v =
      let m' = (read_at empty m k).1 in
      record m' { table = set m'.table (index m' k) (write_in k v (bucket m' k)) }
