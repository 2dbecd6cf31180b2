-- ===== src/HashMap/Chaining/Buckets.antt =====
-- HFT/HashMap.hpp, class ChainingHashMap: lookup in one bucket, and writes of one bucket.
use native.Mathlib.Nat.{mod-lt}
use git_docs_test.Common.{
  ◌-◌, ◌<◌, ◌≡◌, refl, ap, true, false, none, some, List, [], ◌∷◌, ◌++◌, length, length-set, get_or,
  get_or-set, set, ◌==◌, if◌then◌else◌, arith, IsPowerOfTwo, bit_and-power, mask_of_power,
}
use git_docs_test.HashMap.Key.{Key, ◌=?◌}
use git_docs_test.HashMap.Contract.{is_some}
use git_docs_test.HashMap.Chaining.{
  Node, Chaining, index, bucket, find_in, contains_in, write_in, remove_in,
}

module _ {K V : Type 0} ⦃key : Key K⦄ where
  pub record IsValid (m : Chaining K V) : Type 0 where
    pub power : IsPowerOfTwo (length m.table)
    pub masked : m.mask ≡ length m.table - 1

  index-lt : (m : Chaining K V) (k : K) → IsValid m → index m k < length m.table
  unfolding index
  index-lt m k v =
      rw (v.masked, bit_and-power (length m.table) (key.hash k) v.power)
        (mod-lt (key.hash k) (mask_of_power (length m.table) v.power).0)

  pub contains_in-find_in : (k : K) (c : List (Node K V)) → contains_in k c ≡ is_some (find_in k c)
  unfolding contains_in find_in
  contains_in-find_in k [] = refl
  contains_in-find_in k (n ∷ c) = ground (arith, contains_in-find_in k c)

  pub find_in-write_in :
      (k q : K) (v : V) (c : List (Node K V))
      → find_in q (write_in k v c) ≡ (if k =? q then some v else find_in q c)
  unfolding find_in write_in
  find_in-write_in k q v [] = refl
  find_in-write_in k q v (n ∷ c) = ground (
    arith,
    find_in-write_in k q v c,
    key.equal_iff n.key k,
    key.equal_iff n.key q,
    key.equal_iff k q,
  )

  pub find_in-remove_in :
      (k q : K) (c : List (Node K V))
      → find_in q (remove_in k c) ≡ (if k =? q then none else find_in q c)
  unfolding find_in remove_in
  find_in-remove_in k q [] = ground arith
  find_in-remove_in k q (n ∷ c) = ground (
    arith,
    find_in-remove_in k q c,
    key.equal_iff n.key k,
    key.equal_iff n.key q,
    key.equal_iff k q,
  )

  -- a bucket behind a write to one
  unfoldable pub put : Chaining K V → K → List (Node K V) → Chaining K V
  put m k c = record m { table = set m.table (index m k) c }

  bucket-put :
      (m : Chaining K V) (k q : K) (c : List (Node K V))
      → IsValid m
      → bucket (put m k c) q ≡ (if index m k == index m q then c else bucket m q)
  unfolding bucket put index
  bucket-put m k q c v =
      get_or-set m.table (index m k) (index m q) c [] (unfold index in index-lt m k v)

  index_congr : (m : Chaining K V) (k q : K) → (k =? q) ≡ true → index m k ≡ index m q
  index_congr m k q e = ap (index m) ((key.equal_iff k q).0 e)

  pub put-IsValid :
      (m : Chaining K V) (k : K) (c : List (Node K V)) → IsValid m → IsValid (put m k c)
  unfolding put
  put-IsValid m k c v = record { power = rw length-set v.power; masked = rw length-set v.masked }

  bucket_congr : (m : Chaining K V) (k q : K) → index m k ≡ index m q → bucket m k ≡ bucket m q
  unfolding bucket
  bucket_congr m k q e = ap (λ i. get_or m.table i []) e

  -- A write to the bucket of `k` that changes the lookup of no other key.
  pub find_in-put :
      (m : Chaining K V) (k q : K) (c : List (Node K V))
      → IsValid m
      → ((k =? q) ≡ false → find_in q c ≡ find_in q (bucket m k))
      → find_in q (bucket (put m k c) q) ≡ (if k =? q then find_in q c else find_in q (bucket m q))
  find_in-put m k q c v other = ground (
    arith,
    bucket-put m k q c v,
    index_congr m k q,
    ap (find_in q) (bucket-put m k q c v),
    λ (e : index m k ≡ index m q). ap (find_in q) (bucket_congr m k q e),
  )

  pub find_in-append :
      (k q : K) (v : V) (c : List (Node K V))
      → find_in k c ≡ none
      → find_in q (c ++ (record { key = k; value = v } ∷ []))
        ≡ (if k =? q then some v else find_in q c)
  unfolding find_in
  find_in-append k q v [] e = refl
  find_in-append k q v (n ∷ c) e = ground (
    arith,
    find_in-append k q v c,
    key.equal_iff n.key k,
    key.equal_iff n.key q,
    key.equal_iff k q,
  )
