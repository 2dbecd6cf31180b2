-- ===== src/HashMap/Chaining/Laws.antt =====
-- HFT/HashMap.hpp, class ChainingHashMap as an implementation of the map contract.
use git_docs_test.Common.{
  ok-injective, ok-ne-undefined, replicate, get_or-replicate, Returns, capacity_accepted,
  capacity_rejected, ℕ, ◌+◌, ◌-◌, ◌%◌, ◌^◌, ◌<◌, ◌≡◌, refl, sym, ap, ◌∙◌, true, false, none, some,
  [], ◌∷◌, ◌++◌, length, length-replicate, if◌then◌else◌, ok, throws, invalid_capacity, arith,
  Bool-cases, Option-cases, inl, inr, IsPowerOfTwo, mask_of_power, subst,
}
use git_docs_test.HashMap.Key.{Key, ◌=?◌}
use git_docs_test.HashMap.Contract.{HashMap, is_some}
use git_docs_test.HashMap.Chaining.Buckets.{
  IsValid, contains_in-find_in, find_in-write_in, find_in-remove_in, put, put-IsValid, find_in-put,
  find_in-append,
}
use git_docs_test.HashMap.Chaining.{
  Chaining, bucket, find_in, contains_in, write_in, remove_in, find, contains, insert, erase,
  read_at, assign_at, new,
}

module _ {K V : Type 0} ⦃key : Key K⦄ where
  find_lem : (m : Chaining K V) (k : K) → find m k ≡ find_in k (bucket m k)
  unfolding find
  find_lem m k = refl

  insert_lem :
      (m : Chaining K V) (k : K) (v : V) → insert m k v ≡ put m k (write_in k v (bucket m k))
  unfolding insert put
  insert_lem m k v = refl

  -- `insert` makes the key map to the value and leaves every other key alone.
  pub find-insert :
      (m : Chaining K V) (k q : K) (v : V)
      → IsValid m
      → find (insert m k v) q ≡ (if k =? q then some v else find m q)
  find-insert m k q v valid =
      rw (insert_lem m k v, find_lem, find_lem m q)
        (find_in-put m k q _ valid (λ e. rw (find_in-write_in k q v (bucket m k), e))
          ∙ ground (arith, find_in-write_in k q v (bucket m k)))

  erase_lem :
      (m : Chaining K V) (k : K)
      → erase m k ≡ (
          if contains_in k (bucket m k)
          then (true, put m k (remove_in k (bucket m k)))
          else (false, m))
  unfolding erase put
  erase_lem m k = refl

  -- `erase` removes the key and leaves every other key alone; its answer says whether it was there.
  pub find-erase :
      (m : Chaining K V) (k q : K)
      → IsValid m
      → (find (erase m k).1 q ≡ (if k =? q then none else find m q))
        × ((erase m k).0 ≡ is_some (find m k))
  find-erase m k q valid =
      rw (erase_lem m k, find_lem m q, find_lem m k, ← contains_in-find_in k (bucket m k))
        (elim (Bool-cases (contains_in k (bucket m k))) [
          | inl e ↦
              rw (e, find_lem)
                (
                  find_in-put m k q _ valid (λ f. rw (find_in-remove_in k q (bucket m k), f))
                      ∙ ground (arith, find_in-remove_in k q (bucket m k)),
                  refl,
                )
          | inr e ↦
              rw (e, find_lem)
                (
                  ground (
                    arith,
                    contains_in-find_in k (bucket m k),
                    key.equal_iff k q,
                    λ (f : k ≡ q). ap (λ x. find_in x (bucket m x)) f,
                  ),
                  refl,
                )
        ])

  pub contains-find : (m : Chaining K V) (k : K) → contains m k ≡ is_some (find m k)
  unfolding contains find
  contains-find m k = contains_in-find_in k (bucket m k)

  with_default : V → Chaining K V → K → Chaining K V
  with_default empty m k = put m k (bucket m k ++ (record { key = k; value = empty } ∷ []))

  pub read_at-found :
      (empty : V) (m : Chaining K V) (k : K) (v : V)
      → find m k ≡ some v
      → read_at empty m k ≡ (v, m)
  unfolding read_at find
  read_at-found empty m k v e = rw (e, read_at)

  read_at-missing :
      (empty : V) (m : Chaining K V) (k : K)
      → find m k ≡ none
      → read_at empty m k ≡ (empty, with_default empty m k)
  unfolding read_at find with_default put
  read_at-missing empty m k e = rw (e, read_at)

  -- `operator[]` returns the value of the key, or adds the key with `Value{}` and returns that; it
  -- leaves every other key alone.
  pub find-read_at :
      (empty : V) (m : Chaining K V) (k q : K)
      → IsValid m
      → find (read_at empty m k).1 q ≡ (if k =? q then some (read_at empty m k).0 else find m q)
  find-read_at empty m k q valid = elim (Option-cases (find m k)) [
    | inr (v, e) ↦
        rw (read_at-found empty m k v e)
          (ground (arith, key.equal_iff k q, λ (f : k ≡ q). ap (find m) f))
    | inl e ↦ rw (read_at-missing empty m k e, find_lem, find_lem m q) (added e)
  ]
    where
      absent : find m k ≡ none → find_in k (bucket m k) ≡ none
      absent e = sym (find_lem m k) ∙ e

      added :
          find m k ≡ none
          → find_in q (bucket (with_default empty m k) q)
            ≡ (if k =? q then some empty else find_in q (bucket m q))
      added e =
          unfold with_default in
          find_in-put m k q _ valid (λ f. rw (find_in-append k q empty (bucket m k) (absent e), f))
          ∙ ground (arith, find_in-append k q empty (bucket m k) (absent e))

  read_at-IsValid :
      (empty : V) (m : Chaining K V) (k : K) → IsValid m → IsValid (read_at empty m k).1
  read_at-IsValid empty m k valid = elim (Option-cases (find m k)) [
    | inr (v, e) ↦ rw (read_at-found empty m k v e) valid
    | inl e ↦ rw (read_at-missing empty m k e) (unfold with_default in put-IsValid m k _ valid)
  ]

  insert-IsValid : (m : Chaining K V) (k : K) (v : V) → IsValid m → IsValid (insert m k v)
  insert-IsValid m k v valid = rw (insert_lem m k v) (put-IsValid m k _ valid)

  pub erase-IsValid : (m : Chaining K V) (k : K) → IsValid m → IsValid (erase m k).1
  erase-IsValid m k valid = rw (erase_lem m k) (elim (Bool-cases (contains_in k (bucket m k))) [
    | inl e ↦ rw e (put-IsValid m k _ valid)
    | inr e ↦ rw e valid
  ])

  assign_at_lem :
      (empty : V) (m : Chaining K V) (k : K) (v : V)
      → assign_at empty m k v ≡ insert (read_at empty m k).1 k v
  unfolding assign_at insert
  assign_at_lem empty m k v = refl

  pub find-assign_at :
      (empty : V) (m : Chaining K V) (k q : K) (v : V)
      → IsValid m
      → find (assign_at empty m k v) q ≡ (if k =? q then some v else find m q)
  find-assign_at empty m k q v valid =
      rw
        (
          assign_at_lem empty m k v,
          find-insert (read_at empty m k).1 k q v (read_at-IsValid empty m k valid),
        )
        (ground (arith, find-read_at empty m k q valid))

  pub assign_at-IsValid :
      (empty : V) (m : Chaining K V) (k : K) (v : V) → IsValid m → IsValid (assign_at empty m k v)
  assign_at-IsValid empty m k v valid =
      rw (assign_at_lem empty m k v) (insert-IsValid _ k v (read_at-IsValid empty m k valid))

  -- The class fills the contract of a map: no operation throws, and none is undefined.
  abbrev pub chaining : V → HashMap K V
  chaining empty = record {
    State = Chaining K V;
    IsValid = IsValid;
    find = find;
    contains = contains;
    read_at = λ m k. ok (read_at empty m k);
    assign_at = λ m k v. ok (assign_at empty m k v);
    erase = erase;
    contains-find = λ m k v. contains-find m k;
    read_at-find = λ m k v valid e. ap ok (read_at-found empty m k v e);
    assign_at-find = λ m m' k q v valid e.
        subst (λ x. find x q ≡ (if k =? q then some v else find m q)) (ok-injective e)
          (find-assign_at empty m k q v valid);
    assign_at-IsValid =
        λ m m' k v valid e. subst IsValid (ok-injective e) (assign_at-IsValid empty m k v valid);
    assign_at-defined = λ m k v valid e. ok-ne-undefined e;
    erase-find = λ m k q v. (find-erase m k q v).0;
    erase-IsValid = erase-IsValid;
    erase-found = λ m k v. (find-erase m k k v).1;
  }

  -- A number of buckets that is a power of two makes a valid map in which no key is found.
  pub chaining_accepts :
      (c : ℕ)
      → c < 2 ^ 64
      → IsPowerOfTwo c
      → Returns
          (new {K = K} {V = V} c)
          λ m. IsValid m × (length m.table ≡ c) × ((k : K) → find m k ≡ none)
  unfolding new find find_in
  chaining_accepts c lt pw = (
    record { table = replicate c []; mask = (c + 2 ^ 64 - 1) % 2 ^ 64 },
    rw (capacity_accepted c lt pw),
    (
      record {
        power = rw length-replicate pw;
        masked = rw length-replicate (omega (arith, (mask_of_power c pw).0));
      },
      length-replicate c [],
      λ k. rw get_or-replicate,
    ),
  )

  -- Any other number of buckets makes the constructor throw.
  pub chaining_rejects :
      (c : ℕ) → c < 2 ^ 64 → ¬ (IsPowerOfTwo c) → new {K = K} {V = V} c ≡ throws invalid_capacity
  unfolding new
  chaining_rejects c lt np = rw (capacity_rejected c lt np)
