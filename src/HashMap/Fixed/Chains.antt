-- ===== src/HashMap/Fixed/Chains.antt =====
-- HFT/HashMap.hpp, class FixedSizedChainingHashMap: lookup in one bucket, and writes of one bucket.
use native.Mathlib.Nat.{mod-lt}
use git_docs_test.Common.{
  ℕ, zero, suc, ◌+◌, ◌-◌, ◌<◌, ◌≡◌, refl, sym, ap, subst, ◌∙◌, Bool-cases, Option-cases, inl, inr,
  some-injective, true, false, Option, none, some, List, [], ◌∷◌, ◌++◌, length, get_or, get_or-set,
  set, ◌==◌, if◌then◌else◌, arith, IsPowerOfTwo, bit_and-power, mask_of_power,
}
use git_docs_test.HashMap.Key.{Key, ◌=?◌}
use git_docs_test.HashMap.Contract.{is_some}
use git_docs_test.HashMap.Fixed.{Cell, Fixed, index, bucket, find_in, contains_in, unlink}

-- 1 for the same number
abbrev pub one_if_same : ℕ → ℕ → ℕ
one_if_same a b = if a == b then 1 else 0

-- a value that is there, or else another
abbrev pub or_else : {A : Type 0} → Option A → A → A
or_else none a = a
or_else (some b) a = b

other_key :
    {K : Type 0} ⦃key : Key K⦄ (n k q : K) → (n =? k) ≡ true → (k =? q) ≡ false → (n =? q) ≡ false
other_key ⦃key = key⦄ n k q e e' = subst (λ m. (m =? q) ≡ false) (sym ((key.equal_iff n k).0 e)) e'

module _ {K V : Type 0} ⦃key : Key K⦄ where
  pub record IsValid (m : Fixed K V) : Type 0 where
    pub power : IsPowerOfTwo (length m.buckets)
    pub masked : m.mask ≡ length m.buckets - 1

  pub index-lt : (m : Fixed K V) (k : K) → IsValid m → index m k < length m.buckets
  unfolding index
  index-lt m k v =
      rw (v.masked, bit_and-power (length m.buckets) (key.hash k) v.power)
        (mod-lt (key.hash k) (mask_of_power (length m.buckets) v.power).0)

  pub contains_in-find_in : (k : K) (c : List (Cell K V)) → contains_in k c ≡ is_some (find_in k c)
  unfolding contains_in find_in
  contains_in-find_in k [] = refl
  contains_in-find_in k (n ∷ c) = ground (arith, contains_in-find_in k c)

  pub find_in-append :
      (k q : K) (v : V) (a : ℕ) (c : List (Cell K V))
      → find_in q (c ++ (record { address = a; key = k; value = v } ∷ []))
        ≡ (if k =? q then some (or_else (find_in k c) v) else find_in q c)
  unfolding find_in
  find_in-append k q v a [] = refl
  find_in-append k q v a (n ∷ c) = ground (
    arith,
    find_in-append k q v a c,
    key.equal_iff n.key k,
    key.equal_iff n.key q,
    key.equal_iff k q,
  )

  -- The bucket of `k` replaced, with a change in the free nodes.
  bucket-set :
      (m m' : Fixed K V) (k q : K) (c : List (Cell K V))
      → IsValid m
      → m'.mask ≡ m.mask
      → m'.buckets ≡ set m.buckets (index m k) c
      → bucket m' q ≡ (if index m k == index m q then c else bucket m q)
  unfolding bucket index
  bucket-set m m' k q c v e e' =
      rw (e, e')
        (get_or-set m.buckets (index m k) (index m q) c [] (unfold index in index-lt m k v))

  index_congr : (m : Fixed K V) (k q : K) → (k =? q) ≡ true → index m k ≡ index m q
  index_congr m k q e = ap (index m) ((key.equal_iff k q).0 e)

  bucket_congr : (m : Fixed K V) (k q : K) → index m k ≡ index m q → bucket m k ≡ bucket m q
  unfolding bucket
  bucket_congr m k q e = ap (λ i. get_or m.buckets i []) e

  -- A write to the bucket of `k` that changes the lookup of no other key.
  pub find_in-set :
      (m m' : Fixed K V) (k q : K) (c : List (Cell K V))
      → IsValid m
      → m'.mask ≡ m.mask
      → m'.buckets ≡ set m.buckets (index m k) c
      → ((k =? q) ≡ false → find_in q c ≡ find_in q (bucket m k))
      → find_in q (bucket m' q) ≡ (if k =? q then find_in q c else find_in q (bucket m q))
  find_in-set m m' k q c v e e' other = ground (
    arith,
    bucket-set m m' k q c v e e',
    index_congr m k q,
    ap (find_in q) (bucket-set m m' k q c v e e'),
    λ (e : index m k ≡ index m q). ap (find_in q) (bucket_congr m k q e),
  )

  pub unlink-contains : (k : K) (c : List (Cell K V)) → is_some (unlink k c) ≡ is_some (find_in k c)
  unfolding unlink find_in
  unlink-contains k [] = refl
  unlink-contains k (n ∷ c) = ground (arith, unlink-contains k c)

  -- how often a node is in a bucket
  abbrev pub held : ℕ → List (Cell K V) → ℕ
  held x [] = 0
  held x (n ∷ c) = one_if_same n.address x + held x c

  pub held-append : (x : ℕ) (c d : List (Cell K V)) → held x (c ++ d) ≡ held x c + held x d
  held-append x [] d = omega arith
  held-append x (n ∷ c) d = omega (arith, held-append x c d)

  unfoldable Taken : ℕ → K → K → List (Cell K V) → List (Cell K V) → Type 0
  Taken a k q c c' =
      ((x : ℕ) → held x c ≡ one_if_same a x + held x c')
      × ((k =? q) ≡ false → find_in q c' ≡ find_in q c)

  Taken-cons :
      (a : ℕ) (k q : K) (n : Cell K V) (c c' : List (Cell K V))
      → Taken a k q c c'
      → Taken a k q (n ∷ c) (n ∷ c')
  unfolding find_in Taken
  Taken-cons a k q n c c' (one, same) = (λ x. omega (arith, one x), λ e. rw (same e) refl)

  module _ (k : K) (n : Cell K V) (c : List (Cell K V)) where
    unlink_here : (n.key =? k) ≡ true → unlink k (n ∷ c) ≡ some (n.address, c)
    unfolding unlink
    unlink_here here = rw here refl

    unlink_missing : (n.key =? k) ≡ false → unlink k c ≡ none → unlink k (n ∷ c) ≡ none
    unfolding unlink
    unlink_missing there missing = rw (there, missing) refl

    unlink_further :
        (a : ℕ) (d : List (Cell K V))
        → (n.key =? k) ≡ false
        → unlink k c ≡ some (a, d)
        → unlink k (n ∷ c) ≡ some (a, n ∷ d)
    unfolding unlink
    unlink_further a d there found = rw (there, found) refl

  unlink-nil : (k : K) → unlink {V = V} k [] ≡ none
  unfolding unlink
  unlink-nil k = refl

  result-Taken :
      (k q : K) (c c' d : List (Cell K V)) (a b : ℕ)
      → Path (Option (ℕ × List (Cell K V))) (some (b, d)) (some (a, c'))
      → Taken b k q c d
      → Taken a k q c c'
  result-Taken k q c c' d a b e t =
      subst (λ (r : ℕ × List (Cell K V)). Taken r.0 k q c r.1) (some-injective e) t

  first-Taken :
      (k q : K) (n : Cell K V) (c : List (Cell K V))
      → (n.key =? k) ≡ true
      → Taken n.address k q (n ∷ c) c
  unfolding Taken find_in
  first-Taken k q n c here = (λ x. refl, λ e. rw (other_key n.key k q here e) refl)

  unlink-Taken :
      (k q : K) (c c' : List (Cell K V)) (a : ℕ) → unlink k c ≡ some (a, c') → Taken a k q c c'
  unlink-Taken k q [] c' a e =
      let got : Path (Option (ℕ × List (Cell K V))) none (some (a, c')) = sym (unlink-nil k) ∙ e in
      cc
  unlink-Taken k q (n ∷ c) c' a e = elim (Bool-cases (n.key =? k)) [
    | inl here ↦
        result-Taken k q (n ∷ c) c' c a n.address (sym (unlink_here k n c here) ∙ e)
          (first-Taken k q n c here)
    | inr there ↦ elim (Option-cases (unlink k c)) [
      | inl missing ↦
          let got : Path (Option (ℕ × List (Cell K V))) none (some (a, c')) =
            sym (unlink_missing k n c there missing) ∙ e in
          cc
      | inr ((b, d), found) ↦
          result-Taken k q (n ∷ c) c' (n ∷ d) a b (sym (unlink_further k n c b d there found) ∙ e)
            (Taken-cons b k q n c d (unlink-Taken k q c d b found))
    ]
  ]

  -- Unlinking takes one node out, and no other key with it.
  pub unlink_lem :
      (k q : K) (c c' : List (Cell K V)) (a : ℕ)
      → unlink k c ≡ some (a, c')
      → ((x : ℕ) → held x c ≡ one_if_same a x + held x c')
        × ((k =? q) ≡ false → find_in q c' ≡ find_in q c)
  unfolding Taken
  unlink_lem k q c c' a e = unlink-Taken k q c c' a e

module _ {K V : Type 0} ⦃key : Key K⦄ where
  -- how often a node is in the buckets
  abbrev pub nodes : ℕ → List (List (Cell K V)) → ℕ
  nodes x [] = 0
  nodes x (c ∷ cs) = held x c + nodes x cs

  pub nodes-set :
      (x : ℕ) (cs : List (List (Cell K V))) (i : ℕ) (c : List (Cell K V))
      → i < length cs
      → nodes x (set cs i c) + held x (get_or cs i []) ≡ nodes x cs + held x c
  nodes-set x [] i c h = absurd (omega arith)
  nodes-set x (d ∷ cs) zero c h = omega arith
  nodes-set x (d ∷ cs) (suc i) c h = omega (arith, nodes-set x cs i c (omega arith))
