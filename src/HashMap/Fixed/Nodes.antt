-- ===== src/HashMap/Fixed/Nodes.antt =====
-- HFT/HashMap.hpp, class FixedSizedChainingHashMap: no node of the pool gets lost.
use git_docs_test.Common.{
  ℕ, zero, suc, ◌+◌, ◌-◌, ◌*◌, ◌%◌, ◌^◌, ◌<◌, ◌≡◌, refl, sym, ap, ◌∙◌, List, [], ◌∷◌, ◌++◌,
  length-set, set, replicate, length-replicate, ok, throws, no_free_nodes, Ensures, Ensures-bind,
  Ensures-ok, Ensures-throws, IsPowerOfTwo, Option-cases, inl, inr, arith, ltb, if◌then◌else◌,
  subst, capacity_accepted, mask_of_power, ok-injective,
}
use git_docs_test.HashMap.Key.{Key}
use git_docs_test.HashMap.Fixed.Chains.{
  IsValid, index-lt, unlink_lem, nodes, nodes-set, held, held-append, one_if_same,
}
use git_docs_test.HashMap.Fixed.Laws.{append_node_lem, erase-missing, erase-found, linked, unlinked}
use git_docs_test.HashMap.Fixed.{
  Cell, Fixed, push_nodes, new, index, bucket, find_in, unlink, append_node, insert, erase, read_at,
}

-- how often a node is among the free ones
abbrev pub among : ℕ → List ℕ → ℕ
among x [] = 0
among x (a ∷ free) = one_if_same a x + among x free

among-push_nodes : (n x : ℕ) → among x (push_nodes n) ≡ (if ltb x n then 1 else 0)
unfolding push_nodes
among-push_nodes zero x = ground arith
among-push_nodes (suc n) x = ground (arith, among-push_nodes n x)

nodes-replicate :
    (K V : Type 0) ⦃key : Key K⦄ (x n : ℕ) → nodes {K = K} {V = V} x (replicate n []) ≡ 0
nodes-replicate K V x zero = refl
nodes-replicate K V x (suc n) = omega (arith, nodes-replicate K V x n)

module _ {K V : Type 0} ⦃key : Key K⦄ where
  -- how often a node is in the map, in a bucket or free
  abbrev pub pool : Fixed K V → ℕ → ℕ
  pool m x = nodes x m.buckets + among x m.free_nodes

  nodes-bucket :
      (x : ℕ) (m : Fixed K V) (k : K) (c : List (Cell K V))
      → IsValid m
      → nodes x (set m.buckets (index m k) c) + held x (bucket m k) ≡ nodes x m.buckets + held x c
  unfolding bucket
  nodes-bucket x m k c valid = nodes-set x m.buckets (index m k) c (index-lt m k valid)

  abbrev Keeps : ℕ → Fixed K V → Type 0
  Keeps n m = IsValid m × ((x : ℕ) → pool m x ≡ (if ltb x n then 1 else 0))

  set-IsValid :
      (m m' : Fixed K V) (k : K) (c : List (Cell K V))
      → IsValid m
      → m'.mask ≡ m.mask
      → m'.buckets ≡ set m.buckets (index m k) c
      → IsValid m'
  set-IsValid m m' k c v e e' = record {
    power = rw (e', length-set) v.power;
    masked = rw (e, e', length-set) v.masked;
  }

  linked-Keeps :
      (n : ℕ) (m : Fixed K V) (k : K) (v : V) (node : ℕ) (rest : List ℕ)
      → Keeps n m
      → m.free_nodes ≡ node ∷ rest
      → Keeps n (linked m k v node rest)
  linked-Keeps n m k v node rest (valid, all) e =
      let added = bucket m k ++ (record { address = node; key = k; value = v } ∷ []) in
      (
        set-IsValid m (linked m k v node rest) k added valid refl refl,
        λ x. omega (
          arith,
          nodes-bucket x m k added valid,
          held-append x (bucket m k) (record { address = node; key = k; value = v } ∷ []),
          ap (among x) e,
          all x,
        ),
      )

  append_node-empty :
      (m : Fixed K V) (k : K) (v : V) → m.free_nodes ≡ [] → append_node m k v ≡ throws no_free_nodes
  unfolding append_node
  append_node-empty m k v e = rw e refl

  append_node-Keeps :
      (n : ℕ) (m : Fixed K V) (k : K) (v : V) (free : List ℕ)
      → m.free_nodes ≡ free
      → Keeps n m
      → Ensures (append_node m k v) (Keeps n)
  append_node-Keeps n m k v [] e h = rw (append_node-empty m k v e) Ensures-throws
  append_node-Keeps n m k v (node ∷ rest) e h =
      rw (append_node_lem m k v node rest e) (Ensures-ok (linked-Keeps n m k v node rest h e))

  insert-Keeps :
      (n : ℕ) (m : Fixed K V) (k : K) (v : V) → Keeps n m → Ensures (insert m k v) (Keeps n)
  unfolding insert
  insert-Keeps n m k v h = append_node-Keeps n m k v m.free_nodes refl h

  read_at-Keeps :
      (n : ℕ) (empty : V) (m : Fixed K V) (k : K)
      → Keeps n m
      → Ensures (read_at empty m k) (λ r. Keeps n r.1)
  unfolding read_at
  read_at-Keeps n empty m k h = elim (Option-cases (find_in k (bucket m k))) [
    | inl missing ↦
        rw (missing, read_at)
          (Ensures-bind (append_node m k empty)
            (λ m' e. Ensures-ok ((append_node-Keeps n m k empty m.free_nodes refl h).holds m' e)))
    | inr (v, found) ↦ rw (found, read_at) (Ensures-ok h)
  ]

  erase-Keeps : (n : ℕ) (m : Fixed K V) (k : K) → Keeps n m → Keeps n (erase m k).1
  erase-Keeps n m k (valid, all) = elim (Option-cases (unlink k (bucket m k))) [
    | inl missing ↦ rw (erase-missing m k missing) (valid, all)
    | inr ((a, c), found) ↦ rw (erase-found m k a c found) (
      set-IsValid m (unlinked m k a c) k c valid refl refl,
      λ x.
          omega
            (arith, nodes-bucket x m k c valid, (unlink_lem k k (bucket m k) c a found).0 x, all x),
    )
  ]

  -- The states that a constructed map reaches by calls that return.
  pub data Reached (empty : V) (buckets : ℕ) : Fixed K V → Type 0 where
    made : {m : Fixed K V} → new buckets ≡ ok m → Reached empty buckets m
    inserted :
        {m m' : Fixed K V} (k : K) (v : V)
        → Reached empty buckets m
        → insert m k v ≡ ok m'
        → Reached empty buckets m'
    read :
        {m : Fixed K V} {r : V × Fixed K V} (k : K)
        → Reached empty buckets m
        → read_at empty m k ≡ ok r
        → Reached empty buckets r.1
    erased : {m : Fixed K V} (k : K) → Reached empty buckets m → Reached empty buckets (erase m k).1

  unfoldable fresh : ℕ → Fixed K V
  fresh n = record {
    buckets = replicate n [];
    free_nodes = push_nodes (n * 16);
    mask = (n + 2 ^ 64 - 1) % 2 ^ 64;
  }

  new_lem : (n : ℕ) → IsPowerOfTwo n → n < 2 ^ 64 → new n ≡ ok (fresh n)
  unfolding new fresh
  new_lem n power small = rw (capacity_accepted n small power) refl

  fresh-Keeps : (n : ℕ) → IsPowerOfTwo n → n < 2 ^ 64 → Keeps (n * 16) (fresh n)
  unfolding fresh
  fresh-Keeps n power small = (
    record {
      power = rw length-replicate power;
      masked = rw length-replicate (omega (arith, (mask_of_power n power).0));
    },
    λ x. omega (arith, nodes-replicate K V x n, among-push_nodes (n * 16) x),
  )

  -- In every state that calls reach from a map constructed with a power of two of buckets, below
  -- 2^64, each of the 16 nodes for each bucket is in a bucket once or free once and not both, and no
  -- other node is.
  pub Reached-pool :
      (n : ℕ) (empty : V) (m : Fixed K V)
      → IsPowerOfTwo n
      → n < 2 ^ 64
      → Reached empty n m
      → IsValid m × ((x : ℕ) → pool m x ≡ (if ltb x (n * 16) then 1 else 0))
  Reached-pool n empty m power small (made e) =
      subst (Keeps (n * 16)) (ok-injective (sym (new_lem n power small) ∙ e))
        (fresh-Keeps n power small)
  Reached-pool n empty m power small (inserted {m = b} k v r e) =
      (insert-Keeps (n * 16) b k v (Reached-pool n empty b power small r)).holds m e
  Reached-pool n empty m power small (read {m = b} {r = r} k reached e) =
      (read_at-Keeps (n * 16) empty b k (Reached-pool n empty b power small reached)).holds r e
  Reached-pool n empty m power small (erased {m = b} k r) =
      erase-Keeps (n * 16) b k (Reached-pool n empty b power small r)
