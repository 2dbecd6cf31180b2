-- ===== src/HashMap/Fixed.antt =====
-- HFT/HashMap.hpp, class FixedSizedChainingHashMap: buckets chained through the nodes of a pool. A
-- node is an index into `nodesPool_`; a bucket is the list of the nodes that its pointer and their
-- `next` pointers lead through, with what is written in them.
pub mod Chains
pub mod Laws
pub mod Nodes
mod Tests
use Prim.Native.Nat.{bit_and}
use git_docs_test.Common.{
  ℕ, zero, suc, ◌+◌, ◌-◌, ◌*◌, ◌%◌, ◌^◌, Bool, true, false, ◌||◌, not, Option, none, some, List, [],
  ◌∷◌, ◌++◌, get_or, set, replicate, ◌==◌, if◌then◌else◌, Result, ok, throws, ◌>>=◌,
  invalid_capacity, no_free_nodes,
}
use git_docs_test.HashMap.Key.{Key, ◌=?◌}

pub record Cell (K V : Type 0) : Type 0 where
  pub address : ℕ
  pub key : K
  pub value : V

pub record Fixed (K V : Type 0) : Type 0 where
  pub buckets : List (List (Cell K V))
  -- `freeNodes_`, its top first
  pub free_nodes : List ℕ
  pub mask : ℕ

-- the nodes of the pool pushed in turn
unfoldable pub push_nodes : ℕ → List ℕ
push_nodes zero = []
push_nodes (suc n) = n ∷ push_nodes n

module _ {K V : Type 0} ⦃key : Key K⦄ where
  -- The constructor, for any `Const::initBuckets` whose pool is not too large for a `size_t`.
  unfoldable pub new : ℕ → Result (Fixed K V)
  unfolding push_nodes
  new buckets =
      let mask = (buckets + 2 ^ 64 - 1) % 2 ^ 64 in
      let m : Fixed K V = record {
        buckets = replicate buckets [];
        free_nodes = push_nodes (buckets * 16);
        mask = mask;
      } in
      if buckets == 0 || not (bit_and buckets mask == 0) then throws invalid_capacity else ok m

  unfoldable pub index : Fixed K V → K → ℕ
  index m k = bit_and (key.hash k) m.mask

  unfoldable pub bucket : Fixed K V → K → List (Cell K V)
  unfolding index
  bucket m k = get_or m.buckets (index m k) []

  -- The loops over a bucket, which stop at the first node with the key.
  unfoldable pub find_in : K → List (Cell K V) → Option V
  find_in k [] = none
  find_in k (n ∷ c) = let rest = find_in k c in if n.key =? k then some n.value else rest

  unfoldable pub contains_in : K → List (Cell K V) → Bool
  contains_in k [] = false
  contains_in k (n ∷ c) = let rest = contains_in k c in if n.key =? k then true else rest

  -- The loop of `erase`: the node that is unlinked, and the bucket without it.
  unfoldable pub unlink : K → List (Cell K V) → Option (ℕ × List (Cell K V))
  unlink k [] = none
  unlink k (n ∷ c) =
      let rest = unlink k c in
      if n.key =? k
      then some (n.address, c)
      else elim rest [ none ↦ none | some (a, c') ↦ some (a, n ∷ c') ]

  -- A node from the top of the free ones, linked at the end of the bucket of the key.
  unfoldable pub append_node : Fixed K V → K → V → Result (Fixed K V)
  unfolding bucket
  append_node m k v = elim m.free_nodes [
    | [] ↦ throws no_free_nodes
    | node ∷ rest ↦ ok (record m {
      free_nodes = rest;
      buckets =
          set m.buckets (index m k)
            (bucket m k ++ (record { address = node; key = k; value = v } ∷ []));
    })
  ]

  -- `operator[]`: the value of the key, which is added with `Value{}` if it is missing.
  unfoldable pub read_at : V → Fixed K V → K → Result (V × Fixed K V)
  unfolding find_in append_node
  read_at empty m k = elim (find_in k (bucket m k)) [
    | some v ↦ ok (v, m)
    | none ↦ append_node m k empty >>= λ m'. ok (empty, m')
  ]

  unfoldable pub insert : Fixed K V → K → V → Result (Fixed K V)
  unfolding append_node
  insert m k v = append_node m k v

  unfoldable pub contains : Fixed K V → K → Bool
  unfolding contains_in bucket
  contains m k = contains_in k (bucket m k)

  unfoldable pub erase : Fixed K V → K → Bool × Fixed K V
  unfolding unlink bucket
  erase m k = elim (unlink k (bucket m k)) [
    | none ↦ (false, m)
    | some (node, rest) ↦ (
      true,
      record m { buckets = set m.buckets (index m k) rest; free_nodes = node ∷ m.free_nodes },
    )
  ]

  unfoldable pub find : Fixed K V → K → Option V
  unfolding find_in bucket
  find m k = find_in k (bucket m k)
