-- ===== src/HashMap/Fixed/Laws.antt =====
-- HFT/HashMap.hpp, class FixedSizedChainingHashMap: its operations, and the nodes of its pool.
use git_docs_test.Common.{
  ℕ, ◌≡◌, refl, sym, ap, ◌∙◌, true, false, none, some, List, [], ◌∷◌, ◌++◌, set, if◌then◌else◌, ok,
  Returns, Option-cases, inl, inr, arith,
}
use git_docs_test.HashMap.Key.{Key, ◌=?◌}
use git_docs_test.HashMap.Contract.{is_some}
use git_docs_test.HashMap.Fixed.Chains.{
  or_else, IsValid, find_in-append, find_in-set, unlink_lem, unlink-contains,
}
use git_docs_test.HashMap.Fixed.{
  Cell, Fixed, index, bucket, find_in, unlink, append_node, insert, erase, find,
}

module _ {K V : Type 0} ⦃key : Key K⦄ where
  pub find_lem : (m : Fixed K V) (k : K) → find m k ≡ find_in k (bucket m k)
  unfolding find
  find_lem m k = refl

  -- the map with a node of the key at the end of its bucket
  abbrev pub linked : Fixed K V → K → V → ℕ → List ℕ → Fixed K V
  linked m k v node rest = record m {
    free_nodes = rest;
    buckets =
        set m.buckets (index m k)
          (bucket m k ++ (record { address = node; key = k; value = v } ∷ []));
  }

  pub append_node_lem :
      (m : Fixed K V) (k : K) (v : V) (node : ℕ) (rest : List ℕ)
      → m.free_nodes ≡ node ∷ rest
      → append_node m k v ≡ ok (linked m k v node rest)
  unfolding append_node
  append_node_lem m k v node rest e = rw e refl

  find-linked :
      (m : Fixed K V) (k q : K) (v : V) (node : ℕ) (rest : List ℕ)
      → IsValid m
      → find (linked m k v node rest) q ≡ (if k =? q then some (or_else (find m k) v) else find m q)
  find-linked m k q v node rest valid =
      rw (find_lem, find_lem m q, find_lem m k)
        (find_in-set m (linked m k v node rest) k q _ valid refl refl
            (λ e. rw (find_in-append k q v node (bucket m k), e))
          ∙ ground (arith, find_in-append k q v node (bucket m k)))

  -- With a free node, `insert` returns a map in which a key that was missing has the new value and
  -- a key that was there keeps its old one; the other keys are left alone.
  pub insert_lem :
      (m : Fixed K V) (k : K) (v : V) (node : ℕ) (rest : List ℕ)
      → IsValid m
      → m.free_nodes ≡ node ∷ rest
      → Returns
          (insert m k v)
          (λ m'. (q : K) → find m' q ≡ (if k =? q then some (or_else (find m k) v) else find m q))
  unfolding insert
  insert_lem m k v node rest valid e = (
    linked m k v node rest,
    append_node_lem m k v node rest e,
    λ q. find-linked m k q v node rest valid,
  )

  -- the map without a node in the bucket of the key
  abbrev pub unlinked : Fixed K V → K → ℕ → List (Cell K V) → Fixed K V
  unlinked m k node c = record m {
    buckets = set m.buckets (index m k) c;
    free_nodes = node ∷ m.free_nodes;
  }

  pub erase-missing :
      (m : Fixed K V) (k : K) → unlink k (bucket m k) ≡ none → erase m k ≡ (false, m)
  unfolding erase
  erase-missing m k e = rw (e, erase) refl

  pub erase-found :
      (m : Fixed K V) (k : K) (a : ℕ) (c : List (Cell K V))
      → unlink k (bucket m k) ≡ some (a, c)
      → erase m k ≡ (true, unlinked m k a c)
  unfolding erase
  erase-found m k a c e = rw (e, erase) refl

  found_lem : (m : Fixed K V) (k : K) → is_some (unlink k (bucket m k)) ≡ is_some (find m k)
  found_lem m k = rw find_lem (unlink-contains k (bucket m k))

  -- `erase` leaves the other keys alone; its answer says whether the key was there.
  pub erase_lem :
      (m : Fixed K V) (k q : K)
      → IsValid m
      → ((erase m k).0 ≡ is_some (find m k)) × ((k =? q) ≡ false → find (erase m k).1 q ≡ find m q)
  erase_lem m k q valid = elim (Option-cases (unlink k (bucket m k))) [
    | inl missing ↦
        rw (erase-missing m k missing) (ap is_some (sym missing) ∙ found_lem m k, λ e. refl)
    | inr ((a, c), found) ↦ rw (erase-found m k a c found) (
      ap is_some (sym found) ∙ found_lem m k,
      λ e.
          rw (find_lem (unlinked m k a c) q, find_lem m q)
            (find_in-set m (unlinked m k a c) k q c valid refl refl
                (unlink_lem k q (bucket m k) c a found).1
              ∙ rw e refl),
    )
  ]
