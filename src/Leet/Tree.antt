-- ===== src/Leet/Tree.antt =====
-- Leet/leet1382_bst.cpp, class BST. A null pointer is `nil`; no two pointers share a node. `less v
-- x` is the type's `x > v`. The operations of a null root that read through it are undefined.
pub mod Search
pub mod Balance
mod Tests
use git_docs_test.Common.{
  ℕ, zero, suc, ◌+◌, ◌-◌, ◌/◌, ◌%◌, ◌^◌, Bool, true, false, List, [], ◌∷◌, ◌++◌, Option, none, some,
  get_elem?, length, ltb, if◌then◌else◌, Result, ok, undefined, ◌>>=◌,
}

pub data Tree {ℓ} (T : Type ℓ) : Type ℓ where
  nil : Tree T
  node : T → Tree T → Tree T → Tree T

module _ {ℓ} {T : Type ℓ} where
  -- `insert`, with `__insert` at a node
  unfoldable pub insert : (T → T → Bool) → Tree T → T → Tree T
  insert less nil value = node value nil nil
  insert less (node x left right) value = elim (less value x) [
    | true ↦ node x (insert less left value) right
    | false ↦ node x left (insert less right value)
  ]

  -- The traversals push onto `vec`. These are the calls for a child, which is tested for null.
  unfoldable pub inorder_onto : Tree T → List T → List T
  inorder_onto nil vec = vec
  inorder_onto (node x left right) vec = inorder_onto right (inorder_onto left vec ++ (x ∷ []))

  unfoldable pub preorder_onto : Tree T → List T → List T
  preorder_onto nil vec = vec
  preorder_onto (node x left right) vec = preorder_onto right (preorder_onto left (vec ++ (x ∷ [])))

  unfoldable pub postorder_onto : Tree T → List T → List T
  postorder_onto nil vec = vec
  postorder_onto (node x left right) vec =
      postorder_onto right (postorder_onto left vec) ++ (x ∷ [])

  unfoldable pub depth_below : Tree T → ℕ
  depth_below nil = 0
  depth_below (node x left right) =
      let d₁ = depth_below left in let d₂ = depth_below right in 1 + (if ltb d₂ d₁ then d₁ else d₂)

  -- a call for a root that may be null
  unfoldable pub at_root {κ} : {A : Type κ} → Tree T → A → Result A
  at_root nil a = undefined
  at_root (node x left right) a = ok a

  unfoldable pub inorder_traversal : Tree T → List T → Result (List T)
  unfolding at_root inorder_onto
  inorder_traversal root vec = at_root root (inorder_onto root vec)

  unfoldable pub preorder_traversal : Tree T → List T → Result (List T)
  unfolding at_root preorder_onto
  preorder_traversal root vec = at_root root (preorder_onto root vec)

  unfoldable pub postorder_traversal : Tree T → List T → Result (List T)
  unfolding at_root postorder_onto
  postorder_traversal root vec = at_root root (postorder_onto root vec)

  unfoldable pub depth : Tree T → Result ℕ
  unfolding at_root depth_below
  depth root = at_root root (depth_below root)

  -- `order[mid]`
  unfoldable pub element : List T → ℕ → Result T
  element order mid = elim (get_elem? order mid) [ none ↦ undefined | some value ↦ ok value ]

  -- `__balance`, on fuel for its depth: `left` and `right` are the first and the last index, which
  -- are not negative; no index of a call is above the first `right`, which is an `int`.
  unfoldable pub balance : ℕ → List T → ℕ → ℕ → Result (Tree T)
  unfolding element
  balance zero order left right = undefined
  balance (suc fuel) order left right =
      let mid = (right - left) / 2 + left in
      let on_left = balance fuel order left (mid - 1) in
      let on_right = balance fuel order (mid + 1) right in
      do
        value ← element order mid
        l ← if ltb left mid then on_left else ok nil
        r ← if ltb mid right then on_right else ok nil
        ok (node value l r)

  -- `balance_tree`, whose fuel is the number of nodes. Where `(int)inorder.size()` is negative, so is
  -- the first `mid`, and `order[mid]` is out of range; where it is 0, `mid` is 0 and no call follows.
  unfoldable pub balance_tree : Tree T → Result (Tree T)
  unfolding inorder_traversal balance
  balance_tree root = do
    inorder ← inorder_traversal root []
    let size = length inorder % 2 ^ 32
    if ltb size (2 ^ 31) then balance (length inorder) inorder 0 (size - 1) else undefined
