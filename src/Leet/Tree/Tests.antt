-- ===== src/Leet/Tree/Tests.antt =====
-- Leet/leet1382_bst.cpp on small trees.
use git_docs_test.Common.{ℕ, ◌≤◌, ◌≡◌, refl, List, [], ◌∷◌, ltb, arith, ok, undefined, Returns}
use git_docs_test.Leet.Tree.{
  Tree, nil, node, insert, inorder_traversal, preorder_traversal, postorder_traversal, depth,
  depth_below, balance_tree,
}
use git_docs_test.Leet.Tree.Balance.{flatten, balance_tree_lem}

abbrev grown : List ℕ → Tree ℕ
grown [] = nil
grown (x ∷ xs) = insert ltb (grown xs) x

-- 1, 2, 3, 4, 5 inserted in ascending order
abbrev vine : Tree ℕ
vine = grown (5 ∷ 4 ∷ 3 ∷ 2 ∷ 1 ∷ [])

depth_of_vine : depth vine ≡ ok 5
unfolding depth insert
depth_of_vine = refl

vine_preorder : preorder_traversal vine [] ≡ ok (1 ∷ 2 ∷ 3 ∷ 4 ∷ 5 ∷ [])
unfolding preorder_traversal insert
vine_preorder = refl

balanced_preorder :
    balance_tree vine ≡ ok (node 3 (node 1 nil (node 2 nil nil)) (node 4 nil (node 5 nil nil)))
unfolding balance_tree insert
balanced_preorder = refl

mixed_postorder : postorder_traversal (grown (4 ∷ 1 ∷ 3 ∷ [])) [] ≡ ok (1 ∷ 4 ∷ 3 ∷ [])
unfolding postorder_traversal insert
mixed_postorder = refl

-- The traversal of an empty tree reads through a null pointer.
empty_traversal : inorder_traversal {T = ℕ} nil [] ≡ undefined
unfolding inorder_traversal
empty_traversal = refl

balance_tree_lem_example :
    Returns
      (balance_tree {T = ℕ} (node 1 nil (node 2 nil (node 3 nil nil))))
      (λ t. (flatten t ≡ flatten (node 1 nil (node 2 nil (node 3 nil nil)))) × (depth_below t ≤ 2))
balance_tree_lem_example =
    balance_tree_lem {T = ℕ} 2 1 nil (node 2 nil (node 3 nil nil)) (omega arith) (omega arith)
