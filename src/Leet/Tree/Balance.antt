-- ===== src/Leet/Tree/Balance.antt =====
-- Leet/leet1382_bst.cpp: balancing keeps the elements in order and makes the tree as low as it can be.
use native.Mathlib.Nat.{pow-suc}
use mathlib.Core.List.{append_assoc, append-nil}
use git_docs_test.Common.{
  ℕ, zero, suc, ◌+◌, ◌-◌, ◌/◌, ◌%◌, undefined, ◌^◌, ◌<◌, ◌≤◌, ◌≡◌, refl, sym, ap, ap₂, subst, ◌∙◌,
  true, false, List, [], ◌∷◌, ◌++◌, length, length-append, if◌then◌else◌, arith, ltb, Result, ok,
  ◌>>=◌, Returns,
}
use git_docs_test.Leet.Tree.{
  Tree, nil, node, inorder_onto, depth_below, inorder_traversal, element, balance, balance_tree,
}

below : (a b : ℕ) → a < b → ltb a b ≡ true
below a b h = ground arith

not_below : (a b : ℕ) → b ≤ a → ltb a b ≡ false
not_below a b h = ground arith

max_le : {a b j : ℕ} → a ≤ j → b ≤ j → 1 + (if ltb b a then a else b) ≤ suc j
max_le {a} {b} ha hb = ground arith

module _ {ℓ} {T : Type ℓ} where
  -- the elements from left to right
  abbrev pub flatten : Tree T → List T
  flatten nil = []
  flatten (node x left right) = flatten left ++ (x ∷ flatten right)

  pub inorder_onto-flatten : (t : Tree T) (vec : List T) → inorder_onto t vec ≡ vec ++ flatten t
  unfolding inorder_onto
  inorder_onto-flatten nil vec = sym (append-nil vec)
  inorder_onto-flatten (node x left right) vec =
      inorder_onto-flatten right (inorder_onto left vec ++ (x ∷ []))
      ∙ ap (λ v. (v ++ (x ∷ [])) ++ flatten right) (inorder_onto-flatten left vec)
      ∙ append_assoc (vec ++ flatten left) (x ∷ []) (flatten right)
      ∙ append_assoc vec (flatten left) (x ∷ flatten right)

  -- `xs` around its element `i`
  record Middle (xs : List T) (i : ℕ) : Type ℓ where
    before : List T
    at : T
    after : List T
    whole : xs ≡ before ++ (at ∷ after)
    position : length before ≡ i

  split_at : (xs : List T) (i : ℕ) → i < length xs → Middle xs i
  split_at [] i h = absurd (omega arith)
  split_at (x ∷ xs) zero h = record {
    before = [];
    at = x;
    after = xs;
    whole = refl;
    position = refl;
  }
  split_at (x ∷ xs) (suc i) h =
      let m = split_at xs i (omega arith) in
      record {
        before = x ∷ Middle.before m;
        at = Middle.at m;
        after = Middle.after m;
        whole = ap (x ∷◌) (Middle.whole m);
        position = ap (λ (n : ℕ). suc n) (Middle.position m);
      }

  element-append :
      (before : List T) (x : T) (after : List T)
      → element (before ++ (x ∷ after)) (length before) ≡ ok x
  unfolding element
  element-append [] x after = refl
  element-append (y ∷ before) x after = element-append before x after

  -- A balanced tree of the elements `xs`.
  record IsBalanced (xs : List T) (t : Tree T) : Type ℓ where
    pub elements : flatten t ≡ xs
    pub low : (k : ℕ) → length xs < 2 ^ k → depth_below t ≤ k

  IsBalanced-nil : IsBalanced [] nil
  unfolding depth_below
  IsBalanced-nil = record { elements = refl; low = λ k h. omega arith }

  half_low :
      (before after : List T) (x : T) (k : ℕ)
      → length after ≤ 1 + length before
      → length (before ++ (x ∷ after)) < 2 ^ k
      → (j : ℕ) × (k ≡ suc j) × (length after < 2 ^ j)
  half_low before after x zero h₁ h₂ = absurd (omega (arith, length-append before (x ∷ after), h₂))
  half_low before after x (suc j) h₁ h₂ =
      (j, refl, omega (arith, length-append before (x ∷ after), pow-suc 2 j, h₂))

  IsBalanced-node :
      {before after : List T} {left right : Tree T} (x : T)
      → IsBalanced before left
      → IsBalanced after right
      → length before ≤ length after
      → length after ≤ 1 + length before
      → IsBalanced (before ++ (x ∷ after)) (node x left right)
  unfolding depth_below
  IsBalanced-node {before} {after} {left} {right} x l r h h' = record {
    elements = ap₂ (λ a b. a ++ (x ∷ b)) (IsBalanced.elements l) (IsBalanced.elements r);
    low = λ k lt.
        let (j, e, small) = half_low before after x k h' lt in
        subst (λ k. depth_below (node x left right) ≤ k) (sym e)
          (max_le (IsBalanced.low l j (omega arith)) (IsBalanced.low r j small));
  }

  -- A call under its test, which is whether there are elements left.
  under_test :
      (call : Result (Tree T)) (xs : List T) (i j : ℕ)
      → j ≡ i + length xs
      → (0 < length xs → Returns call (IsBalanced xs))
      → Returns (if ltb i j then call else ok nil) (IsBalanced xs)
  under_test call [] i j e h = rw (not_below i j (omega arith)) (nil, refl, IsBalanced-nil)
  under_test call (x ∷ xs) i j e h = rw (below i j (omega arith)) (h (omega arith))

  regroup_left :
      (before ys : List T) (x : T) (zs after : List T)
      → before ++ ((ys ++ (x ∷ zs)) ++ after) ≡ before ++ (ys ++ (x ∷ (zs ++ after)))
  regroup_left before ys x zs after = ap (before ++◌) (append_assoc ys (x ∷ zs) after)

  regroup_right :
      (before ys : List T) (x : T) (zs after : List T)
      → before ++ ((ys ++ (x ∷ zs)) ++ after) ≡ (before ++ (ys ++ (x ∷ []))) ++ (zs ++ after)
  regroup_right before ys x zs after =
      regroup_left before ys x zs after
      ∙ ap (before ++◌) (sym (append_assoc ys (x ∷ []) (zs ++ after)))
      ∙ sym (append_assoc before (ys ++ (x ∷ [])) (zs ++ after))

  regroup_at :
      (before ys : List T) (x : T) (zs after : List T)
      → before ++ ((ys ++ (x ∷ zs)) ++ after) ≡ (before ++ ys) ++ (x ∷ (zs ++ after))
  regroup_at before ys x zs after =
      regroup_left before ys x zs after ∙ sym (append_assoc before ys (x ∷ (zs ++ after)))

  -- the middle element and the calls for the two sides, put together
  join :
      (fuel : ℕ) (order ys : List T) (x : T) (zs : List T) (left right : ℕ)
      → element order ((right - left) / 2 + left) ≡ ok x
      → Returns
          (if ltb left ((right - left) / 2 + left)
            then balance fuel order left ((right - left) / 2 + left - 1)
            else ok nil)
          (IsBalanced ys)
      → Returns
          (if ltb ((right - left) / 2 + left) right
            then balance fuel order ((right - left) / 2 + left + 1) right
            else ok nil)
          (IsBalanced zs)
      → length ys ≤ length zs
      → length zs ≤ 1 + length ys
      → Returns (balance (suc fuel) order left right) (IsBalanced (ys ++ (x ∷ zs)))
  unfolding balance
  join fuel order ys x zs left right at (l, el, bl) (r, er, br) h h' =
      rw (at, el, er) (node x l r, refl, IsBalanced-node x bl br h h')

  -- a call for the elements `xs` between `before` and `after`
  balance-IsBalanced :
      (fuel : ℕ) (before xs after order : List T) (left right : ℕ)
      → order ≡ before ++ (xs ++ after)
      → left ≡ length before
      → right + 1 ≡ left + length xs
      → left ≤ right
      → length xs ≤ fuel
      → Returns (balance fuel order left right) (IsBalanced xs)
  balance-IsBalanced zero before xs after order left right e₁ e₂ n le h = absurd (omega arith)
  balance-IsBalanced (suc fuel) before xs after order left right e₁ e₂ n le h =
      let m = split_at xs ((right - left) / 2) (omega arith) in
      let ys = Middle.before m in
      let x = Middle.at m in
      let zs = Middle.after m in
      let mid = (right - left) / 2 + left in
      let pos : length ys ≡ (right - left) / 2 = Middle.position m in
      let whole : length xs ≡ length ys + suc (length zs) =
        ap length (Middle.whole m) ∙ length-append ys (x ∷ zs) in
      let e : order ≡ before ++ ((ys ++ (x ∷ zs)) ++ after) =
        e₁ ∙ ap (λ s. before ++ (s ++ after)) (Middle.whole m) in
      let at : element order mid ≡ ok x =
        ap₂ element (e ∙ regroup_at before ys x zs after) (omega (arith, length-append before ys))
        ∙ element-append (before ++ ys) x (zs ++ after) in
      let l = under_test (balance fuel order left (mid - 1)) ys left mid (omega arith) (λ some_left.
        balance-IsBalanced fuel before ys (x ∷ (zs ++ after)) order left (mid - 1)
          (e ∙ regroup_left before ys x zs after) e₂ (omega arith) (omega arith) (omega arith)) in
      let r =
        under_test (balance fuel order (mid + 1) right) zs mid right (omega arith) (λ some_left.
          balance-IsBalanced fuel (before ++ (ys ++ (x ∷ []))) zs after order (mid + 1) right
            (e ∙ regroup_right before ys x zs after)
            (omega (arith, length-append before (ys ++ (x ∷ [])), length-append ys (x ∷ [])))
            (omega arith) (omega arith) (omega arith)) in
      subst (λ s. Returns (balance (suc fuel) order left right) (IsBalanced s))
        (sym (Middle.whole m))
        (join fuel order ys x zs left right at l r (omega arith) (omega arith))

  -- `inorder_traversal` of a tree that has a node
  inorder_traversal-flatten :
      (x : T) (left right : Tree T)
      → inorder_traversal (node x left right) [] ≡ ok (flatten (node x left right))
  unfolding inorder_traversal
  inorder_traversal-flatten x left right = ap ok (inorder_onto-flatten (node x left right) [])

  -- Balancing a tree that has a node, of fewer than `2 ^ k` elements and fewer than 2^31, gives a tree with the same
  -- elements in the same order, whose depth is at most `k`.
  pub balance_tree_lem :
      (k : ℕ) (x : T) (left right : Tree T)
      → length (flatten (node x left right)) < 2 ^ k
      → length (flatten (node x left right)) < 2 ^ 31
      → Returns
          (balance_tree (node x left right))
          (λ t. (flatten t ≡ flatten (node x left right)) × (depth_below t ≤ k))
  unfolding balance_tree
  balance_tree_lem k x left right h small =
      let xs = flatten (node x left right) in
      let some_x : 0 < length xs =
        omega (arith, length-append (flatten left) (x ∷ flatten right)) in
      let (t, e, b) =
        balance-IsBalanced (length xs) [] xs [] xs 0 (length xs % 2 ^ 32 - 1) (sym (append-nil xs))
          refl (omega arith) (omega arith) (omega arith) in
      let rest : List T → Result (Tree T) = λ inorder.
        if ltb (length inorder % 2 ^ 32) (2 ^ 31)
        then balance (length inorder) inorder 0 (length inorder % 2 ^ 32 - 1)
        else undefined in
      subst (λ call. Returns (call >>= rest) (λ t. (flatten t ≡ xs) × (depth_below t ≤ k)))
        (sym (inorder_traversal-flatten x left right))
        (
          t,
          rw (below (length xs % 2 ^ 32) (2 ^ 31) (omega arith)) e,
          (IsBalanced.elements b, IsBalanced.low b k h),
        )
