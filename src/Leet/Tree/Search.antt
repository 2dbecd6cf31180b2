-- ===== src/Leet/Tree/Search.antt =====
-- Leet/leet1382_bst.cpp: insertion keeps the search order and adds one element.
use git_docs_test.Common.{
  ℕ, ◌+◌, ◌≡◌, Bool, true, false, if◌then◌else◌, Bool-cases, inl, inr, arith,
}
use git_docs_test.Leet.Tree.{Tree, nil, node, insert}

module _ {ℓ} {T : Type ℓ} where
  abbrev pub All : (T → Type 0) → Tree T → Type 0
  All P nil = Unit {0}
  All P (node x left right) = P x × All P left × All P right

  -- What is left of a node is less than it, and what is right of it is not.
  abbrev pub IsSearch : (T → T → Bool) → Tree T → Type 0
  IsSearch less nil = Unit {0}
  IsSearch less (node x left right) =
      All (λ y. less y x ≡ true) left
      × All (λ y. less y x ≡ false) right
      × IsSearch less left
      × IsSearch less right

  -- how many elements pass the test
  abbrev pub count : (T → Bool) → Tree T → ℕ
  count p nil = 0
  count p (node x left right) = (if p x then 1 else 0) + count p left + count p right

  All-insert :
      (less : T → T → Bool) (P : T → Type 0) (t : Tree T) (v : T)
      → All P t
      → P v
      → All P (insert less t v)
  unfolding insert
  All-insert less P nil v a p = (p, tt, tt)
  All-insert less P (node x left right) v (px, al, ar) p =
      elim (less v x)
        as (λ b. All P (elim b [
          | true ↦ node x (insert less left v) right
          | false ↦ node x left (insert less right v)
        ])) [
          | true ↦ (px, All-insert less P left v al p, ar)
          | false ↦ (px, al, All-insert less P right v ar p)
        ]

  -- An insertion keeps the search order of the tree.
  pub insert-IsSearch :
      (less : T → T → Bool) (t : Tree T) (v : T) → IsSearch less t → IsSearch less (insert less t v)
  unfolding insert
  insert-IsSearch less nil v h = (tt, tt, tt, tt)
  insert-IsSearch less (node x left right) v (below, above, sl, sr) = elim (Bool-cases (less v x)) [
    | inl lt ↦
        rw (lt, insert)
          (
            All-insert less (λ y. less y x ≡ true) left v below lt,
            above,
            insert-IsSearch less left v sl,
            sr,
          )
    | inr ge ↦
        rw (ge, insert)
          (
            below,
            All-insert less (λ y. less y x ≡ false) right v above ge,
            sl,
            insert-IsSearch less right v sr,
          )
  ]

  -- An insertion adds its value once, and keeps what was there.
  pub count-insert :
      (less : T → T → Bool) (p : T → Bool) (t : Tree T) (v : T)
      → count p (insert less t v) ≡ count p t + (if p v then 1 else 0)
  unfolding insert
  count-insert less p nil v = omega arith
  count-insert less p (node x left right) v = elim (Bool-cases (less v x)) [
    | inl lt ↦ rw (lt, insert) (omega (arith, count-insert less p left v))
    | inr ge ↦ rw (ge, insert) (omega (arith, count-insert less p right v))
  ]
