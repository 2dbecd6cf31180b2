-- ===== src/Study/SharedPtr/Cells.antt =====
-- Study/weak_ptr_impl.cpp: the control blocks and their counts, for given numbers of the pointers to
-- each block.
use git_docs_test.Common.{
  ℕ, zero, suc, ◌+◌, ◌-◌, ◌^◌, ◌≤◌, ◌<◌, ◌≡◌, ◌≢◌, refl, sym, ap, ◌∙◌, subst, true, Option, none,
  some, List, [], ◌∷◌, get_elem?, get_elem?-set_self, get_elem?-set_ne, set, length, ◌==◌,
  if◌then◌else◌, Bool-cases, inl, inr, ok, pos, ◌+ℤ◌, ◌-ℤ◌, arith,
}
use git_docs_test.Study.SharedPtr.{Block, Heap, increment, decrement, block_at, write_block}

pub increment_pos : (n : ℕ) → n + 1 < 2 ^ 31 → increment (pos n) ≡ ok (pos (n + 1))
unfolding increment ◌+ℤ◌
increment_pos n lt = ground arith

pub decrement_pos : (n : ℕ) → 0 < n → n < 2 ^ 31 → decrement (pos n) ≡ ok (pos (n - 1))
unfolding decrement ◌-ℤ◌
decrement_pos n some_left lt = ground arith

-- the weak reference that the SharedPtrs of a block hold together
abbrev pub one_if : ℕ → ℕ
one_if zero = 0
one_if (suc n) = 1

-- A block with `m` SharedPtrs and `w` WeakPtrs.
pub record IsCounted (block : Block) (m w : ℕ) : Type 0 where
  pub shared : block.shared_count ≡ pos m
  pub weak : block.weak_count ≡ pos (w + one_if m)
  pub used : 0 < m + w

-- No pointer leads to a block that was deleted, or was not made.
abbrev pub CellCounted : Option (Option Block) → ℕ → ℕ → Type 0
CellCounted none m w = (m ≡ 0) × (w ≡ 0)
CellCounted (some none) m w = (m ≡ 0) × (w ≡ 0)
CellCounted (some (some block)) m w = IsCounted block m w

pub record HeapCounted (heap : Heap) (m w : ℕ → ℕ) : Type 0 where
  pub cells : (a : ℕ) → CellCounted (get_elem? heap.blocks a) (m a) (w a)

-- A block with a pointer to it is there.
pub there :
    (cell : Option (Option Block)) (m w : ℕ)
    → CellCounted cell m w
    → 0 < m + w
    → (block : Block) × (cell ≡ some (some block)) × IsCounted block m w
there none m w (e, e') used = absurd (omega arith)
there (some none) m w (e, e') used = absurd (omega arith)
there (some (some block)) m w c used = (block, refl, c)

pub block_at_there :
    (heap : Heap) (a : ℕ) (block : Block)
    → get_elem? heap.blocks a ≡ some (some block)
    → block_at heap a ≡ ok block
unfolding block_at
block_at_there heap a block e = rw (block_at, e) refl

pub in_range : {A : Type 0} (xs : List A) (i : ℕ) (x : A) → get_elem? xs i ≡ some x → i < length xs
in_range [] i x e = cc
in_range (y ∷ xs) zero x e = omega arith
in_range (y ∷ xs) (suc i) x e = omega (arith, in_range xs i x e)

-- A write to a block that is there: the other blocks keep their counts.
pub written :
    (heap : Heap) (a : ℕ) (old : Option Block) (cell : Option Block) (m w m' w' : ℕ → ℕ)
    → HeapCounted heap m w
    → get_elem? heap.blocks a ≡ some old
    → CellCounted (some cell) (m' a) (w' a)
    → ((b : ℕ) → a ≢ b → (m' b ≡ m b) × (w' b ≡ w b))
    → HeapCounted (write_block heap a cell) m' w'
unfolding write_block
written heap a old cell m w m' w' h e c others = record {
  cells = λ b. elim (Bool-cases (a == b)) [
    | inl same ↦
        let here : a ≡ b = ground arith in
        subst (λ x. CellCounted (get_elem? (set heap.blocks a cell) x) (m' x) (w' x)) here
          (rw (get_elem?-set_self heap.blocks a cell (in_range heap.blocks a old e)) c)
    | inr other ↦
        let apart : a ≢ b = λ eq. let hit : (a == b) ≡ true = ground arith in cc in
        rw (get_elem?-set_ne heap.blocks cell apart, (others b apart).0, (others b apart).1)
          (h.cells b)
  ];
}

-- how often a pointer leads to a block
abbrev pub own : ℕ → Option ℕ → ℕ
own b none = 0
own b (some a) = if a == b then 1 else 0

pub own_self : (a : ℕ) → own a (some a) ≡ 1
own_self a = ground arith

pub own_le : (b a : ℕ) → own b (some a) ≤ 1
own_le b a = ground arith

pub own_held : (a b : ℕ) (m : ℕ → ℕ) → 0 < m a → own b (some a) ≤ m b
own_held a b m lt = elim (Bool-cases (a == b)) [
  | inl e ↦
      let here : a ≡ b = ground arith in
      subst (λ x. own x (some a) ≤ m x) here (omega (arith, own_self a))
  | inr e ↦ rw e (omega arith)
]

pub own_other : (a b : ℕ) → a ≢ b → own b (some a) ≡ 0
own_other a b ne = ground arith

pub one_if_pos : (n : ℕ) → 0 < n → one_if n ≡ 1
one_if_pos zero lt = absurd (omega arith)
one_if_pos (suc n) lt = refl

pub one_if_le : (n : ℕ) → one_if n ≤ 1
one_if_le zero = omega arith
one_if_le (suc n) = omega arith

-- The block after a count was changed.
pub reshared :
    (block : Block) (m w n : ℕ)
    → IsCounted block m w
    → 0 < m
    → 0 < n
    → IsCounted (record block { shared_count = pos n }) n w
reshared block m w n k lt lt' = record {
  shared = refl;
  weak = k.weak ∙ ap (λ x. pos (w + x)) (one_if_pos m lt ∙ sym (one_if_pos n lt'));
  used = omega arith;
}

pub reweighed :
    (block : Block) (m w n : ℕ)
    → IsCounted block m w
    → 0 < m + n
    → IsCounted (record block { weak_count = pos (n + one_if m) }) m n
reweighed block m w n k used = record { shared = k.shared; weak = refl; used = used }

pub same_counts :
    (heap : Heap) (m w m' w' : ℕ → ℕ)
    → HeapCounted heap m w
    → ((b : ℕ) → m' b ≡ m b)
    → ((b : ℕ) → w' b ≡ w b)
    → HeapCounted heap m' w'
same_counts heap m w m' w' h e e' = record { cells = λ b. rw (e b, e' b) (h.cells b) }
