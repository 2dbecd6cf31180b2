-- ===== src/Study/SharedPtr/Releases.antt =====
-- Study/weak_ptr_impl.cpp: what `release` of a SharedPtr and of a WeakPtr does to the control blocks.
use git_docs_test.Common.{
  ℕ, zero, suc, ◌+◌, ◌-◌, ◌^◌, ◌<◌, ◌≡◌, ◌≢◌, refl, ap, ◌∙◌, false, ◌&&◌, Option, none, some,
  get_elem?, ◌==◌, if◌then◌else◌, Bool-cases, inl, inr, ok, Returns, pos, eqb_ℤ, arith,
}
use git_docs_test.Study.SharedPtr.{
  Block, Heap, write_block, delete_object, delete_shared, release_shared, release_weak,
}
use git_docs_test.Study.SharedPtr.Cells.{
  one_if, IsCounted, CellCounted, HeapCounted, own, decrement_pos, there, block_at_there, written,
  own_self, own_other, one_if_pos, one_if_le, reshared, reweighed, same_counts,
}

HeapCounted-delete_object :
    (heap : Heap) (p : Option ℕ) (m w : ℕ → ℕ)
    → HeapCounted heap m w
    → HeapCounted (delete_object heap p) m w
unfolding delete_object
HeapCounted-delete_object heap none m w h = h
HeapCounted-delete_object heap (some object) m w h = record { cells = h.cells }

blocks-delete_object : (heap : Heap) (p : Option ℕ) → (delete_object heap p).blocks ≡ heap.blocks
unfolding delete_object
blocks-delete_object heap none = refl
blocks-delete_object heap (some object) = refl

-- What is left of a block without a SharedPtr.
left_over :
    (n : ℕ)
    → CellCounted
        (some (
          if eqb_ℤ (pos n) (pos 0)
          then none
          else some (record { ptr = none; shared_count = pos 0; weak_count = pos n })))
        0
        n
left_over zero = (refl, refl)
left_over (suc n) =
    let more : eqb_ℤ (pos (suc n)) (pos 0) ≡ false = ground arith in
    rw more record { shared = refl; weak = ap pos (omega arith); used = omega arith }

-- Without a SharedPtr the object is deleted, and the block too if there is no WeakPtr.
delete_shared_lem :
    (heap : Heap) (a : ℕ) (block : Block) (m w m' : ℕ → ℕ)
    → HeapCounted heap m w
    → get_elem? heap.blocks a ≡ some (some block)
    → block.weak_count ≡ pos (w a + 1)
    → w a + 1 < 2 ^ 31
    → m' a ≡ 0
    → ((b : ℕ) → a ≢ b → m' b ≡ m b)
    → Returns
        (delete_shared heap a (record block { shared_count = pos 0 }))
        (λ heap'. HeapCounted heap' m' w)
unfolding delete_shared
delete_shared_lem heap a block m w m' h e weak small gone others =
    let cell : Option Block =
      if eqb_ℤ (pos (w a)) (pos 0)
      then none
      else some (record { ptr = none; shared_count = pos 0; weak_count = pos (w a) }) in
    let less : w a + 1 - 1 ≡ w a = omega arith in
    (
      write_block (delete_object heap block.ptr) a cell,
      rw (weak, decrement_pos (w a + 1) (omega arith) small, less) refl,
      written (delete_object heap block.ptr) a (some block) cell m w m' w
          (HeapCounted-delete_object heap block.ptr m w h)
          (ap (λ bs. get_elem? bs a) (blocks-delete_object heap block.ptr) ∙ e)
          (rw gone (left_over (w a))) (λ b ne. (others b ne, refl)),
    )

zero_test : (n : ℕ) → eqb_ℤ (pos n) (pos 0) ≡ (n == 0)
zero_test n = ground arith

-- The last SharedPtr of a block, and one that is not the last.
release_last :
    (heap : Heap) (a : ℕ) (block : Block) (m : ℕ)
    → get_elem? heap.blocks a ≡ some (some block)
    → block.shared_count ≡ pos m
    → m ≡ 1
    → release_shared heap (some a) ≡ delete_shared heap a (record block { shared_count = pos 0 })
unfolding release_shared
release_last heap a block m e k one =
    rw
      (
        release_shared,
        block_at_there heap a block e,
        k,
        one,
        decrement_pos 1 (omega arith) (omega arith),
      )
      refl

release_more :
    (heap : Heap) (a : ℕ) (block : Block) (m n : ℕ)
    → get_elem? heap.blocks a ≡ some (some block)
    → block.shared_count ≡ pos m
    → m < 2 ^ 31
    → m - 1 ≡ n
    → 0 < n
    → release_shared heap (some a)
      ≡ ok (write_block heap a (some (record block { shared_count = pos n })))
unfolding release_shared
release_more heap a block m n e k small less more =
    let test : eqb_ℤ (pos n) (pos 0) ≡ false = ground arith in
    rw
      (
        release_shared,
        block_at_there heap a block e,
        k,
        decrement_pos m (omega arith) small,
        less,
        test,
      )
      refl

pub release_shared_lem :
    (heap : Heap) (c : Option ℕ) (m w m' : ℕ → ℕ)
    → HeapCounted heap m w
    → ((b : ℕ) → m b ≡ m' b + own b c)
    → ((b : ℕ) → m b + w b + 1 < 2 ^ 31)
    → Returns (release_shared heap c) (λ heap'. HeapCounted heap' m' w)
unfolding release_shared
release_shared_lem heap none m w m' h less small =
    (heap, refl, same_counts heap m w m' w h (λ b. omega (arith, less b)) (λ b. refl))
release_shared_lem heap (some a) m w m' h less small =
    let one = own_self a in
    let (block, e, k) =
      there (get_elem? heap.blocks a) (m a) (w a) (h.cells a) (omega (arith, less a)) in
    let others : (b : ℕ) → a ≢ b → m' b ≡ m b = λ b ne. omega (arith, less b, own_other a b ne) in
    elim (Bool-cases (m' a == 0)) [
      | inl last ↦
          let gone : m' a ≡ 0 = ground arith in
          let held : one_if (m a) ≡ 1 = one_if_pos (m a) (omega (arith, less a)) in
          let (heap', ran, k') =
            delete_shared_lem heap a block m w m' h e (k.weak ∙ ap (λ x. pos (w a + x)) held)
              (omega (arith, small a, less a)) gone others in
          (heap', release_last heap a block (m a) e k.shared (omega (arith, less a)) ∙ ran, k')
      | inr more ↦
          let some_left : 0 < m' a = ground arith in
          (
            write_block heap a (some (record block { shared_count = pos (m' a) })),
            release_more heap a block (m a) (m' a) e k.shared (omega (arith, small a))
                (omega (arith, less a)) some_left,
            written heap a (some block) (some (record block { shared_count = pos (m' a) })) m w m' w
                h e (reshared block (m a) (w a) (m' a) k (omega (arith, less a)) some_left)
                (λ b ne. (others b ne, refl)),
          )
    ]

-- What is left of a block after a WeakPtr was released.
left_weak :
    (block : Block) (m w n : ℕ)
    → IsCounted block m w
    → CellCounted
        (some (
          if eqb_ℤ (pos m) (pos 0) && eqb_ℤ (pos (n + one_if m)) (pos 0)
          then none
          else some (record block { weak_count = pos (n + one_if m) })))
        m
        n
left_weak block zero w zero k = (refl, refl)
left_weak block zero w (suc n) k =
    let more : eqb_ℤ (pos (suc n + 0)) (pos 0) ≡ false = ground arith in
    rw more (reweighed block zero w (suc n) k (omega arith))
left_weak block (suc m) w n k =
    let more : eqb_ℤ (pos (suc m)) (pos 0) ≡ false = ground arith in
    rw more (reweighed block (suc m) w n k (omega arith))

release_weak_run :
    (heap : Heap) (a : ℕ) (block : Block) (m x y : ℕ)
    → get_elem? heap.blocks a ≡ some (some block)
    → block.shared_count ≡ pos m
    → block.weak_count ≡ pos x
    → 0 < x
    → x < 2 ^ 31
    → x - 1 ≡ y
    → release_weak heap (some a)
      ≡ ok (
          write_block heap a (
            if eqb_ℤ (pos m) (pos 0) && eqb_ℤ (pos y) (pos 0)
            then none
            else some (record block { weak_count = pos y })))
unfolding release_weak
release_weak_run heap a block m x y e k k' held small less =
    rw (release_weak, block_at_there heap a block e, k', decrement_pos x held small, less, k) refl

pub release_weak_lem :
    (heap : Heap) (c : Option ℕ) (m w w' : ℕ → ℕ)
    → HeapCounted heap m w
    → ((b : ℕ) → w b ≡ w' b + own b c)
    → ((b : ℕ) → m b + w b + 1 < 2 ^ 31)
    → Returns (release_weak heap c) (λ heap'. HeapCounted heap' m w')
unfolding release_weak
release_weak_lem heap none m w w' h less small =
    (heap, refl, same_counts heap m w m w' h (λ b. refl) (λ b. omega (arith, less b)))
release_weak_lem heap (some a) m w w' h less small =
    let one = own_self a in
    let (block, e, k) =
      there (get_elem? heap.blocks a) (m a) (w a) (h.cells a) (omega (arith, less a)) in
    let cell : Option Block =
      if eqb_ℤ (pos (m a)) (pos 0) && eqb_ℤ (pos (w' a + one_if (m a))) (pos 0)
      then none
      else some (record block { weak_count = pos (w' a + one_if (m a)) }) in
    (
      write_block heap a cell,
      release_weak_run heap a block (m a) (w a + one_if (m a)) (w' a + one_if (m a)) e k.shared
          k.weak (omega (arith, less a)) (omega (arith, small a, one_if_le (m a)))
          (omega (arith, less a)),
      written heap a (some block) cell m w m w' h e (left_weak block (m a) (w a) (w' a) k)
          (λ b ne. (refl, omega (arith, less b, own_other a b ne))),
    )
