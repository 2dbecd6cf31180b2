-- ===== src/Study/SharedPtr/Counts.antt =====
-- Study/weak_ptr_impl.cpp: what a further pointer does to the control blocks.
use git_docs_test.Common.{
  ℕ, ◌+◌, ◌^◌, ◌≤◌, ◌<◌, ◌≡◌, refl, ap, ◌∙◌, subst, Bool, true, false, Option, none, some,
  get_elem?, ◌==◌, if◌then◌else◌, Bool-cases, inl, inr, ok, ◌>>=◌, Returns, pos, eqb_ℤ, ltb_ℤ,
  arith,
}
use git_docs_test.Study.SharedPtr.{
  Block, Heap, write_block, add_shared, add_weak, expired, from_weak, lock,
}
use git_docs_test.Study.SharedPtr.Cells.{
  one_if, IsCounted, HeapCounted, own, own_le, own_held, increment_pos, there, block_at_there,
  written, own_self, own_other, one_if_le, reshared, reweighed, same_counts,
}

pub add_shared_lem :
    (heap : Heap) (c : Option ℕ) (m w m' : ℕ → ℕ)
    → HeapCounted heap m w
    → ((b : ℕ) → m' b ≡ m b + own b c)
    → ((b : ℕ) → m' b < 2 ^ 31)
    → ((b : ℕ) → own b c ≤ m b)
    → Returns (add_shared heap c) (λ heap'. HeapCounted heap' m' w)
unfolding add_shared
add_shared_lem heap none m w m' h grown small held =
    (heap, refl, same_counts heap m w m' w h (λ b. omega (arith, grown b)) (λ b. refl))
add_shared_lem heap (some a) m w m' h grown small held =
    let one = own_self a in
    let (block, e, k) =
      there (get_elem? heap.blocks a) (m a) (w a) (h.cells a) (omega (arith, held a)) in
    let block' : Block = record block { shared_count = pos (m a + 1) } in
    (
      write_block heap a (some block'),
      rw
          (
            block_at_there heap a block e,
            k.shared,
            increment_pos (m a) (omega (arith, grown a, small a)),
          )
          refl,
      written heap a (some block) (some block') m w m' w h e
          (subst (λ n. IsCounted block' n (w a)) {x = m a + 1} {y = m' a} (omega (arith, grown a))
            (reshared block (m a) (w a) (m a + 1) k (omega (arith, held a)) (omega arith)))
          (λ b ne. (omega (arith, grown b, own_other a b ne), refl)),
    )

pub add_weak_lem :
    (heap : Heap) (c : Option ℕ) (m w w' : ℕ → ℕ)
    → HeapCounted heap m w
    → ((b : ℕ) → w' b ≡ w b + own b c)
    → ((b : ℕ) → w' b + 1 < 2 ^ 31)
    → ((b : ℕ) → own b c ≤ m b + w b)
    → Returns (add_weak heap c) (λ heap'. HeapCounted heap' m w')
unfolding add_weak
add_weak_lem heap none m w w' h grown small held =
    (heap, refl, same_counts heap m w m w' h (λ b. refl) (λ b. omega (arith, grown b)))
add_weak_lem heap (some a) m w w' h grown small held =
    let one = own_self a in
    let (block, e, k) =
      there (get_elem? heap.blocks a) (m a) (w a) (h.cells a) (omega (arith, held a)) in
    let block' : Block = record block { weak_count = pos (w' a + one_if (m a)) } in
    let sum : w a + one_if (m a) + 1 ≡ w' a + one_if (m a) = omega (arith, grown a) in
    (
      write_block heap a (some block'),
      rw
          (
            block_at_there heap a block e,
            k.weak,
            increment_pos (w a + one_if (m a)) (omega (arith, grown a, small a, one_if_le (m a))),
            sum,
          )
          refl,
      written heap a (some block) (some block') m w m w' h e
          (reweighed block (m a) (w a) (w' a) k (omega (arith, grown a)))
          (λ b ne. (refl, omega (arith, grown b, own_other a b ne))),
    )

expired_run :
    (heap : Heap) (a : ℕ) (block : Block) (m : ℕ)
    → get_elem? heap.blocks a ≡ some (some block)
    → block.shared_count ≡ pos m
    → expired heap (some a) ≡ ok (eqb_ℤ (pos m) (pos 0))
unfolding expired
expired_run heap a block m e k = rw (expired, block_at_there heap a block e, k) refl

from_weak_run :
    (heap heap' : Heap) (a : ℕ) (block : Block) (m : ℕ)
    → get_elem? heap.blocks a ≡ some (some block)
    → block.shared_count ≡ pos m
    → 0 < m
    → add_shared heap (some a) ≡ ok heap'
    → from_weak heap (some a) ≡ ok (heap', some a)
unfolding from_weak
from_weak_run heap heap' a block m e k more added =
    let test : ltb_ℤ (pos 0) (pos m) ≡ true = ground arith in
    rw (block_at_there heap a block e, k, test, added) refl

lock_run :
    (heap : Heap) (c : Option ℕ) (gone : Bool)
    → expired heap c ≡ ok gone
    → lock heap c ≡ (if gone then ok (heap, none) else from_weak heap c)
unfolding lock
lock_run heap c gone e =
    ap (λ r. r >>= λ gone. if gone then ok (heap, none) else from_weak heap c) e

expired-none : (heap : Heap) → expired heap none ≡ ok true
unfolding expired
expired-none heap = refl

-- The SharedPtr that `lock` returns is counted.
pub lock_lem :
    (heap : Heap) (c : Option ℕ) (m w : ℕ → ℕ)
    → HeapCounted heap m w
    → ((b : ℕ) → own b c ≤ w b)
    → ((b : ℕ) → m b + 1 < 2 ^ 31)
    → Returns (lock heap c) (λ (heap', h). HeapCounted heap' (λ b. m b + own b h) w)
lock_lem heap none m w h held small = (
  (heap, none),
  lock_run heap none true (expired-none heap),
  same_counts heap m w (λ b. m b + 0) w h (λ b. omega arith) (λ b. refl),
)
lock_lem heap (some a) m w h held small =
    let one = own_self a in
    let (block, e, k) =
      there (get_elem? heap.blocks a) (m a) (w a) (h.cells a) (omega (arith, held a)) in
    elim (Bool-cases (m a == 0)) [
      | inl gone ↦
          let test : eqb_ℤ (pos (m a)) (pos 0) ≡ true = ground arith in
          (
            (heap, none),
            lock_run heap (some a) true
                (expired_run heap a block (m a) e k.shared ∙ ap (λ b. ok b) test),
            same_counts heap m w (λ b. m b + 0) w h (λ b. omega arith) (λ b. refl),
          )
      | inr more ↦
          let test : eqb_ℤ (pos (m a)) (pos 0) ≡ false = ground arith in
          let some_left : 0 < m a = ground arith in
          let (heap', added, k') =
            add_shared_lem heap (some a) m w (λ b. m b + own b (some a)) h (λ b. refl)
              (λ b. omega (arith, small b, own_le b a)) (λ b. own_held a b m some_left) in
          (
            (heap', some a),
            lock_run heap (some a) false
                  (expired_run heap a block (m a) e k.shared ∙ ap (λ b. ok b) test)
                ∙ from_weak_run heap heap' a block (m a) e k.shared some_left added,
            k',
          )
    ]
