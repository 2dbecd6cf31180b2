-- ===== src/Queue/Tests.antt =====
-- The queues of HFT/Queue.hpp run on small rings, and their theorems at these inputs.
use Prim.Native.Nat.{bit_and}
use git_docs_test.Common.{ℕ, ◌-◌, ◌^◌, ◌≡◌, refl, false, none, some, [], ◌∷◌, ◌++◌, get_or, arith}
use git_docs_test.Queue.Fifo
use git_docs_test.Queue.Spsc.{Spsc, enqueue, dequeue}
use git_docs_test.Queue.Spsc.Refine.{IsValid, contents, enqueue_refines, dequeue_refines}
use git_docs_test.Queue.Spsc.Threads.{run}
use git_docs_test.Queue.Spsc.Threads.Claims.{Inv, all_published, all_claimed, run_fifo}
use git_docs_test.Queue.Spsc.Threads.Race.{start, overtaking, overtaken}

-- a full ring of two messages whose positions are about to wrap
abbrev full_ring : Spsc ℕ
full_ring = record {
  buffer = some 7 ∷ some 8 ∷ [];
  head = 2 ^ 64 - 2;
  tail = 0;
  capacity = 2;
  mask = 1;
}

full_ring-IsValid : IsValid full_ring
full_ring-IsValid = record {
  power = (1, refl);
  small = omega arith;
  masked = refl;
  width = refl;
  head_word = omega arith;
  tail_word = omega arith;
  bounded = omega arith;
}

full_ring-refuses : (enqueue full_ring (some 9)).0 ≡ false
unfolding enqueue
full_ring-refuses = refl

full_ring-delivers : (dequeue full_ring).0 ≡ some 7
unfolding dequeue
full_ring-delivers = refl

enqueue_refines_example :
    let (b, q') = enqueue full_ring (some 9) in
    (b, contents q') ≡ Fifo.enqueue 2 (contents full_ring) (some 9)
enqueue_refines_example = enqueue_refines {q = full_ring} (some 9) full_ring-IsValid

dequeue_refines_example :
    let (p, q') = dequeue full_ring in (p, contents q') ≡ Fifo.dequeue (contents full_ring)
dequeue_refines_example = dequeue_refines {q = full_ring} full_ring-IsValid

started : Inv (start full_ring)
started = record { valid = full_ring-IsValid; producing = tt; consuming = tt }

run_fifo_example :
    contents full_ring ++ all_published (overtaking (some 9)) (start full_ring)
    ≡ all_claimed (overtaking (some 9)) (start full_ring)
      ++ contents (run (overtaking (some 9)) (start full_ring)).ring
run_fifo_example = run_fifo (overtaking (some 9)) (start full_ring) started

-- 9 is delivered, and 7 is lost
overtaken_example :
    ((run (overtaking (some 9)) (start full_ring)).delivered ≡ some 9 ∷ [])
    × (all_claimed (overtaking (some 9)) (start full_ring)
        ≡ get_or full_ring.buffer (bit_and full_ring.head full_ring.mask) none ∷ [])
overtaken_example = overtaken {r = full_ring} (some 9) full_ring-IsValid refl
