-- ===== src/Queue/Mpmc/Trip.antt =====
-- CustomMPMCLockFreeQueue (HFT/Queue.hpp): its constructor, and messages on their way through it.
use git_docs_test.Common.{
  ℕ, zero, suc, ◌+◌, ◌-◌, ◌^◌, ◌≤◌, ◌<◌, ◌≡◌, refl, sym, ap, ◌∙◌, Bool, true, Option, List, [], ◌∷◌,
  ◌++◌, length, length-append, get_or, Result, ok, ◌>>=◌, Returns, IsPowerOfTwo, capacity_accepted,
  bit_and-power, arith,
}
use mathlib.Core.List.{append-nil, append_assoc}
use native.Mathlib.Nat.{mod-eq_of_lt}
use git_docs_test.Queue.Fifo
use git_docs_test.Queue.Ring.{word_sub}
use git_docs_test.Queue.Mpmc.{Mpmc, blank, numbered, cell_at, new, enqueue, dequeue}
use git_docs_test.Queue.Mpmc.Cells.{IsValid, exchanges}
use git_docs_test.Queue.Mpmc.Steps.{contents, contents-empty}
use git_docs_test.Queue.Mpmc.Refine.{fifo_room, mpmc_enqueue, mpmc_dequeue}

module _ {ℓ} (A : Type ℓ) where
  length-numbered : (i n : ℕ) → length (numbered {A = A} i n) ≡ n
  unfolding numbered
  length-numbered i zero = refl
  length-numbered i (suc n) = ap suc (length-numbered (i + 1) n)

  get_or-numbered : (i n j : ℕ) → j < n → (get_or (numbered {A = A} i n) j blank).seq ≡ i + j
  unfolding numbered
  get_or-numbered i zero j lt = absurd (omega arith)
  get_or-numbered i (suc n) zero lt = omega arith
  get_or-numbered i (suc n) (suc j) lt = get_or-numbered (i + 1) n j (omega arith) ∙ omega arith

module _ {ℓ} {A : Type ℓ} where
  abbrev pub made : ℕ → Mpmc A
  made n = record { buffer = numbered 0 n; head = 0; tail = 0; capacity = n; mask = word_sub n 1 }

  pub made-IsValid : (n : ℕ) → n < 2 ^ 64 → 2 ≤ n → IsPowerOfTwo n → IsValid (made n)
  unfolding cell_at
  made-IsValid n lt several p =
      let masked : word_sub n 1 ≡ n - 1 = omega arith in
      record {
        power = p;
        small = lt;
        several = several;
        masked = masked;
        width = length-numbered A 0 n;
        ordered = omega arith;
        bounded = omega arith;
        filled = λ r lo hi. absurd (omega arith);
        vacant = λ r lo hi.
            rw (masked, bit_and-power n r p, mod-eq_of_lt {n = r} {m = n} (omega arith))
              (get_or-numbered A 0 n r (omega arith) ∙ omega arith);
      }

  -- The constructor accepts a capacity that is a power of two, and makes a queue that holds nothing.
  pub new_lem :
      (n : ℕ)
      → n < 2 ^ 64
      → 2 ≤ n
      → IsPowerOfTwo n
      → Returns
          (new {A = A} n)
          (λ q. IsValid q × (contents q ≡ []) × (q.tail ≡ 0) × (q.capacity ≡ n))
  unfolding new
  new_lem n lt several p = (
    made n,
    rw (capacity_accepted n lt p) refl,
    (made-IsValid n lt several p, contents-empty (made n) refl, refl, refl),
  )

  -- messages enqueued one after the other
  unfoldable pub send : List Bool → Mpmc A → List (Option A) → Result (Mpmc A)
  unfolding enqueue
  send rounds q [] = ok q
  send rounds q (p ∷ ps) = enqueue rounds q p >>= λ (sent, q'). send rounds q' ps

  -- `n` messages dequeued one after the other
  unfoldable pub receive : List Bool → Mpmc A → ℕ → Result (List (Option A))
  unfolding dequeue
  receive rounds q zero = ok []
  receive rounds q (suc n) =
      dequeue rounds q >>= λ (p, q'). receive rounds q' n >>= λ ps. ok (p ∷ ps)

  one_more :
      (n : ℕ) (xs : List (Option A)) (p : Option A) (b : Bool) (ys : List (Option A))
      → length xs < n
      → (b, ys) ≡ Fifo.enqueue n xs p
      → ys ≡ xs ++ (p ∷ [])
  unfolding Fifo.enqueue
  one_more n xs p b ys lt e = ap (λ r. r.1) (e ∙ fifo_room n xs p lt)

  send_lem :
      (rounds : List Bool) (q : Mpmc A) (ps : List (Option A))
      → IsValid q
      → q.tail + length ps + 1 < 2 ^ 63
      → length (contents q) + length ps ≤ q.capacity
      → exchanges rounds ≡ true
      → Returns
          (send rounds q ps)
          (λ q'. IsValid q' × (q'.tail + 1 < 2 ^ 63) × (contents q' ≡ contents q ++ ps))
  unfolding send
  send_lem rounds q [] v small room e = (q, refl, (v, omega arith, sym (append-nil (contents q))))
  send_lem rounds q (p ∷ ps) v small room e =
      let ((b, q'), run, (v', cap, tail', fifo)) = mpmc_enqueue rounds q p v (omega arith) e in
      let held : contents q' ≡ contents q ++ (p ∷ []) =
        one_more q.capacity (contents q) p b (contents q') (omega arith) fifo in
      let grown : length (contents q') ≡ length (contents q) + 1 =
        ap length held ∙ length-append (contents q) (p ∷ []) in
      let (q'', run', (v'', small'', held'')) =
        send_lem rounds q' ps v' (omega arith) (omega (arith, cap, grown)) e in
      (
        q'',
        ap (λ r. r >>= λ (sent, q'). send rounds q' ps) run ∙ run',
        (v'', small'', held'' ∙ ap (λ xs. xs ++ ps) held ∙ append_assoc (contents q) (p ∷ []) ps),
      )

  receive_lem :
      (rounds : List Bool) (q : Mpmc A) (ps : List (Option A))
      → IsValid q
      → q.tail + 1 < 2 ^ 63
      → contents q ≡ ps
      → exchanges rounds ≡ true
      → receive rounds q (length ps) ≡ ok ps
  unfolding receive Fifo.dequeue
  receive_lem rounds q [] v small held e = refl
  receive_lem rounds q (p ∷ ps) v small held e =
      let ((p', q'), run, (v', tail', fifo)) = mpmc_dequeue rounds q v small e in
      let first = fifo ∙ ap Fifo.dequeue held in
      ap (λ r. r >>= λ (p, q'). receive rounds q' (length ps) >>= λ ps. ok (p ∷ ps)) run
      ∙ ap (λ r. r >>= λ ps. ok (p' ∷ ps))
          (receive_lem rounds q' ps v' (omega (arith, tail')) (ap (λ r. r.1) first) e)
      ∙ ap (λ x. ok (x ∷ ps)) (ap (λ r. r.0) first)

  -- Any messages for which a queue in order has cells, sent through it while it holds nothing and its
  -- counters stay below 2^63, are received in the order in which they were sent.
  pub round_trip :
      (rounds : List Bool) (q : Mpmc A) (ps : List (Option A))
      → IsValid q
      → contents q ≡ []
      → q.tail + length ps + 1 < 2 ^ 63
      → length ps ≤ q.capacity
      → exchanges rounds ≡ true
      → (send rounds q ps >>= λ q'. receive rounds q' (length ps)) ≡ ok ps
  round_trip rounds q ps v nothing small room e =
      let (q', run, (v', small', held)) =
        send_lem rounds q ps v small (omega (arith, ap length nothing)) e in
      ap (λ r. r >>= λ q'. receive rounds q' (length ps)) run
      ∙ receive_lem rounds q' ps v' small' (held ∙ ap (λ xs. xs ++ ps) nothing) e
