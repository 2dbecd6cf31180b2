-- ===== src/Feed/Sequencer/Order.antt =====
-- HFT/TickerServer/ITCHTradeReceiver.cpp: sequence numbers in the queue that TradeDataSequencer
-- fills, and what a recovery adds to it.
use git_docs_test.Common.{
  ℕ, zero, suc, ◌+◌, ◌^◌, ◌≤◌, ◌<◌, ◌≡◌, refl, ap, Option, none, some, List, [], ◌∷◌, ◌++◌, length,
  length-append, lt→ltb, ◌==◌, ok, arith, subst, ok-injective, bind_ok, Bool-cases, inl, inr,
  ==_iff,
}
use git_docs_test.Queue.Fifo
use git_docs_test.Feed.Message.{TradeMsg}
use git_docs_test.Feed.Sequencer.{
  Event, arrived, partial, closed, exhausted, timed_out, no_answer, Sequencer, finished, waiting,
  forward, on_recovered_msg, receive_recovery_messages,
}

module _ {Double : Type 0} where
  -- The messages in the queue are numbered in sequence, up to the one before `next`.
  abbrev pub InSequence : List (Option (TradeMsg Double)) → ℕ → Type 0
  InSequence [] next = Unit {0}
  InSequence (none ∷ q) next = ⊥
  InSequence (some m ∷ q) next = (m.sequence_number + length q + 1 ≡ next) × InSequence q next

  pub InSequence-snoc :
      (q : List (Option (TradeMsg Double))) (m : TradeMsg Double) (next : ℕ)
      → InSequence q next
      → m.sequence_number ≡ next
      → InSequence (q ++ (some m ∷ [])) (next + 1)
  InSequence-snoc [] m next h e = (omega (arith, e), tt)
  InSequence-snoc (none ∷ q) m next h e = absurd h
  InSequence-snoc (some x ∷ q) m next h e =
      (omega (arith, h.0, length-append q (some m ∷ [])), InSequence-snoc q m next h.1 e)

  -- What the sequencer has to send: the queue is in sequence, and the numbers do not wrap.
  pub record IsOrdered (s : Sequencer Double) : Type 0 where
    pub in_sequence : InSequence s.send_queue s.next_sequence
    pub word : s.next_sequence < 2 ^ 64

  module _ (capacity : ℕ) where
    -- `forward`, while the queue has room and the counter does not wrap
    pub forward_lem :
        (s : Sequencer Double) (m : TradeMsg Double)
        → length s.send_queue < capacity
        → s.next_sequence + 1 < 2 ^ 64
        → forward capacity s m ≡ record s {
          send_queue = s.send_queue ++ (some m ∷ []);
          next_sequence = s.next_sequence + 1;
        }
    unfolding forward Fifo.enqueue
    forward_lem s m room small = rw (lt→ltb (length s.send_queue) capacity room) (
        ap (λ (k : ℕ). record s { send_queue = s.send_queue ++ (some m ∷ []); next_sequence = k })
          (omega arith))

  -- The recovery server keeps answering: no round of the loop ends it early.
  abbrev pub Answers : List (Event Double) → Type 0
  Answers [] = Unit {0}
  Answers (arrived m ∷ es) = Answers es
  Answers (partial ∷ es) = Answers es
  Answers (closed ∷ es) = ⊥
  Answers (exhausted ∷ es) = ⊥
  Answers (timed_out ∷ es) = Answers es
  Answers (no_answer ∷ es) = ⊥

  -- `s'` is `s` with `n` more messages, in sequence
  pub record Extends (n : ℕ) (s s' : Sequencer Double) : Type 0 where
    pub ordered : IsOrdered s'
    pub advanced : s'.next_sequence ≡ s.next_sequence + n
    pub grown : length s'.send_queue ≡ length s.send_queue + n

  pub finished-injective : {s s' : Sequencer Double} → finished s ≡ finished s' → s ≡ s'
  finished-injective {s} e = ap (λ p. elim p [ finished t ↦ t | waiting t ↦ t ]) e

  module _ (capacity : ℕ) where
    pub pushed-Extends :
        {s : Sequencer Double} (m : TradeMsg Double)
        → IsOrdered s
        → length s.send_queue < capacity
        → s.next_sequence + 1 < 2 ^ 64
        → m.sequence_number ≡ s.next_sequence
        → Extends 1 s (forward capacity s m)
    pushed-Extends {s} m o room small e = rw (forward_lem capacity s m room small) (record {
      ordered = record {
        in_sequence = InSequence-snoc s.send_queue m s.next_sequence o.in_sequence e;
        word = small;
      };
      advanced = refl;
      grown = omega (arith, length-append s.send_queue (some m ∷ []));
    })

    pub recovered_next :
        (s s₁ : Sequencer Double) (m : TradeMsg Double)
        → on_recovered_msg capacity s m ≡ ok s₁
        → (m.sequence_number ≡ s.next_sequence) × (forward capacity s m ≡ s₁)
    unfolding on_recovered_msg
    recovered_next s s₁ m e = elim (Bool-cases (m.sequence_number == s.next_sequence)) [
      | inl same ↦ ((==_iff m.sequence_number s.next_sequence).0 same, ok-injective (rw same at e))
      | inr other ↦ cc (rw other at e)
    ]

    pub Extends-on :
        {n : ℕ} {s t u : Sequencer Double} → Extends 1 s t → Extends n t u → Extends (suc n) s u
    Extends-on x y = record {
      ordered = y.ordered;
      advanced = omega (arith, x.advanced, y.advanced);
      grown = omega (arith, x.grown, y.grown);
    }

    pub receive-Extends :
        (left : ℕ) {s s' : Sequencer Double} (es : List (Event Double))
        → IsOrdered s
        → Answers es
        → length s.send_queue + left ≤ capacity
        → s.next_sequence + left < 2 ^ 64
        → receive_recovery_messages capacity left s es ≡ ok (finished s')
        → Extends left s s'
    unfolding receive_recovery_messages
    receive-Extends zero {s} {s'} es o a room small e =
        subst (Extends 0 s) (finished-injective (ok-injective e))
          (record { ordered = o; advanced = omega arith; grown = omega arith })
    receive-Extends (suc left) [] o a room small e = cc e
    receive-Extends (suc left) {s} {s'} (arrived m ∷ es) o a room small e =
        let (s₁, got, rest) =
          bind_ok (on_recovered_msg capacity s m)
            (λ t. receive_recovery_messages capacity left t es) e in
        let (same, moved) = recovered_next s s₁ m got in
        let step : Extends 1 s s₁ =
          subst (Extends 1 s) moved (pushed-Extends m o (omega arith) (omega arith) same) in
        Extends-on step (
          receive-Extends left es step.ordered a (omega (arith, step.grown))
            (omega (arith, step.advanced)) rest)
    receive-Extends (suc left) (partial ∷ es) o a room small e =
        receive-Extends (suc left) es o a room small e
    receive-Extends (suc left) (closed ∷ es) o a room small e = absurd a
    receive-Extends (suc left) (exhausted ∷ es) o a room small e = absurd a
    receive-Extends (suc left) (timed_out ∷ es) o a room small e =
        receive-Extends (suc left) es o a room small e
    receive-Extends (suc left) (no_answer ∷ es) o a room small e = absurd a
