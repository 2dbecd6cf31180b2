-- ===== src/Feed/Sequencer/Faults.antt =====
-- HFT/TickerServer/ITCHTradeReceiver.cpp: where TradeDataSequencer sends on out of sequence.
use git_docs_test.Common.{
  ℕ, zero, suc, ◌+◌, ◌-◌, ◌%◌, ◌^◌, ◌≤◌, ◌<◌, ◌≡◌, refl, ap, subst, map, ◌∙◌, true, Option, none,
  some, List, [], ◌∷◌, ◌++◌, length, lt→ltb, ok, ◌>>=◌, arith,
}
use git_docs_test.Queue.Fifo
use git_docs_test.Feed.Store.Replay.{NumberedFrom}
use git_docs_test.Feed.Message.{TradeMsg}
use git_docs_test.Feed.Sequencer.{
  Event, closed, Recovery, Sequencer, finished, forward, receive_recovery_messages, recover,
  send_recovery_request, after_recovery, round, run, waiting,
}
use git_docs_test.Feed.Sequencer.Order.{InSequence, IsOrdered, forward_lem}
use git_docs_test.Feed.Sequencer.Gaps.{round_gap, round_next, not_lt}

module _ {Double : Type 0} (capacity : ℕ) where
  last_InSequence :
      (q : List (Option (TradeMsg Double))) (m : TradeMsg Double) (next : ℕ)
      → InSequence (q ++ (some m ∷ [])) next
      → m.sequence_number + 1 ≡ next
  last_InSequence [] m next h = omega (arith, h.0)
  last_InSequence (none ∷ q) m next h = absurd h
  last_InSequence (some x ∷ q) m next h = last_InSequence q m next h.1

  received_closed :
      (left : ℕ) (s : Sequencer Double) (es : List (Event Double))
      → receive_recovery_messages capacity left s (closed ∷ es) ≡ ok (finished s)
  unfolding receive_recovery_messages
  received_closed zero s es = refl
  received_closed (suc left) s es = refl

  recover_closed :
      (start end : ℕ) (s : Sequencer Double) (es : List (Event Double))
      → recover capacity start end s (record { sent = true; answer = λ request. closed ∷ es })
        ≡ ok (finished s)
  unfolding recover send_recovery_request
  recover_closed start end s es = received_closed _ s es

  -- When the recovery server closes the connection before it sent anything and the send queue has room,
  -- the message behind the gap is sent on all the same, and counted as the missing one: the queue is
  -- not in sequence.
  pub closed_recovery :
      (s : Sequencer Double) (m : TradeMsg Double) (es : List (Event Double))
      → s.next_sequence < m.sequence_number
      → m.sequence_number < 2 ^ 64
      → length s.send_queue < capacity
      → (s' : Sequencer Double) × (round capacity s
            (some m)
            (record { sent = true; answer = λ request. closed ∷ es })
          ≡ ok (finished s'))
        × (s'.send_queue ≡ s.send_queue ++ (some m ∷ []))
        × (s'.next_sequence ≡ s.next_sequence + 1)
        × ¬ IsOrdered s'
  unfolding after_recovery
  closed_recovery s m es gap word room =
      let r : Recovery Double = record { sent = true; answer = λ request. closed ∷ es } in
      let s' : Sequencer Double = record s {
        send_queue = s.send_queue ++ (some m ∷ []);
        next_sequence = s.next_sequence + 1;
      } in
      let recovered =
        recover_closed s.next_sequence ((m.sequence_number + 2 ^ 64 - 1) % 2 ^ 64) s es in
      (
        s',
        round_gap capacity s m r (lt→ltb s.next_sequence m.sequence_number gap)
            ∙ ap (λ q. q >>= λ p. ok (after_recovery capacity m p)) recovered
            ∙ ap (λ t. ok (finished t)) (forward_lem capacity s m room (omega arith)),
        refl,
        refl,
        λ o. omega (arith, last_InSequence s.send_queue m s'.next_sequence o.in_sequence),
      )

  -- When the send queue is full, the next message in sequence is not sent on, and is counted.
  full_queue :
      (s : Sequencer Double) (m : TradeMsg Double) (r : Recovery Double)
      → m.sequence_number ≡ s.next_sequence
      → s.next_sequence + 1 < 2 ^ 64
      → capacity ≤ length s.send_queue
      → round capacity s (some m) r
        ≡ ok (finished (record s { next_sequence = s.next_sequence + 1 }))
  unfolding forward Fifo.enqueue
  full_queue s m r same small full =
      round_next capacity s m r same
      ∙ rw (not_lt (length s.send_queue) capacity full)
          (ap (λ (k : ℕ). ok (finished (record s { next_sequence = k }))) (omega arith))

  run_finished :
      (s s' : Sequencer Double) (m : TradeMsg Double) (r : Recovery Double)
      (rounds : List (Option (TradeMsg Double) × Recovery Double))
      → round capacity s (some m) r ≡ ok (finished s')
      → run capacity s ((some m, r) ∷ rounds) ≡ run capacity s' rounds
  unfolding run
  run_finished s s' m r rounds e =
      ap
        (λ q. q >>= λ p. elim p [ waiting t ↦ ok (waiting t) | finished t ↦ run capacity t rounds ])
        e

  -- While the send queue is full, a run of the sequencer over messages that arrive in sequence, whose
  -- numbers do not wrap, returns with the queue as it was and every one of the messages counted as
  -- sent.
  pub lost_messages :
      (s : Sequencer Double) (ms : List (TradeMsg Double)) (r : Recovery Double)
      → NumberedFrom s.next_sequence ms
      → s.next_sequence + length ms < 2 ^ 64
      → capacity ≤ length s.send_queue
      → run capacity s (map (λ m. (some m, r)) ms)
        ≡ ok (finished (record s { next_sequence = s.next_sequence + length ms }))
  unfolding run
  lost_messages s [] r numbered small full =
      ap (λ (k : ℕ). ok (finished (record s { next_sequence = k }))) (omega arith)
  lost_messages s (m ∷ ms) r numbered small full =
      let s' : Sequencer Double = record s { next_sequence = s.next_sequence + 1 } in
      run_finished s s' m r (map (λ m. (some m, r)) ms)
        (full_queue s m r numbered.0 (omega arith) full)
      ∙ lost_messages s' ms r
          (subst (λ (k : ℕ). NumberedFrom k ms) {x = suc s.next_sequence} {y = s.next_sequence + 1}
            (omega arith) numbered.1)
          (omega arith) full
      ∙ ap (λ (k : ℕ). ok (finished (record s { next_sequence = k }))) (omega arith)
