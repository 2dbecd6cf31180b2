-- ===== src/Feed/Sequencer/Gaps.antt =====
-- HFT/TickerServer/ITCHTradeReceiver.cpp: a round of TradeDataSequencer::run closes the gap in front
-- of its message.
use git_docs_test.Common.{
  ℕ, ◌+◌, ◌-◌, ◌%◌, ◌^◌, ◌≤◌, ◌<◌, ◌≡◌, refl, sym, ap, ◌∙◌, true, false, some, length, ltb, ltb→lt,
  ok, Bool, expect, ◌>>◌, request_failed, ◌>>=◌, arith, subst, ok-injective, bind_ok, Bool-cases,
  inl, inr,
}
use git_docs_test.Feed.Message.{TradeMsg, GapRequestMsg}
use git_docs_test.Feed.Sequencer.{
  Recovery, Sequencer, Progress, finished, waiting, forward, receive_recovery_messages, recover,
  send_recovery_request, after_recovery, round,
}
use git_docs_test.Feed.Sequencer.Order.{
  IsOrdered, Answers, Extends, finished-injective, pushed-Extends, receive-Extends,
}

pub not_lt : (a b : ℕ) → b ≤ a → ltb a b ≡ false
not_lt a b h = ground arith

no_gap : (a b : ℕ) → a ≤ b → ltb a b ≡ false → b ≡ a
no_gap a b h k = ground arith

pub recovery_count :
    (next seq : ℕ)
    → next < seq
    → seq < 2 ^ 64
    → ((seq + 2 ^ 64 - 1) % 2 ^ 64 + 2 ^ 64 - next + 1) % 2 ^ 64 ≡ seq - next
recovery_count next seq h k = omega arith

abbrev pub request_for : ℕ → ℕ → GapRequestMsg
request_for start end = record { type = 48; start_seq = start; end_seq = end }

module _ {Double : Type 0} where
  -- `s'` is in sequence up to the message `m`, and nothing was taken from the queue of `s`.
  abbrev pub Reached : TradeMsg Double → Sequencer Double → Sequencer Double → Type 0
  Reached m s s' =
      IsOrdered s'
      × (s'.next_sequence ≡ m.sequence_number + 1)
      × (length s'.send_queue ≡ length s.send_queue + (m.sequence_number + 1 - s.next_sequence))

  -- the request for the gap in front of a message
  abbrev pub gap_request : Sequencer Double → TradeMsg Double → GapRequestMsg
  gap_request s m = request_for s.next_sequence ((m.sequence_number + 2 ^ 64 - 1) % 2 ^ 64)

  module _ (capacity : ℕ) where
    pub round_gap :
        (s : Sequencer Double) (m : TradeMsg Double) (r : Recovery Double)
        → ltb s.next_sequence m.sequence_number ≡ true
        → round capacity s (some m) r ≡ (
            recover capacity s.next_sequence ((m.sequence_number + 2 ^ 64 - 1) % 2 ^ 64) s r
            >>= λ p. ok (after_recovery capacity m p))
    unfolding round
    round_gap s m r gap = rw gap refl

    pub round_next :
        (s : Sequencer Double) (m : TradeMsg Double) (r : Recovery Double)
        → m.sequence_number ≡ s.next_sequence
        → round capacity s (some m) r ≡ ok (finished (forward capacity s m))
    unfolding round
    round_next s m r e =
        rw (not_lt s.next_sequence m.sequence_number (omega (arith, e)))
          (rw (not_lt m.sequence_number s.next_sequence (omega (arith, e))) refl)

    pub recover_received :
        (start end : ℕ) (s : Sequencer Double) (r : Recovery Double) (p : Progress Double)
        → recover capacity start end s r ≡ ok p
        → receive_recovery_messages capacity
            ((end + 2 ^ 64 - start + 1) % 2 ^ 64)
            s
            (r.answer (request_for start end))
          ≡ ok p
    unfolding recover send_recovery_request
    recover_received start end s r p e = by_sent r.sent e
      where
        by_sent :
            (sent : Bool)
            → ((expect sent request_failed >> ok (request_for start end)) >>= λ q.
                receive_recovery_messages capacity
                  ((end + 2 ^ 64 - start + 1) % 2 ^ 64)
                  s
                  (r.answer q))
              ≡ ok p
            → receive_recovery_messages capacity
                ((end + 2 ^ 64 - start + 1) % 2 ^ 64)
                s
                (r.answer (request_for start end))
              ≡ ok p
        by_sent true e = e
        by_sent false e = cc

    after_finished :
        (m : TradeMsg Double) (p : Progress Double) (s' : Sequencer Double)
        → after_recovery capacity m p ≡ finished s'
        → (t : Sequencer Double) × (p ≡ finished t) × (forward capacity t m ≡ s')
    unfolding after_recovery
    after_finished m (finished t) s' e = (t, refl, finished-injective e)
    after_finished m (waiting t) s' e = cc e

    after_gap :
        {s s' : Sequencer Double} (m : TradeMsg Double) (r : Recovery Double)
        → IsOrdered s
        → Answers (r.answer (gap_request s m))
        → ltb s.next_sequence m.sequence_number ≡ true
        → m.sequence_number + 1 < 2 ^ 64
        → length s.send_queue + (m.sequence_number + 1 - s.next_sequence) ≤ capacity
        → round capacity s (some m) r ≡ ok (finished s')
        → Reached m s s'
    after_gap {s} {s'} m r o a gap small room e =
        let next = s.next_sequence in
        let seq = m.sequence_number in
        let lt = ltb→lt next seq gap in
        let (p, recovered, rest) =
          bind_ok (recover capacity next ((seq + 2 ^ 64 - 1) % 2 ^ 64) s r)
            (λ q. ok (after_recovery capacity m q)) (sym (round_gap s m r gap) ∙ e) in
        let (t, at, moved) = after_finished m p s' (ok-injective rest) in
        let got =
          ap (λ (k : ℕ). receive_recovery_messages capacity k s (r.answer (gap_request s m)))
            (sym (recovery_count next seq lt (omega arith)))
          ∙ recover_received next ((seq + 2 ^ 64 - 1) % 2 ^ 64) s r p recovered
          ∙ ap ok at in
        let missing : Extends (seq - next) s t =
          receive-Extends capacity (seq - next) (r.answer (gap_request s m)) o a (omega arith)
            (omega arith) got in
        let last : Extends 1 t s' = subst (Extends 1 t) moved (
          pushed-Extends capacity m missing.ordered (omega (arith, missing.grown))
            (omega (arith, missing.advanced)) (omega (arith, missing.advanced))) in
        (
          last.ordered,
          omega (arith, last.advanced, missing.advanced),
          omega (arith, last.grown, missing.grown),
        )

    at_next :
        {s s' : Sequencer Double} (m : TradeMsg Double) (r : Recovery Double)
        → IsOrdered s
        → m.sequence_number ≡ s.next_sequence
        → m.sequence_number + 1 < 2 ^ 64
        → length s.send_queue + (m.sequence_number + 1 - s.next_sequence) ≤ capacity
        → round capacity s (some m) r ≡ ok (finished s')
        → Reached m s s'
    at_next {s} {s'} m r o same small room e =
        let moved = finished-injective (ok-injective (sym (round_next s m r same) ∙ e)) in
        let last : Extends 1 s s' =
          subst (Extends 1 s) moved
            (pushed-Extends capacity m o (omega (arith, same)) (omega (arith, same)) same) in
        (last.ordered, omega (arith, last.advanced, same), omega (arith, last.grown, same))

    -- A round that returned, for a message that is not an old one, while the recovery server keeps
    -- answering and the queue has room: the queue is in sequence, up to this message.
    pub round-Extends :
        {s s' : Sequencer Double} (m : TradeMsg Double) (r : Recovery Double)
        → IsOrdered s
        → Answers (r.answer (gap_request s m))
        → s.next_sequence ≤ m.sequence_number
        → m.sequence_number + 1 < 2 ^ 64
        → length s.send_queue + (m.sequence_number + 1 - s.next_sequence) ≤ capacity
        → round capacity s (some m) r ≡ ok (finished s')
        → Reached m s s'
    round-Extends {s} {s'} m r o a le small room e =
        elim (Bool-cases (ltb s.next_sequence m.sequence_number)) [
          | inl gap ↦ after_gap m r o a gap small room e
          | inr none_missing ↦ at_next m r o (no_gap _ _ le none_missing) small room e
        ]
