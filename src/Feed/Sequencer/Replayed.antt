-- ===== src/Feed/Sequencer/Replayed.antt =====
-- HFT/TickerServer: the sequencer of the receiver with the replay of the ticker server.
use git_docs_test.Common.{
  ℕ, zero, suc, ◌+◌, ◌-◌, ◌%◌, ◌^◌, ◌≤◌, ◌<◌, ◌≡◌, refl, sym, ap, ◌∙◌, true, some, List, [], ◌∷◌,
  ◌++◌, map, length, length-append, length-take, length-drop, length-map, take, drop, lt→ltb, ok,
  throws, undefined, pos, ◌>>=◌, arith, ==_iff, subst, ap₂,
}
use mathlib.Core.List.{append_assoc, append-nil}
use git_docs_test.Feed.Message.{TradeMsg, GapRequestMsg}
use git_docs_test.Feed.Store.{serve_gap_request, serve_client}
use git_docs_test.Feed.Store.Replay.{NumberedFrom, serve_gap_request_lem}
use git_docs_test.Feed.Sequencer.{
  arrived, Event, Recovery, Sequencer, finished, forward, receive_recovery_messages, recover,
  on_recovered_msg, send_recovery_request, after_recovery, round,
}
use git_docs_test.Feed.Sequencer.Order.{forward_lem}
use git_docs_test.Feed.Sequencer.Gaps.{request_for, gap_request, round_gap, recovery_count}

module _ {Double : Type 0} where
  -- `s` with these messages sent on
  abbrev pub with_all : Sequencer Double → List (TradeMsg Double) → Sequencer Double
  with_all s msgs = record s {
    send_queue = s.send_queue ++ map some msgs;
    next_sequence = s.next_sequence + length msgs;
  }

  numbered_drop :
      (n k : ℕ) (ms : List (TradeMsg Double)) → NumberedFrom n ms → NumberedFrom (n + k) (drop k ms)
  numbered_drop n zero ms h = subst (λ (j : ℕ). NumberedFrom j ms) (omega arith) h
  numbered_drop n (suc k) [] h = tt
  numbered_drop n (suc k) (m ∷ ms) h =
      subst (λ (j : ℕ). NumberedFrom j (drop k ms)) (omega arith) (numbered_drop (suc n) k ms h.1)

  numbered_take :
      (n k : ℕ) (ms : List (TradeMsg Double)) → NumberedFrom n ms → NumberedFrom n (take k ms)
  numbered_take n zero ms h = tt
  numbered_take n (suc k) [] h = tt
  numbered_take n (suc k) (m ∷ ms) h = (h.0, numbered_take (suc n) k ms h.1)

  -- the recovery server on a store: what it answers to a request of 17 bytes arrives
  abbrev pub served_by : List (TradeMsg Double) → Recovery Double
  served_by vec = record {
    sent = true;
    answer = λ request. elim (serve_client vec (pos 17) request) [
      | ok (stays, msgs) ↦ map arrived msgs
      | throws error ↦ []
      | undefined ↦ []
    ];
  }

  serve_gap :
      (vec : List (TradeMsg Double)) (start end : ℕ) (msgs : List (TradeMsg Double))
      → serve_gap_request vec (request_for start end) ≡ ok msgs
      → serve_client vec (pos 17) (request_for start end) ≡ ok (true, msgs)
  unfolding serve_client
  serve_gap vec start end msgs e = ap (λ r. r >>= λ sent. ok (true, sent)) e

  module _ (capacity : ℕ) where
    received_next :
        (s : Sequencer Double) (m : TradeMsg Double)
        → m.sequence_number ≡ s.next_sequence
        → on_recovered_msg capacity s m ≡ ok (forward capacity s m)
    unfolding on_recovered_msg
    received_next s m e = rw ((==_iff m.sequence_number s.next_sequence).1 e) refl

    received_all :
        (s : Sequencer Double) (msgs : List (TradeMsg Double))
        → NumberedFrom s.next_sequence msgs
        → length s.send_queue + length msgs ≤ capacity
        → s.next_sequence + length msgs < 2 ^ 64
        → receive_recovery_messages capacity (length msgs) s (map arrived msgs)
          ≡ ok (finished (with_all s msgs))
    unfolding receive_recovery_messages
    received_all s [] h room small =
        ap₂ (λ q (n : ℕ). ok (finished (record s { send_queue = q; next_sequence = n })))
          (sym (append-nil s.send_queue)) (omega arith)
    received_all s (m ∷ msgs) h room small =
        let s₁ = with_all s (m ∷ []) in
        let one =
          received_next s m h.0 ∙ ap ok (forward_lem capacity s m (omega arith) (omega arith)) in
        let rest =
          received_all s₁ msgs (subst (λ (j : ℕ). NumberedFrom j msgs) (omega arith) h.1)
            (omega (arith, length-append s.send_queue (some m ∷ []))) (omega arith) in
        ap (λ q. q >>= λ s'. receive_recovery_messages capacity (length msgs) s' (map arrived msgs))
          one
        ∙ rest
        ∙ ap₂ (λ q (n : ℕ). ok (finished (record s { send_queue = q; next_sequence = n })))
            (append_assoc s.send_queue (some m ∷ []) (map some msgs)) (omega arith)

    recover_all :
        (s : Sequencer Double) (m : TradeMsg Double) (msgs : List (TradeMsg Double))
        (answer : GapRequestMsg → List (Event Double))
        → answer (gap_request s m) ≡ map arrived msgs
        → NumberedFrom s.next_sequence msgs
        → length msgs ≡ m.sequence_number - s.next_sequence
        → s.next_sequence < m.sequence_number
        → m.sequence_number < 2 ^ 64
        → length s.send_queue + length msgs ≤ capacity
        → recover capacity s.next_sequence
            (gap_request s m).end_seq
            s
            (record { sent = true; answer = answer })
          ≡ ok (finished (with_all s msgs))
    unfolding recover send_recovery_request
    recover_all s m msgs answer answered numbered count gap word room =
        ap
          (λ es.
            receive_recovery_messages capacity
              (((gap_request s m).end_seq + 2 ^ 64 - s.next_sequence + 1) % 2 ^ 64) s es)
          answered
        ∙ ap (λ (n : ℕ). receive_recovery_messages capacity n s (map arrived msgs))
            (recovery_count s.next_sequence m.sequence_number gap word ∙ sym count)
        ∙ received_all s msgs numbered room (omega arith)

    -- A gap in front of a message that the ticker server's store also holds up to it is requested,
    -- replayed and closed: the round in which the server gets the request that `recover` sends, and
    -- its answer arrives, returns and leaves the queue with the missing messages of the store, in
    -- order, and this one.
    pub gap_replayed :
        (vec : List (TradeMsg Double)) (s : Sequencer Double) (m : TradeMsg Double)
        → NumberedFrom 0 vec
        → length vec < 2 ^ 31
        → s.next_sequence < m.sequence_number
        → m.sequence_number ≤ length vec
        → length s.send_queue + (m.sequence_number + 1 - s.next_sequence) ≤ capacity
        → round capacity s (some m) (served_by vec)
          ≡ ok (
              finished (record s {
                send_queue =
                    s.send_queue
                    ++ map some
                        (take (m.sequence_number - s.next_sequence) (drop s.next_sequence vec))
                    ++ (some m ∷ []);
                next_sequence = m.sequence_number + 1;
              }))
    unfolding after_recovery
    gap_replayed vec s m numbered small gap held room =
        let next = s.next_sequence in
        let seq = m.sequence_number in
        let missing = take (seq - next) (drop next vec) in
        let end = (gap_request s m).end_seq in
        let last : end + 1 ≡ seq = omega arith in
        let count : length missing ≡ seq - next =
          omega (arith, length-take (seq - next) (drop next vec), length-drop next vec) in
        let served =
          serve_gap_request_lem vec (gap_request s m) (omega arith) (omega arith) small
          ∙ ap (λ (k : ℕ). ok (take (k - next) (drop next vec))) last in
        let from_next : NumberedFrom next missing =
          numbered_take next (seq - next) (drop next vec) (
            subst (λ (j : ℕ). NumberedFrom j (drop next vec)) (omega arith)
              (numbered_drop 0 next vec numbered)) in
        let answered : (served_by vec).answer (gap_request s m) ≡ map arrived missing =
          ap
            (λ r. elim r [
              | ok (stays, msgs) ↦ map arrived msgs
              | throws error ↦ []
              | undefined ↦ []
            ])
            (serve_gap vec next end missing served) in
        let recovered =
          recover_all s m missing (served_by vec).answer answered from_next count gap (omega arith)
            (omega arith) in
        let sent =
          forward_lem capacity (with_all s missing) m
            (omega (arith, length-append s.send_queue (map some missing), length-map missing some))
            (omega arith) in
        round_gap capacity s m (served_by vec) (lt→ltb next seq gap)
        ∙ ap (λ q. q >>= λ p. ok (after_recovery capacity m p)) recovered
        ∙ ap (λ t. ok (finished t)) sent
        ∙ ap
            (λ (k : ℕ). ok (
              finished (record s {
                send_queue = s.send_queue ++ map some missing ++ (some m ∷ []);
                next_sequence = k;
              })))
            (omega (arith, count))
