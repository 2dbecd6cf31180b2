-- ===== src/Feed/Sequencer.antt =====
-- HFT/TickerServer/ITCHTradeReceiver.cpp: TradeDataSequencer with its TradeRecoveryManager, and
-- MulticastTradeDataReceiver. What the network does is a list of events. A pointer to a message
-- is modelled by the message; the queues are those of Queue/Fifo.
pub mod Order
pub mod Gaps
pub mod Faults
pub mod Replayed
mod Tests
use git_docs_test.Common.{
  ℕ, zero, suc, ◌+◌, ◌-◌, ◌%◌, ◌^◌, Bool, Option, none, some, List, [], ◌∷◌, ltb, ◌==◌,
  if◌then◌else◌, Result, ok, throws, unrecoverable_gap, request_failed, null_message,
  pool_exhausted, ◌>>=◌, ◌>>◌, expect,
}
use git_docs_test.Feed.Message.{TradeMsg, GapRequestMsg}
use git_docs_test.Queue.Fifo

-- What a round of the loop of `receiveRecoveryMessages` meets: a full message; a part of one; a closed
-- connection or an error of `recv`, also into a null pointer from an empty pool, which
-- `deallocate` then refuses; a timeout; or no answer of `epoll_wait`.
pub data Event (Double : Type 0) : Type 0 where
  arrived : TradeMsg Double → Event Double
  partial closed exhausted timed_out no_answer : Event Double

-- What the recovery server does for a request; `sent` says that the whole request was sent, and
-- `answer` has the events that follow the request.
pub record Recovery (Double : Type 0) : Type 0 where
  pub sent : Bool
  pub answer : GapRequestMsg → List (Event Double)

pub record Sequencer (Double : Type 0) : Type 0 where
  pub next_sequence : ℕ
  pub send_queue : List (Option (TradeMsg Double))
  -- what was given back to the pool without being sent on, last first
  pub dropped : List (TradeMsg Double)

-- A call that waits for more events than there are is at a state as well.
pub data Progress (Double : Type 0) : Type 0 where
  finished waiting : Sequencer Double → Progress Double

unfoldable pub send_recovery_request : ℕ → ℕ → Bool → Result GapRequestMsg
send_recovery_request start_seq end_seq sent = do
  expect sent request_failed
  ok (record { type = 48; start_seq = start_seq; end_seq = end_seq })

module _ {Double : Type 0} where
  unfoldable pub set_sequence_num : Sequencer Double → ℕ → Sequencer Double
  set_sequence_num s sequence = record s { next_sequence = (sequence + 1) % 2 ^ 64 }

  unfoldable pub get_sequence_num : Sequencer Double → ℕ
  get_sequence_num s = (s.next_sequence + 2 ^ 64 - 1) % 2 ^ 64

module _ {Double : Type 0} (capacity : ℕ) where
  -- `sendQueue_.enqueue(msg); ++nextSequence_;`
  unfoldable pub forward : Sequencer Double → TradeMsg Double → Sequencer Double
  forward s msg = record s {
    send_queue = (Fifo.enqueue capacity s.send_queue (some msg)).1;
    next_sequence = (s.next_sequence + 1) % 2 ^ 64;
  }

  unfoldable pub on_recovered_msg : Sequencer Double → TradeMsg Double → Result (Sequencer Double)
  unfolding forward
  on_recovered_msg s msg =
      if msg.sequence_number == s.next_sequence
      then ok (forward s msg)
      else throws unrecoverable_gap

  -- The loop, with the number of messages that are still to be received.
  unfoldable pub receive_recovery_messages :
      ℕ → Sequencer Double → List (Event Double) → Result (Progress Double)
  unfolding on_recovered_msg
  receive_recovery_messages zero s events = ok (finished s)
  receive_recovery_messages (suc left) s [] = ok (waiting s)
  receive_recovery_messages (suc left) s (arrived msg ∷ events) =
      on_recovered_msg s msg >>= λ s'. receive_recovery_messages left s' events
  receive_recovery_messages (suc left) s (partial ∷ events) =
      receive_recovery_messages (suc left) s events
  receive_recovery_messages (suc left) s (closed ∷ events) = ok (finished s)
  receive_recovery_messages (suc left) s (exhausted ∷ events) = throws null_message
  receive_recovery_messages (suc left) s (timed_out ∷ events) =
      receive_recovery_messages (suc left) s events
  receive_recovery_messages (suc left) s (no_answer ∷ events) = ok (finished s)

  unfoldable pub recover : ℕ → ℕ → Sequencer Double → Recovery Double → Result (Progress Double)
  unfolding send_recovery_request receive_recovery_messages
  recover start_seq end_seq s recovery = do
    request ← send_recovery_request start_seq end_seq recovery.sent
    receive_recovery_messages ((end_seq + 2 ^ 64 - start_seq + 1) % 2 ^ 64) s
        (recovery.answer request)

  -- The last part of a round of `run`, which a recovery that does not return never reaches.
  unfoldable pub after_recovery : TradeMsg Double → Progress Double → Progress Double
  unfolding forward
  after_recovery msg (finished s) = finished (forward s msg)
  after_recovery msg (waiting s) = waiting s

  -- A round of `run`, for what `recvQueue_.dequeue()` returned.
  unfoldable pub round :
      Sequencer Double → Option (TradeMsg Double) → Recovery Double → Result (Progress Double)
  unfolding forward recover after_recovery
  round s none recovery = ok (finished s)
  round s (some msg) recovery =
      if ltb s.next_sequence msg.sequence_number
      then recover s.next_sequence ((msg.sequence_number + 2 ^ 64 - 1) % 2 ^ 64) s recovery
        >>= (λ p. ok (after_recovery msg p))
      else if ltb msg.sequence_number s.next_sequence
      then ok (finished (record s { dropped = msg ∷ s.dropped }))
      else ok (finished (forward s msg))

  -- `run`, for what the rounds dequeue and what the recovery server does in each.
  unfoldable pub run :
      Sequencer Double
      → List (Option (TradeMsg Double) × Recovery Double)
      → Result (Progress Double)
  unfolding round
  run s [] = ok (finished s)
  run s ((msg, recovery) ∷ rounds) = round s msg recovery >>= λ p. elim p [
    | waiting s' ↦ ok (waiting s')
    | finished s' ↦ run s' rounds
  ]

-- What a round of the loop of `MulticastTradeDataReceiver::run` meets.
pub data Datagram (Double : Type 0) : Type 0 where
  received : TradeMsg Double → Datagram Double
  recv_failed no_free_message : Datagram Double

module _ {Double : Type 0} (capacity : ℕ) where
  -- `MulticastTradeDataReceiver::run`, on the queue to the sequencer.
  unfoldable pub multicast_run :
      List (Option (TradeMsg Double))
      → List (Datagram Double)
      → Result (List (Option (TradeMsg Double)))
  multicast_run queue [] = ok queue
  multicast_run queue (received msg ∷ rest) =
      multicast_run (Fifo.enqueue capacity queue (some msg)).1 rest
  multicast_run queue (recv_failed ∷ rest) = multicast_run queue rest
  multicast_run queue (no_free_message ∷ rest) = throws pool_exhausted
