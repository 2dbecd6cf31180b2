-- ===== src/Feed/Sequencer/Tests.antt =====
-- HFT/TickerServer: the sequencer and the ticker server's store on a few messages, with a
-- natural number for a `double`.
use git_docs_test.Common.{
  ℕ, ◌+◌, ◌-◌, ◌≡◌, refl, true, false, none, some, List, [], ◌∷◌, ◌++◌, map, take, drop, ok, throws,
  bad_number, Result, arith, unrecoverable_gap,
}
use git_docs_test.Queue.Fifo
use git_docs_test.Feed.Message.{TradeMsg, GapRequestMsg}
use git_docs_test.Feed.Store.{Numbers, Text, load, parse_trade, next_token, split, same_text}
use git_docs_test.Feed.Sequencer.{
  arrived, closed, partial, Recovery, Sequencer, finished, round, run, multicast_run, received,
  recv_failed,
}
use git_docs_test.Feed.Sequencer.Order.{IsOrdered}
use git_docs_test.Feed.Sequencer.Gaps.{Reached, round-Extends}
use git_docs_test.Feed.Sequencer.Faults.{closed_recovery, lost_messages}
use git_docs_test.Feed.Sequencer.Replayed.{served_by, gap_replayed}

abbrev msg : ℕ → TradeMsg ℕ
msg n = record {
  message_type = 80;
  sequence_number = n;
  trade_id = 7;
  timestamp = 9;
  price = 3;
  quantity = 4;
  buyer_is_maker = true;
  best_match = false;
}

abbrev store : List (TradeMsg ℕ)
store = msg 0 ∷ msg 1 ∷ msg 2 ∷ msg 3 ∷ []

abbrev request : GapRequestMsg
request = record { type = 48; start_seq = 1; end_seq = 2 }

-- a reader of digits, and of whole numbers as doubles
abbrev digit : Text → Result ℕ
digit [] = throws bad_number
digit (c ∷ cs) = ok (c - 48)

abbrev numbers : Numbers ℕ
numbers = record { stoull = digit; stod = digit }

-- "7,3,4,5,9,True"
abbrev line : Text
line = 55 ∷ 44 ∷ 51 ∷ 44 ∷ 52 ∷ 44 ∷ 53 ∷ 44 ∷ 57 ∷ 44 ∷ 84 ∷ 114 ∷ 117 ∷ 101 ∷ 44 ∷ []

loaded : load numbers [] (line ∷ line ∷ []) ≡ ok (msg 0 ∷ msg 1 ∷ [])
unfolding load parse_trade next_token split same_text
loaded = refl

abbrev begun : Sequencer ℕ
begun = record { next_sequence = 1; send_queue = some (msg 0) ∷ []; dropped = [] }

begun-IsOrdered : IsOrdered begun
begun-IsOrdered = record { in_sequence = (refl, tt); word = omega arith }

abbrev caught_up : Sequencer ℕ
caught_up = record {
  next_sequence = 4;
  send_queue = some (msg 0) ∷ some (msg 1) ∷ some (msg 2) ∷ some (msg 3) ∷ [];
  dropped = [];
}

abbrev answers : Recovery ℕ
answers = record {
  sent = true;
  answer = λ request. partial ∷ arrived (msg 1) ∷ arrived (msg 2) ∷ [];
}

abbrev wrong_answers : Recovery ℕ
wrong_answers = record { sent = true; answer = λ request. arrived (msg 2) ∷ [] }

recovered : round 8 begun (some (msg 3)) answers ≡ ok (finished caught_up)
unfolding round Fifo.enqueue
recovered = refl

refused : round 8 begun (some (msg 3)) wrong_answers ≡ throws unrecoverable_gap
unfolding round
refused = refl

old_message :
    run 8 caught_up ((some (msg 2), answers) ∷ (none, answers) ∷ [])
    ≡ ok (finished (record caught_up { dropped = msg 2 ∷ [] }))
unfolding run
old_message = refl

multicast :
    multicast_run 1 [] (received (msg 0) ∷ recv_failed ∷ received (msg 1) ∷ [])
    ≡ ok (some (msg 0) ∷ [])
unfolding multicast_run Fifo.enqueue
multicast = refl

round-Extends_example : Reached (msg 3) begun caught_up
round-Extends_example =
    round-Extends 8 (msg 3) answers begun-IsOrdered tt (omega arith) (omega arith) (omega arith)
      recovered

closed_recovery_example :
    (s' : Sequencer ℕ) × (round 8 begun
        (some (msg 3))
        (record { sent = true; answer = λ request. closed ∷ [] })
      ≡ ok (finished s'))
    × (s'.send_queue ≡ begun.send_queue ++ (some (msg 3) ∷ []))
    × (s'.next_sequence ≡ begun.next_sequence + 1)
    × ¬ IsOrdered s'
closed_recovery_example =
    closed_recovery 8 begun (msg 3) [] (omega arith) (omega arith) (omega arith)

lost_messages_example :
    run 1 begun (map (λ m. (some m, answers)) (msg 1 ∷ msg 2 ∷ []))
    ≡ ok (finished (record begun { next_sequence = 3 }))
lost_messages_example =
    lost_messages 1 begun (msg 1 ∷ msg 2 ∷ []) answers (refl, (refl, tt)) (omega arith)
      (omega arith)

gap_replayed_example :
    round 8 begun (some (msg 3)) (served_by store)
    ≡ ok (
        finished (record begun {
          send_queue =
              begun.send_queue ++ map some (take (3 - 1) (drop 1 store)) ++ (some (msg 3) ∷ []);
          next_sequence = 4;
        }))
gap_replayed_example =
    gap_replayed 8 store begun (msg 3) (refl, (refl, (refl, (refl, tt)))) (omega arith)
      (omega arith) (omega arith) (omega arith)
