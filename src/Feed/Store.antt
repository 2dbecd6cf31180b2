-- ===== src/Feed/Store.antt =====
-- HFT/TickerServer/ITCHTickerServer.cpp: TradeMsgStore, and the loops of SnapshotServer and
-- MulticastServer that send from it. What std::stoull and std::stod read is a parameter; a line is
-- the list of its characters' codes.
pub mod Replay
use git_docs_test.Common.{
  ℕ, zero, suc, ◌+◌, ◌-◌, ◌%◌, ◌^◌, Bool, true, false, ◌||◌, ◌&&◌, Option, none, some, List, [],
  ◌∷◌, ◌++◌, length, get_elem?, ltb, leb, ◌==◌, if◌then◌else◌, ℤ, pos, negsuc, ltb_ℤ, eqb_ℤ, Result,
  ok, undefined, ◌>>=◌,
}
use git_docs_test.Feed.Message.{TradeMsg, GapRequestMsg}

abbrev pub Text : Type 0
Text = List ℕ

pub record Numbers (Double : Type 0) : Type 0 where
  pub stoull : Text → Result ℕ
  pub stod : Text → Result Double

-- Equality of texts, for `token == "True"`.
unfoldable pub same_text : Text → Text → Bool
same_text [] [] = true
same_text [] (d ∷ ds) = false
same_text (c ∷ cs) [] = false
same_text (c ∷ cs) (d ∷ ds) = let rest = same_text cs ds in if c == d then rest else false

-- the text up to the next comma, and what is behind the comma, if there is one
unfoldable pub split : Text → Text × Option Text
split [] = ([], none)
split (c ∷ cs) =
    let (before, after) = split cs in if c == 44 then ([], some cs) else (c ∷ before, after)

-- `std::getline(ss, token, ',')`: at the end of the stream it leaves the token as it was.
unfoldable pub next_token : Option Text × Text → Option Text × Text
unfolding split
next_token (none, token) = (none, token)
next_token (some rest, token) = let (before, after) = split rest in (after, before)

module _ {Double : Type 0} (numbers : Numbers Double) where
  abbrev pub true_text : Text
  true_text = 84 ∷ 114 ∷ 117 ∷ 101 ∷ []

  -- `parseTrade`, without the `emplace_back` of the message that it returns.
  unfoldable pub parse_trade : List (TradeMsg Double) → Text → Result (TradeMsg Double)
  parse_trade vec line =
      let s₁ = next_token (some line, []) in
      let s₂ = next_token s₁ in
      let s₃ = next_token s₂ in
      let s₄ = next_token s₃ in
      let s₅ = next_token s₄ in
      let s₆ = next_token s₅ in
      let s₇ = next_token s₆ in
      do
        trade_id ← numbers.stoull s₁.1
        price ← numbers.stod s₂.1
        quantity ← numbers.stod s₃.1
        timestamp ← numbers.stoull s₅.1
        ok (record {
          message_type = 80;
          sequence_number = length vec;
          trade_id = trade_id;
          timestamp = timestamp;
          price = price;
          quantity = quantity;
          buyer_is_maker = same_text s₆.1 true_text;
          best_match = same_text s₇.1 true_text;
        })

  -- The loop of the constructor over the lines of the file.
  unfoldable pub load : List (TradeMsg Double) → List Text → Result (List (TradeMsg Double))
  unfolding parse_trade
  load vec [] = ok vec
  load vec (line ∷ lines) = parse_trade vec line >>= λ msg. load (vec ++ (msg ∷ [])) lines

-- the conversions of an `int` to `size_t` and of a `uint64_t` to `int`
unfoldable pub to_word : ℤ → ℕ
to_word (pos n) = n
to_word (negsuc n) = 2 ^ 64 - 1 - n

unfoldable pub to_int : ℕ → ℤ
to_int w = let low = w % 2 ^ 32 in if ltb low (2 ^ 31) then pos low else negsuc (2 ^ 32 - 1 - low)

-- `++i`, and how many times it can be done from `i` on before it overflows an `int`
unfoldable pub next : ℤ → ℤ
next (pos n) = pos (n + 1)
next (negsuc zero) = pos 0
next (negsuc (suc n)) = negsuc n

unfoldable pub increments_left : ℤ → ℕ
increments_left (pos n) = 2 ^ 31 - n
increments_left (negsuc n) = 2 ^ 31 + n + 1

module _ {Double : Type 0} where
  -- `TradeMsgStore::get`
  unfoldable pub get : List (TradeMsg Double) → ℕ → Option (TradeMsg Double)
  get vec index = get_elem? vec index

  -- `for (int i = ...; test; ++i) send(fd, tradeMsgStore_.get(i), ...)`, which is undefined when `++i`
  -- overflows. A call of `send` with a null pointer fails and sends nothing; what the socket
  -- does with the other calls is not modelled.
  unfoldable pub send_while :
      (ℕ → Bool) → (ℕ → Bool) → List (TradeMsg Double) → ℕ → ℤ → Result (List (TradeMsg Double))
  unfolding get to_word next
  send_while test skip vec zero i = undefined
  send_while test skip vec (suc left) i =
      let rest = send_while test skip vec left (next i) in
      elim (test (to_word i)) [
        | false ↦ ok []
        | true ↦ rest >>= (λ sent. ok (
            if skip (to_word i)
            then sent
            else elim (get vec (to_word i)) [ none ↦ sent | some msg ↦ msg ∷ sent ]))
      ]

  -- `SnapshotServer::serveGapRequest`, whose test of the request only prints.
  unfoldable pub serve_gap_request :
      List (TradeMsg Double) → GapRequestMsg → Result (List (TradeMsg Double))
  unfolding send_while to_int increments_left
  serve_gap_request vec msg =
      let i = to_int msg.start_seq in
      send_while (λ w. leb w msg.end_seq) (λ w. false) vec (increments_left i) i

  -- `SnapshotServer::replayAll`
  unfoldable pub replay_all :
      List (TradeMsg Double) → GapRequestMsg → Result (List (TradeMsg Double))
  unfolding send_while increments_left
  replay_all vec msg =
      send_while (λ w. ltb w (length vec)) (λ w. false) vec (increments_left (pos 0)) (pos 0)

  -- What `SnapshotServer::serveClients` does with a client that is ready, for what `read` returned:
  -- whether the client stays connected, and what is sent to it.
  unfoldable pub serve_client :
      List (TradeMsg Double) → ℤ → GapRequestMsg → Result (Bool × List (TradeMsg Double))
  unfolding serve_gap_request replay_all
  serve_client vec valread msg =
      if ltb_ℤ (pos 0) valread
      then if eqb_ℤ valread (pos 17)
        then if msg.type == 48
          then serve_gap_request vec msg >>= (λ sent. ok (true, sent))
          else if msg.type == 49
          then replay_all vec msg >>= (λ sent. ok (true, sent))
          else ok (true, [])
        else ok (true, [])
      else ok (false, [])

  -- `MulticastServer::serveClients`, the datagrams in the order in which they are sent.
  unfoldable pub serve_clients : Bool → List (TradeMsg Double) → Result (List (TradeMsg Double))
  unfolding send_while increments_left
  serve_clients create_multicast_gap vec =
      send_while (λ w. ltb w (length vec))
        (λ w.
          create_multicast_gap && ((w + 1) % 2 ^ 64 % 1000 == 0 || (w + 2) % 2 ^ 64 % 1000 == 0))
        vec (increments_left (pos 0)) (pos 0)
