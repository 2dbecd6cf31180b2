-- ===== src/Feed/Store/Replay.antt =====
-- HFT/TickerServer/ITCHTickerServer.cpp: what the store holds, and what is sent for a gap request.
use native.Mathlib.Numerals.{add-one}
use git_docs_test.Common.{
  ℕ, zero, suc, ◌+◌, ◌-◌, ◌%◌, ◌^◌, ◌≤◌, ◌<◌, ◌≡◌, refl, sym, ap, ◌∙◌, Bool, true, false, some,
  List, [], ◌∷◌, ◌++◌, length, get_elem?, take, drop, ltb, leb, lt→ltb, pos, ok, subst,
  ok-injective, bind_ok, arith,
}
use git_docs_test.Feed.Message.{TradeMsg, GapRequestMsg}
use git_docs_test.Feed.Store.{
  Numbers, Text, parse_trade, load, send_while, to_int, increments_left, serve_gap_request,
  replay_all,
}

le_test : (w k : ℕ) → w < k + 1 → leb w k ≡ true
le_test w k h = ground arith

gt_test : (w k : ℕ) → k < w → leb w k ≡ false
gt_test w k h = ground arith

below_int : (w : ℕ) → w < 2 ^ 31 → to_int w ≡ pos w
unfolding to_int
below_int w h = let low : w % 2 ^ 32 ≡ w = omega arith in rw low (rw (lt→ltb w (2 ^ 31) h) refl)

module _ {Double : Type 0} where
  -- The messages are numbered from `n` on.
  abbrev pub NumberedFrom : ℕ → List (TradeMsg Double) → Type 0
  NumberedFrom n [] = Unit {0}
  NumberedFrom n (m ∷ ms) = (m.sequence_number ≡ n) × NumberedFrom (suc n) ms

  take_all : (ms : List (TradeMsg Double)) → take (length ms) ms ≡ ms
  take_all [] = refl
  take_all (m ∷ ms) = ap (λ rest. m ∷ rest) (take_all ms)

  numbered_snoc :
      (n : ℕ) (ms : List (TradeMsg Double)) (m : TradeMsg Double)
      → NumberedFrom n ms
      → m.sequence_number ≡ n + length ms
      → NumberedFrom n (ms ++ (m ∷ []))
  numbered_snoc n [] m h e = (omega (arith, e), tt)
  numbered_snoc n (x ∷ ms) m h e = (h.0, numbered_snoc (suc n) ms m h.1 (omega arith))

  get_elem?-drop :
      (vec : List (TradeMsg Double)) (i : ℕ)
      → i < length vec
      → (m : TradeMsg Double) × (get_elem? vec i ≡ some m) × (drop i vec ≡ m ∷ drop (suc i) vec)
  get_elem?-drop [] i h = absurd (omega arith)
  get_elem?-drop (m ∷ vec) zero h = (m, refl, refl)
  get_elem?-drop (x ∷ vec) (suc i) h = get_elem?-drop vec i (omega arith)

  module _ (test : ℕ → Bool) (vec : List (TradeMsg Double)) where
    round_stops :
        (left i : ℕ) → test i ≡ false → send_while test (λ w. false) vec (suc left) (pos i) ≡ ok []
    unfolding send_while
    round_stops left i e = rw (e, send_while) refl

    round_sends :
        (left i : ℕ) (m : TradeMsg Double) (sent : List (TradeMsg Double))
        → test i ≡ true
        → get_elem? vec i ≡ some m
        → send_while test (λ w. false) vec left (pos (i + 1)) ≡ ok sent
        → send_while test (λ w. false) vec (suc left) (pos i) ≡ ok (m ∷ sent)
    unfolding send_while
    round_sends left i m sent pass at rest = rw (pass, send_while) (rw rest (rw at refl))

    -- `n` rounds of a sending loop
    sent_slice :
        (n left i : ℕ)
        → n < left
        → i + n ≤ length vec
        → ((w : ℕ) → w < i + n → test w ≡ true)
        → test (i + n) ≡ false
        → send_while test (λ w. false) vec left (pos i) ≡ ok (take n (drop i vec))
    sent_slice n zero i h len pass stop = absurd (omega arith)
    sent_slice zero (suc left) i h len pass stop = round_stops left i (ap test (omega arith) ∙ stop)
    sent_slice (suc n) (suc left) i h len pass stop =
        let (m, at, split) = get_elem?-drop vec i (omega arith) in
        let rest =
          sent_slice n left (i + 1) (omega arith) (omega arith) (λ w k. pass w (omega arith))
            (ap test (omega arith) ∙ stop) in
        let here =
          round_sends left i m (take n (drop (i + 1) vec)) (pass i (omega arith)) at rest in
        here
        ∙ ap (λ (k : ℕ). ok (m ∷ take n (drop k vec))) (add-one i)
        ∙ ap (λ ms. ok (take (suc n) ms)) (sym split)

  -- A gap request for messages that the store holds, whose numbers fit an `int`, is answered by
  -- exactly those messages, in order.
  pub serve_gap_request_lem :
      (vec : List (TradeMsg Double)) (req : GapRequestMsg)
      → req.start_seq ≤ req.end_seq
      → req.end_seq < length vec
      → length vec < 2 ^ 31
      → serve_gap_request vec req
        ≡ ok (take (req.end_seq + 1 - req.start_seq) (drop req.start_seq vec))
  unfolding serve_gap_request increments_left
  serve_gap_request_lem vec req order inside small =
      let first = req.start_seq in
      let last = req.end_seq in
      let i = below_int first (omega arith) in
      rw i (
        sent_slice (λ w. leb w last) vec (last + 1 - first) (2 ^ 31 - first) first (omega arith)
          (omega arith) (λ w h. le_test w last (omega arith)) (gt_test _ last (omega arith)))

  -- All the messages are replayed, in order, whatever the request says.
  pub replay_all_lem :
      (vec : List (TradeMsg Double)) (req : GapRequestMsg)
      → length vec < 2 ^ 31
      → replay_all vec req ≡ ok vec
  unfolding replay_all increments_left
  replay_all_lem vec req small =
      sent_slice (λ w. ltb w (length vec)) vec (length vec) (2 ^ 31 - 0) 0 (omega arith)
        (omega arith) (λ w h. ground arith) (ground arith)
      ∙ ap ok (take_all vec)

  parse_trade-number :
      (numbers : Numbers Double) (vec : List (TradeMsg Double)) (line : Text) (m : TradeMsg Double)
      → parse_trade numbers vec line ≡ ok m
      → m.sequence_number ≡ length vec
  unfolding parse_trade
  parse_trade-number numbers vec line m e = ground arith

  -- The store's messages are numbered by their places.
  pub load-Numbered :
      (numbers : Numbers Double) (vec store : List (TradeMsg Double)) (lines : List Text)
      → NumberedFrom 0 vec
      → load numbers vec lines ≡ ok store
      → NumberedFrom 0 store
  unfolding load
  load-Numbered numbers vec store [] h e = subst (NumberedFrom 0) (ok-injective e) h
  load-Numbered numbers vec store (line ∷ lines) h e =
      let (msg, parsed, rest) =
        bind_ok (parse_trade numbers vec line) (λ m. load numbers (vec ++ (m ∷ [])) lines) e in
      load-Numbered numbers (vec ++ (msg ∷ [])) store lines
        (numbered_snoc 0 vec msg h (omega (arith, parse_trade-number numbers vec line msg parsed)))
        rest
