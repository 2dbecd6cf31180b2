-- ===== src/OrderBook/Refine/Top.antt =====
-- HFT/OrderBook.hpp: the constructor, `bestBid`, `bestAsk`, and the pool of `OrderBook<true>`.
use git_docs_test.Common.{
  ℕ, ◌≤◌, ◌<◌, ◌≡◌, refl, ap, subst, lt→ltb, true, false, none, some, List, [], ℤ, pos, negsuc,
  pos_part, ok, arith,
}
use git_docs_test.HashMap.Key.{Key}
use git_docs_test.HashMap.Contract.{HashMap}
use git_docs_test.OrderBook.{
  Prices, Order, OrderPtr, TheBook, new, best_bid, best_ask, index_to_price, max_price_levels,
}
use git_docs_test.OrderBook.Live.{Entry, total, entry, quantity-le-total}
use git_docs_test.OrderBook.Tops.{BidTop, AskTop}
use git_docs_test.OrderBook.Refine.{Represents}

-- With bids at level `s`, the index is a level with bids that is not below `s`.
BidTop-level :
    (best : ℤ) (f : ℕ → ℕ) (s : ℕ)
    → BidTop best f
    → s < max_price_levels
    → 0 < f s
    → (n : ℕ) × (best ≡ pos n) × (n < max_price_levels) × (s ≤ n) × (0 < f n)
BidTop-level (pos n) f s t inside h = (
  n,
  refl,
  t.in_range,
  ground (arith, t.above s),
  ground (arith, t.above s, t.empty, λ (e : n ≡ s). ap f e),
)
BidTop-level (negsuc k) f s t inside h = absurd (ground (arith, t.above s))

AskTop-level :
    (best : ℤ) (f : ℕ → ℕ) (s : ℕ)
    → AskTop best f
    → s < max_price_levels
    → 0 < f s
    → (n : ℕ) × (best ≡ pos n) × (n < max_price_levels) × (n ≤ s) × (0 < f n)
AskTop-level (pos n) f s t inside h = (
  n,
  refl,
  ground (arith, t.below s),
  ground (arith, t.below s),
  ground (arith, t.below s, t.empty, λ (e : n ≡ s). ap f e),
)
AskTop-level (negsuc k) f s t inside h = absurd (ground (arith, t.natural))

module _ (prices : Prices) ⦃key : Key ℕ⦄ (orders : HashMap ℕ OrderPtr) where
  -- While a bid rests, `bestBid` returns the price of a level that no resting bid is above, with the
  -- total quantity of the bids at that level, which is positive.
  pub best_bid_lem :
      {b : TheBook prices orders} {live : List Entry} (k : ℕ) (e : Entry)
      → Represents prices orders b live
      → entry k live ≡ some e
      → e.buy ≡ true
      → (n : ℕ) × (best_bid prices orders b
          ≡ ok (index_to_price prices orders (pos n), pos (total true n live)))
        × (0 < total true n live)
        × ((q : ℕ) (d : Entry) → entry q live ≡ some d → d.buy ≡ true → d.slot ≤ n)
  unfolding best_bid
  best_bid_lem {b} {live} k e r found buys =
      let (n, at, inside, above, more) = top k e found buys in
      (
        n,
        rw (at, lt→ltb n max_price_levels inside, r.bids.holds n),
        more,
        λ q d h buy.
            let (m, at', in', le, more') = top q d h buy in
            omega (arith, le, ap pos_part at, ap pos_part at'),
      )
    where
      top :
          (q : ℕ) (d : Entry)
          → entry q live ≡ some d
          → d.buy ≡ true
          → (n : ℕ) × (b.best_bid ≡ pos n)
            × (n < max_price_levels)
            × (d.slot ≤ n)
            × (0 < total true n live)
      top q d h buy =
          BidTop-level b.best_bid (λ i. total true i live) d.slot r.bids.top
            (r.indexed.shown q d h).inside
            (subst (λ x. 0 < total x d.slot live) buy
              (omega (arith, quantity-le-total q live d h, (r.indexed.shown q d h).positive)))

  -- The same of `bestAsk`: no resting ask is below its level.
  pub best_ask_lem :
      {b : TheBook prices orders} {live : List Entry} (k : ℕ) (e : Entry)
      → Represents prices orders b live
      → entry k live ≡ some e
      → e.buy ≡ false
      → (n : ℕ) × (best_ask prices orders b
          ≡ ok (index_to_price prices orders (pos n), pos (total false n live)))
        × (0 < total false n live)
        × ((q : ℕ) (d : Entry) → entry q live ≡ some d → d.buy ≡ false → n ≤ d.slot)
  unfolding best_ask
  best_ask_lem {b} {live} k e r found sells =
      let (n, at, inside, above, more) = top k e found sells in
      (
        n,
        rw (at, lt→ltb n max_price_levels inside, r.asks.holds n),
        more,
        λ q d h sell.
            let (m, at', in', le, more') = top q d h sell in
            omega (arith, le, ap pos_part at, ap pos_part at'),
      )
    where
      top :
          (q : ℕ) (d : Entry)
          → entry q live ≡ some d
          → d.buy ≡ false
          → (n : ℕ) × (b.best_ask ≡ pos n)
            × (n < max_price_levels)
            × (n ≤ d.slot)
            × (0 < total false n live)
      top q d h sell =
          AskTop-level b.best_ask (λ i. total false i live) d.slot r.asks.top
            (r.indexed.shown q d h).inside
            (subst (λ x. 0 < total x d.slot live) sell
              (omega (arith, quantity-le-total q live d h, (r.indexed.shown q d h).positive)))

  -- The constructed book, over a valid empty map, represents no orders.
  pub new_represents :
      (memory : ℕ → Order prices.Double) (m : orders.State)
      → orders.IsValid m
      → ((k : ℕ) → orders.find m k ≡ none)
      → Represents prices orders (new prices orders memory m) []
  unfolding new total entry
  new_represents memory m valid empty = record {
    indexed = record {
      valid = valid;
      distinct = tt;
      mapped = empty;
      shown = λ k e h. cc;
      apart = λ k q d e h j same. cc;
    };
    bids = record {
      holds = λ j. refl;
      bounded = λ j. omega arith;
      top = record { in_range = omega arith; above = λ j lt h. refl; empty = λ h. refl };
    };
    asks = record {
      holds = λ j. refl;
      bounded = λ j. omega arith;
      top = record {
        natural = refl;
        in_range = omega arith;
        below = λ j lt. refl;
        empty = λ h. omega arith;
      };
    };
  }
