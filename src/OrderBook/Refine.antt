-- ===== src/OrderBook/Refine.antt =====
-- The book of HFT/OrderBook.hpp against the orders that rest in it.
pub mod Insert
pub mod Change
pub mod Top
pub mod Update
pub mod Cancel
use git_docs_test.Common.{
  ℕ, ◌+◌, ◌≤◌, ◌<◌, ◌≡◌, ◌≢◌, Bool, true, false, Option, none, some, List, [], ◌∷◌, ℤ, pos, Result,
  ok,
}
use git_docs_test.HashMap.Key.{Key}
use git_docs_test.HashMap.Contract.{HashMap}
use git_docs_test.OrderBook.{
  Prices, Order, OrderPtr, Book, TheBook, price_to_index, max_price_levels,
}
use git_docs_test.OrderBook.Live.{Entry, total, entry, IsDistinct}
use git_docs_test.OrderBook.Sides.{BidSide, AskSide}

abbrev pub pointer_of : Option Entry → Option OrderPtr
pointer_of none = none
pointer_of (some e) = some (some e.address)

module _ (prices : Prices) ⦃key : Key ℕ⦄ (orders : HashMap ℕ OrderPtr) where
  -- The order in memory is the entry: its price has the entry's level, within the arrays, and its
  -- quantity is positive.
  pub record Shows (memory : ℕ → Order prices.Double) (e : Entry) : Type 0 where
    pub priced : price_to_index prices orders (memory e.address).price ≡ ok (pos e.slot)
    pub inside : e.slot < max_price_levels
    pub amount : (memory e.address).quantity ≡ pos e.quantity
    pub positive : 0 < e.quantity
    pub sided : (memory e.address).is_buy ≡ e.buy

  -- The map leads from the ids of the entries, and from no others, to their orders in memory.
  pub record Indexed (memory : ℕ → Order prices.Double) (m : orders.State) (live : List Entry)
      : Type 0 where
    pub valid : orders.IsValid m
    pub distinct : IsDistinct live
    pub mapped : (k : ℕ) → orders.find m k ≡ pointer_of (entry k live)
    pub shown : (k : ℕ) (e : Entry) → entry k live ≡ some e → Shows memory e
    pub apart :
        (k q : ℕ) (d e : Entry)
        → entry k live ≡ some d
        → entry q live ≡ some e
        → d.address ≡ e.address
        → k ≡ q

  -- The book holds these entries: each level is the sum of their quantities, and the two indices
  -- are the best levels.
  pub record Represents (b : TheBook prices orders) (live : List Entry) : Type 0 where
    pub indexed : Indexed b.memory b.order_map live
    pub bids : BidSide b.bid_levels b.best_bid (λ i. total true i live)
    pub asks : AskSide b.ask_levels b.best_ask (λ i. total false i live)
