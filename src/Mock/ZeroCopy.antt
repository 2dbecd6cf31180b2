-- ===== src/Mock/ZeroCopy.antt =====
-- c++20/MockOrderBook_ZeroCopy.cpp, class OrderBook. `memory` holds the caller's orders, which the
-- book points to; a `Side` is a Bool, true for `Side::BUY`. The level indices are `size_t`.
pub mod Best
use git_docs_test.Common.{
  ℕ, zero, suc, ◌+◌, ◌-◌, ◌%◌, ◌^◌, Bool, true, false, ◌&&◌, Option, none, some, ℤ, pos, negsuc,
  ltb_ℤ, eqb_ℤ, ltb, ◌==◌, if◌then◌else◌, Result, ok, undefined, throws, ◌>>=◌, ◌>>◌, expect,
  order_not_found,
}
use git_docs_test.HashMap.Key.{Key}
use git_docs_test.HashMap.Contract.{HashMap}
use git_docs_test.OrderBook.{
  Prices, Order, OrderPtr, store, max_price_levels, level, add_int, sub_int, deref, scan_up,
}

pub record ZeroCopy (Double Map : Type 0) : Type 0 where
  pub memory : ℕ → Order Double
  pub order_map : Map
  pub bid_levels : ℕ → ℤ
  pub ask_levels : ℕ → ℤ
  pub best_bid_index : ℕ
  pub best_ask_index : ℕ

-- `int` to `size_t`
unfoldable pub to_size_t : ℤ → ℕ
to_size_t (pos n) = n
to_size_t (negsuc n) = 2 ^ 64 - (n + 1)

-- The loop `for (size_t i = n - 1; i >= 0; --i)`, whose test always holds: below level 0 it reads
-- outside the array.
unfoldable pub scan_bids : (ℕ → ℤ) → ℕ → Result ℕ
scan_bids levels zero = undefined
scan_bids levels (suc i) =
    let rest = scan_bids levels i in if ltb_ℤ (pos 0) (levels i) then ok i else rest

module _ (prices : Prices) ⦃key : Key ℕ⦄ (orders : HashMap ℕ OrderPtr) where
  open prices use {Double, tick_size, one, multiply, divide, of_size, of_int, to_int}
  open orders use {State, contains, read_at, assign_at, erase}

  abbrev pub TheBook : Type 0
  TheBook = ZeroCopy Double State

  unfoldable pub price_to_index : Double → Result ℕ
  unfolding to_size_t
  price_to_index price = do
    ticks_per_unit ← to_int (divide one tick_size)
    index ← to_int (multiply price (of_int ticks_per_unit))
    ok (to_size_t index)

  unfoldable pub index_to_price : ℕ → Double
  index_to_price index = multiply (of_size index) tick_size

  unfoldable pub new : (ℕ → Order Double) → State → TheBook
  new memory order_map = record {
    memory = memory;
    order_map = order_map;
    bid_levels = λ _. pos 0;
    ask_levels = λ _. pos 0;
    best_bid_index = 2 ^ 64 - 1;
    best_ask_index = max_price_levels;
  }

  unfoldable pub add_quantity : Bool → TheBook → ℕ → ℤ → Result TheBook
  unfolding level add_int
  add_quantity true b idx quantity = do
    i ← level (pos idx)
    sum ← add_int (b.bid_levels i) quantity
    ok (record b {
      bid_levels = store b.bid_levels i sum;
      best_bid_index = if ltb b.best_bid_index idx then idx else b.best_bid_index;
    })
  add_quantity false b idx quantity = do
    i ← level (pos idx)
    sum ← add_int (b.ask_levels i) quantity
    ok (record b {
      ask_levels = store b.ask_levels i sum;
      best_ask_index = if ltb idx b.best_ask_index then idx else b.best_ask_index;
    })

  unfoldable pub insert : TheBook → ℕ → Result TheBook
  unfolding price_to_index add_quantity
  insert b order = do
    let o = b.memory order
    idx ← price_to_index o.price
    b' ← add_quantity o.is_buy b idx o.quantity
    order_map ← assign_at b'.order_map o.order_id (some order)
    ok (record b' { order_map = order_map })

  unfoldable pub update_price_level : Bool → TheBook → Double → ℤ → Result TheBook
  unfolding price_to_index level add_int scan_bids scan_up
  update_price_level true b price update_quantity = do
    idx ← price_to_index price
    i ← level (pos idx)
    sum ← add_int (b.bid_levels i) update_quantity
    let levels = store b.bid_levels i sum
    best ← if idx == b.best_bid_index && eqb_ℤ sum (pos 0) then scan_bids levels i else ok 0
    ok (record b { bid_levels = levels; best_bid_index = best })
  update_price_level false b price update_quantity = do
    idx ← price_to_index price
    i ← level (pos idx)
    sum ← add_int (b.ask_levels i) update_quantity
    let levels = store b.ask_levels i sum
    ok (record b {
      ask_levels = levels;
      best_ask_index =
          if idx == b.best_ask_index && eqb_ℤ sum (pos 0)
          then scan_up levels (max_price_levels - (i + 1)) (i + 1)
          else max_price_levels - 1;
    })

  unfoldable pub update : TheBook → ℕ → ℤ → Result TheBook
  unfolding update_price_level deref sub_int
  update b order_id new_quantity = do
    expect (contains b.order_map order_id) order_not_found
    (ptr, order_map) ← read_at b.order_map order_id
    ord ← deref ptr
    let o = b.memory ord
    change ← sub_int new_quantity o.quantity
    b' ← update_price_level o.is_buy (record b { order_map = order_map }) o.price change
    ok (record b' {
      memory = store b'.memory ord (record (b'.memory ord) { quantity = new_quantity });
    })

  unfoldable pub cancel : TheBook → ℕ → Result TheBook
  unfolding update_price_level deref sub_int
  cancel b order_id = do
    expect (contains b.order_map order_id) order_not_found
    (ptr, order_map) ← read_at b.order_map order_id
    ord ← deref ptr
    let o = b.memory ord
    change ← sub_int (pos 0) o.quantity
    b' ← update_price_level o.is_buy (record b { order_map = order_map }) o.price change
    ok (record b' { order_map = (erase b'.order_map order_id).1 })

  unfoldable pub best_bid : TheBook → Result (Double × ℤ)
  unfolding level index_to_price
  best_bid b = do
    let price = index_to_price b.best_bid_index
    i ← level (pos b.best_bid_index)
    ok (price, b.bid_levels i)

  unfoldable pub best_ask : TheBook → Result (Double × ℤ)
  unfolding level index_to_price
  best_ask b = do
    let price = index_to_price b.best_ask_index
    i ← level (pos b.best_ask_index)
    ok (price, b.ask_levels i)
