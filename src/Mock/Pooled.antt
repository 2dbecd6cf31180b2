-- ===== src/Mock/Pooled.antt =====
-- c++20/MockOrderBook.cpp, class OrderBook. `pool_size` is POOL_SIZE. An order of the pool is an
-- address below it; the caller's order is passed by reference and read only.
pub mod Storage
use git_docs_test.Common.{
  ℕ, zero, suc, ◌+◌, ◌-◌, ◌%◌, ◌^◌, Bool, true, false, ◌&&◌, not, Option, none, some, List, [], ◌∷◌,
  ℤ, pos, negsuc, ltb_ℤ, eqb_ℤ, ltb, leb, if◌then◌else◌, Result, ok, undefined, throws, ◌>>=◌, ◌>>◌,
  expect, order_pool_full, order_not_found,
}
use git_docs_test.HashMap.Key.{Key}
use git_docs_test.HashMap.Contract.{HashMap}
use git_docs_test.OrderBook.{
  Prices, Order, OrderPtr, store, max_price_levels, level, add_int, sub_int, deref, scan_down,
  scan_up,
}

-- The fields; `memory` is `order_pool`, `free` is `order_memory`, its back first.
pub record Pooled (Double Map : Type 0) : Type 0 where
  pub memory : ℕ → Order Double
  pub free : List ℕ
  pub order_count : ℕ
  pub order_map : Map
  pub bid_levels : ℕ → ℤ
  pub ask_levels : ℕ → ℤ
  pub best_bid_index : ℤ
  pub best_ask_index : ℤ

-- the addresses of the pool, the last first
unfoldable pub pool_addresses : ℕ → List ℕ
pool_addresses zero = []
pool_addresses (suc n) = n ∷ pool_addresses n

module _ (prices : Prices) ⦃key : Key ℕ⦄ (orders : HashMap ℕ OrderPtr) where
  open prices use {Double, tick_size, one, multiply, divide, of_int, to_int}
  open orders use {State, contains, read_at, assign_at, erase}

  abbrev pub TheBook : Type 0
  TheBook = Pooled Double State

  unfoldable pub price_to_index : Double → Result ℤ
  price_to_index price = do
    ticks_per_unit ← to_int (divide one tick_size)
    to_int (multiply price (of_int ticks_per_unit))

  unfoldable pub index_to_price : ℤ → Double
  index_to_price index = multiply (of_int index) tick_size

  unfoldable pub new : ℕ → Order Double → State → TheBook
  unfolding pool_addresses
  new pool_size blank order_map = record {
    memory = λ _. blank;
    free = pool_addresses pool_size;
    order_count = 0;
    order_map = order_map;
    bid_levels = λ _. pos 0;
    ask_levels = λ _. pos 0;
    best_bid_index = negsuc 0;
    best_ask_index = pos max_price_levels;
  }

  -- The price levels in `insert`.
  unfoldable pub add_quantity : Bool → TheBook → ℤ → ℤ → Result TheBook
  unfolding level add_int
  add_quantity true b idx quantity = do
    i ← level idx
    sum ← add_int (b.bid_levels i) quantity
    ok (record b {
      bid_levels = store b.bid_levels i sum;
      best_bid_index = if ltb_ℤ b.best_bid_index idx then idx else b.best_bid_index;
    })
  add_quantity false b idx quantity = do
    i ← level idx
    sum ← add_int (b.ask_levels i) quantity
    ok (record b {
      ask_levels = store b.ask_levels i sum;
      best_ask_index = if ltb_ℤ idx b.best_ask_index then idx else b.best_ask_index;
    })

  -- The end of `insert`: the order is copied to the back of `order_memory`.
  unfoldable pub place_order : TheBook → Order Double → Result TheBook
  place_order b order = elim b.free [
    | [] ↦ undefined
    | mem ∷ rest ↦ do
      order_map ← assign_at b.order_map order.order_id (some mem)
      ok (record b { free = rest; memory = store b.memory mem order; order_map = order_map })
  ]

  unfoldable pub insert : ℕ → TheBook → Order Double → Result TheBook
  unfolding price_to_index add_quantity place_order
  insert pool_size b order = do
    expect (not (leb pool_size b.order_count)) order_pool_full
    idx ← price_to_index order.price
    b' ←
        add_quantity order.is_buy (record b { order_count = (b.order_count + 1) % 2 ^ 64 }) idx
          order.quantity
    place_order b' order

  -- The loops set the best level only if they find one, and return then.
  unfoldable pub update_price_level : Bool → TheBook → Double → ℤ → Result TheBook
  unfolding price_to_index level add_int scan_down scan_up
  update_price_level true b price update_quantity = do
    idx ← price_to_index price
    i ← level idx
    sum ← add_int (b.bid_levels i) update_quantity
    let levels = store b.bid_levels i sum
    ok (record b {
      bid_levels = levels;
      best_bid_index =
          if eqb_ℤ idx b.best_bid_index && eqb_ℤ sum (pos 0)
          then pos (scan_down levels i)
          else pos 0;
    })
  update_price_level false b price update_quantity = do
    idx ← price_to_index price
    i ← level idx
    sum ← add_int (b.ask_levels i) update_quantity
    let levels = store b.ask_levels i sum
    ok (record b {
      ask_levels = levels;
      best_ask_index =
          if eqb_ℤ idx b.best_ask_index && eqb_ℤ sum (pos 0)
          then pos (scan_up levels (max_price_levels - (i + 1)) (i + 1))
          else pos (max_price_levels - 1);
    })

  unfoldable pub update : TheBook → ℕ → ℤ → Result TheBook
  unfolding update_price_level deref sub_int
  update b order_id new_quantity = do
    expect (contains b.order_map order_id) order_not_found
    (ptr, order_map) ← read_at b.order_map order_id
    ord ← deref ptr
    let o = b.memory ord
    change ← sub_int new_quantity o.quantity
    b' ← update_price_level o.is_buy (record b { order_map = order_map }) o.price change
    ok (record b' {
      memory = store b'.memory ord (record (b'.memory ord) { quantity = new_quantity });
    })

  unfoldable pub cancel : TheBook → ℕ → Result TheBook
  unfolding update_price_level deref sub_int
  cancel b order_id = do
    expect (contains b.order_map order_id) order_not_found
    (ptr, order_map) ← read_at b.order_map order_id
    ord ← deref ptr
    let o = b.memory ord
    change ← sub_int (pos 0) o.quantity
    b' ← update_price_level o.is_buy (record b { order_map = order_map }) o.price change
    (ptr', order_map') ← read_at b'.order_map order_id
    ord' ← deref ptr'
    ok (record b' {
      free = ord' ∷ b'.free;
      order_count = (b'.order_count + 2 ^ 64 - 1) % 2 ^ 64;
      order_map = (erase order_map' order_id).1;
    })

  unfoldable pub best_bid : TheBook → Result (Double × ℤ)
  unfolding level index_to_price
  best_bid b = do
    let price = index_to_price b.best_bid_index
    i ← level b.best_bid_index
    ok (price, b.bid_levels i)

  unfoldable pub best_ask : TheBook → Result (Double × ℤ)
  unfolding level index_to_price
  best_ask b = do
    let price = index_to_price b.best_ask_index
    i ← level b.best_ask_index
    ok (price, b.ask_levels i)
