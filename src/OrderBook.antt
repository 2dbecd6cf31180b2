-- ===== src/OrderBook.antt =====
-- HFT/OrderBook.hpp: the limit order book, over any map that fills the contract of HashMap<HM> and
-- any floating-point arithmetic. `double` is not computed with here: `Prices` holds what the book
-- uses of it.
pub mod Levels
pub mod Tops
pub mod Sides
pub mod Live
pub mod Refine
mod Tests
use git_docs_test.Common.{
  ℕ, zero, suc, ◌+◌, ◌-◌, ◌*◌, ◌%◌, ◌^◌, Bool, true, false, ◌&&◌, not, Option, none, some, List, [],
  ◌∷◌, ℤ, pos, negsuc, ◌+ℤ◌, ◌-ℤ◌, ltb_ℤ, eqb_ℤ, fits_int, ltb, leb, ◌==◌, if◌then◌else◌, Result,
  ok, throws, undefined, ◌>>=◌, ◌>>◌, expect, order_pool_full, order_not_found,
}
use git_docs_test.HashMap.Key.{Key}
use git_docs_test.HashMap.Contract.{HashMap}

-- `double` with the conversions that priceToIndex and indexToPrice use. `to_int` is
-- `static_cast<int>`, which is undefined outside the range of `int`.
pub record Prices : Type 1 where
  pub Double : Type 0
  pub tick_size : Double
  pub one : Double
  pub multiply : Double → Double → Double
  pub divide : Double → Double → Double
  pub of_size : ℕ → Double
  pub to_size : Double → ℕ
  pub of_int : ℤ → Double
  pub to_int : Double → Result ℤ

abbrev pub pool_size : ℕ
pool_size = 10_000_000

abbrev pub max_price_levels : ℕ
max_price_levels = 100_000

pub record Order (Double : Type 0) : Type 0 where
  pub order_id : ℕ
  pub price : Double
  pub quantity : ℤ
  pub is_buy : Bool

-- An `Order*` is an address, `none` for `nullptr`; `memory` holds the orders at the addresses,
-- those of the caller and those of the pool.
abbrev pub OrderPtr : Type 0
OrderPtr = Option ℕ

pub record Book (Double Map : Type 0) : Type 0 where
  pub memory : ℕ → Order Double
  -- `freeMsgPtrs_`, its back first
  pub free : List ℕ
  pub order_count : ℕ
  pub order_map : Map
  pub bid_levels : ℕ → ℤ
  pub ask_levels : ℕ → ℤ
  pub best_bid : ℤ
  pub best_ask : ℤ

abbrev pub store {ℓ} : {A : Type ℓ} → (ℕ → A) → ℕ → A → ℕ → A
store f i a j = if i == j then a else f j

-- The loops of updatePriceLevel: the next bid level below `i`, or 0; the next ask level among the
-- `n` levels from `i` on, or the last level.
unfoldable pub scan_down : (ℕ → ℤ) → ℕ → ℕ
scan_down levels zero = 0
scan_down levels (suc i) =
    let rest = scan_down levels i in if ltb_ℤ (pos 0) (levels i) then i else rest

unfoldable pub scan_up : (ℕ → ℤ) → ℕ → ℕ → ℕ
scan_up levels zero i = max_price_levels - 1
scan_up levels (suc n) i =
    let rest = scan_up levels n (i + 1) in if ltb_ℤ (pos 0) (levels i) then i else rest

-- An access to one of the two arrays of `MaxPriceLevels` levels.
unfoldable pub level : ℤ → Result ℕ
level (pos n) = if ltb n max_price_levels then ok n else undefined
level (negsuc n) = undefined

-- `int` arithmetic
unfoldable pub add_int : ℤ → ℤ → Result ℤ
add_int a b = let c = a +ℤ b in if fits_int c then ok c else undefined

unfoldable pub sub_int : ℤ → ℤ → Result ℤ
sub_int a b = let c = a -ℤ b in if fits_int c then ok c else undefined

unfoldable pub deref : OrderPtr → Result ℕ
deref none = undefined
deref (some p) = ok p

module _ (prices : Prices) ⦃key : Key ℕ⦄ (orders : HashMap ℕ OrderPtr) where
  open prices use {Double, tick_size, one, multiply, divide, of_size, to_size, of_int, to_int}
  open orders use {State, contains, read_at, assign_at, erase}

  abbrev pub TheBook : Type 0
  TheBook = Book Double State

  ticks_per_unit : ℕ
  ticks_per_unit = to_size (divide one tick_size)

  unfoldable pub price_to_index : Double → Result ℤ
  unfolding ticks_per_unit
  price_to_index price = to_int (multiply price (of_size ticks_per_unit))

  unfoldable pub index_to_price : ℤ → Double
  index_to_price index = multiply (of_int index) tick_size

  -- `orderPool_` as the constructor finds it: a vector that is default-constructed.
  abbrev order_pool : List ℕ
  order_pool = []

  -- The loop of the constructor over `orderPool_`, which runs with storage only; without, nothing
  -- reads `freeMsgPtrs_`.
  unfoldable free_addresses : List ℕ → List ℕ → List ℕ
  free_addresses [] free = free
  free_addresses (order ∷ pool) free = free_addresses pool (order ∷ free)

  unfoldable pub new : (ℕ → Order Double) → State → TheBook
  unfolding free_addresses
  new memory order_map = record {
    memory = memory;
    free = free_addresses order_pool [];
    order_count = 0;
    order_map = order_map;
    bid_levels = λ _. pos 0;
    ask_levels = λ _. pos 0;
    best_bid = negsuc 0;
    best_ask = pos max_price_levels;
  }

  -- The first part of `insert`: the pointer to keep.
  unfoldable pub obtain : Bool → TheBook → ℕ → Result (ℕ × TheBook)
  obtain false b order = ok (order, b)
  obtain true b order =
      if leb pool_size b.order_count then throws order_pool_full else elim b.free [
        | [] ↦ undefined
        | mem ∷ rest ↦ ok (
          mem,
          record b {
            memory = store b.memory mem (b.memory order);
            free = rest;
            order_count = b.order_count + 1;
          },
        )
      ]

  -- The price levels at the end of `insert`.
  unfoldable pub add_quantity : Bool → TheBook → ℤ → ℤ → Result TheBook
  unfolding level add_int
  add_quantity true b idx quantity = do
    i ← level idx
    sum ← add_int (b.bid_levels i) quantity
    ok (record b {
      bid_levels = store b.bid_levels i sum;
      best_bid = if ltb_ℤ b.best_bid idx then idx else b.best_bid;
    })
  add_quantity false b idx quantity = do
    i ← level idx
    sum ← add_int (b.ask_levels i) quantity
    ok (record b {
      ask_levels = store b.ask_levels i sum;
      best_ask = if ltb_ℤ idx b.best_ask then idx else b.best_ask;
    })

  unfoldable pub insert : Bool → TheBook → ℕ → Result TheBook
  unfolding obtain add_quantity price_to_index
  insert require_storage b order = do
    (mem, b₁) ← obtain require_storage b order
    let o = b₁.memory order
    order_map ← assign_at b₁.order_map o.order_id (some mem)
    idx ← price_to_index o.price
    add_quantity o.is_buy (record b₁ { order_map = order_map }) idx o.quantity

  unfoldable pub update_price_level : Bool → TheBook → Double → ℤ → Result TheBook
  unfolding price_to_index level add_int scan_down scan_up
  update_price_level true b price change = do
    idx ← price_to_index price
    i ← level idx
    sum ← add_int (b.bid_levels i) change
    let levels = store b.bid_levels i sum
    ok (record b {
      bid_levels = levels;
      best_bid =
          if eqb_ℤ idx b.best_bid && eqb_ℤ sum (pos 0)
          then pos (scan_down levels i)
          else b.best_bid;
    })
  update_price_level false b price change = do
    idx ← price_to_index price
    i ← level idx
    sum ← add_int (b.ask_levels i) change
    let levels = store b.ask_levels i sum
    ok (record b {
      ask_levels = levels;
      best_ask =
          if eqb_ℤ idx b.best_ask && eqb_ℤ sum (pos 0)
          then pos (scan_up levels (max_price_levels - (i + 1)) (i + 1))
          else b.best_ask;
    })

  unfoldable pub update : TheBook → ℕ → ℤ → Result TheBook
  update b order_id new_quantity = do
    expect (contains b.order_map order_id) order_not_found
    (ptr, order_map) ← read_at b.order_map order_id
    ord ← deref ptr
    let o = b.memory ord
    change ← sub_int new_quantity o.quantity
    b' ← update_price_level o.is_buy (record b { order_map = order_map }) o.price change
    ok (record b' {
      memory = store b'.memory ord (record (b'.memory ord) { quantity = new_quantity });
    })

  -- `freeMsgPtrs_.emplace_back(orderMap_[order_id]); --orderCount_;`
  unfoldable pub give_back : Bool → TheBook → ℕ → Result TheBook
  unfolding deref
  give_back false b order_id = ok b
  give_back true b order_id = do
    (ptr, order_map) ← read_at b.order_map order_id
    ord ← deref ptr
    ok (record b {
      order_map = order_map;
      free = ord ∷ b.free;
      order_count = (b.order_count + 2 ^ 64 - 1) % 2 ^ 64;
    })

  unfoldable pub cancel : Bool → TheBook → ℕ → Result TheBook
  cancel require_storage b order_id = do
    expect (contains b.order_map order_id) order_not_found
    (ptr, order_map) ← read_at b.order_map order_id
    ord ← deref ptr
    let o = b.memory ord
    change ← sub_int (pos 0) o.quantity
    b₁ ← update_price_level o.is_buy (record b { order_map = order_map }) o.price change
    b₂ ← give_back require_storage b₁ order_id
    ok (record b₂ { order_map = (erase b₂.order_map order_id).1 })

  unfoldable pub best_bid : TheBook → Result (Double × ℤ)
  unfolding level index_to_price
  best_bid b = do
    let price = index_to_price b.best_bid
    i ← level b.best_bid
    ok (price, b.bid_levels i)

  unfoldable pub best_ask : TheBook → Result (Double × ℤ)
  unfolding level index_to_price
  best_ask b = do
    let price = index_to_price b.best_ask
    i ← level b.best_ask
    ok (price, b.ask_levels i)
