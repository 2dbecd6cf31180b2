-- ===== src/OrderBook/Tests.antt =====
-- The order book of HFT/OrderBook.hpp run on a small map, with prices in hundredths, and its
-- theorems at these inputs.
use git_docs_test.Common.{
  ℕ, ◌+◌, ◌*◌, ◌/◌, ◌≤◌, ◌<◌, ◌≡◌, refl, true, false, none, some, [], ◌∷◌, pos, pos_part, ltb, ok,
  undefined, Returns, arith, length,
}
use git_docs_test.HashMap.Sample.{id_key}
use git_docs_test.HashMap.Contract.{HashMap}
use git_docs_test.HashMap.Chaining.{Chaining}
use git_docs_test.HashMap.Chaining.Buckets.{IsValid}
use git_docs_test.HashMap.Chaining.Laws.{chaining, chaining_accepts}
use git_docs_test.HashMap.Chaining as Map
use git_docs_test.OrderBook.{
  Prices, Order, OrderPtr, TheBook, price_to_index, index_to_price, new, insert, update, cancel,
  best_bid,
}
use git_docs_test.OrderBook.Live.{Entry, total, entry, set_quantity, without, weight}
use git_docs_test.OrderBook.Refine.{Represents, Shows}
use git_docs_test.OrderBook.Refine.Insert.{IsNew, insert_refines}
use git_docs_test.OrderBook.Refine.Update.{update_refines}
use git_docs_test.OrderBook.Refine.Cancel.{cancel_refines}
use git_docs_test.OrderBook.Refine.Top.{best_bid_lem, new_represents}

abbrev cents : Prices
cents = record {
  Double = ℕ;
  tick_size = 1;
  one = 100;
  multiply = λ a b. a * b / 100;
  divide = λ a b. a * 100 / b;
  of_size = λ n. n * 100;
  to_size = λ d. d / 100;
  of_int = λ i. pos_part i * 100;
  to_int = λ d. ok (pos (d / 100));
}

abbrev orders : HashMap ℕ OrderPtr
orders = chaining none

-- orders 0 and 1 are bids at 1.00 and 1.01, the others are asks
abbrev memory : ℕ → Order ℕ
memory a = record { order_id = a; price = 100 + a; quantity = pos (a + 10); is_buy = ltb a 2 }

abbrev empty_map : Chaining ℕ OrderPtr
empty_map = (chaining_accepts {K = ℕ} {V = OrderPtr} 2 (omega arith) (1, refl)).0

made : IsValid empty_map × (length empty_map.table ≡ 2) × ((k : ℕ) → Map.find empty_map k ≡ none)
made = (chaining_accepts {K = ℕ} {V = OrderPtr} 2 (omega arith) (1, refl)).2

abbrev empty_book : TheBook cents orders
empty_book = new cents orders memory empty_map

empty_represents : Represents cents orders empty_book []
empty_represents = new_represents cents orders memory empty_map made.0 made.2

abbrev bid : Entry
bid = record { id = 0; address = 0; buy = true; slot = 100; quantity = 10 }

bid-Shows : Shows cents orders memory bid
unfolding price_to_index
bid-Shows = record {
  priced = refl;
  inside = omega arith;
  amount = refl;
  positive = omega arith;
  sided = refl;
}

bid-IsNew : IsNew cents orders empty_book [] bid
unfolding new entry total
bid-IsNew = record {
  named = refl;
  shows = bid-Shows;
  new_id = refl;
  new_address = λ k d h. cc;
  fits = omega arith;
}

abbrev map_with_bid : Chaining ℕ OrderPtr
map_with_bid = Map.assign_at none empty_map 0 (some 0)

map_run : orders.assign_at empty_book.order_map 0 (some 0) ≡ ok map_with_bid
unfolding new
map_run = refl

abbrev with_bid :
    Returns (insert cents orders false empty_book 0) λ b. Represents cents orders b (bid ∷ [])
with_bid = insert_refines cents orders bid {m = map_with_bid} empty_represents bid-IsNew map_run

-- the book with the bid, and then with quantity 25
abbrev bid_book : TheBook cents orders
bid_book = with_bid.0

insert_refines_example :
    Returns (insert cents orders false empty_book 0) λ b. Represents cents orders b (bid ∷ [])
insert_refines_example =
    insert_refines cents orders bid {m = map_with_bid} empty_represents bid-IsNew map_run

update_refines_example :
    Returns
      (update cents orders bid_book 0 (pos 25))
      λ b. Represents cents orders b (set_quantity 0 25 (bid ∷ []))
unfolding entry set_quantity total weight
update_refines_example =
    update_refines cents orders 0 25 bid with_bid.2 refl (omega arith) (omega arith) (omega arith)

cancel_refines_example :
    Returns
      (cancel cents orders false bid_book 0)
      λ b. Represents cents orders b (without 0 (bid ∷ []))
unfolding entry
cancel_refines_example = cancel_refines cents orders false 0 bid with_bid.2 refl

best_bid_lem_example :
    (n : ℕ) × (best_bid cents orders bid_book
      ≡ ok (index_to_price cents orders (pos n), pos (total true n (bid ∷ []))))
    × (0 < total true n (bid ∷ []))
    × ((q : ℕ) (d : Entry) → entry q (bid ∷ []) ≡ some d → d.buy ≡ true → d.slot ≤ n)
unfolding entry
best_bid_lem_example = best_bid_lem cents orders 0 bid with_bid.2 refl refl

-- The loop of the constructor has no orders to register.
no_pool : insert cents orders true empty_book 0 ≡ undefined
unfolding insert new
no_pool = refl

abbrev ask : Entry
ask = record { id = 2; address = 2; buy = false; slot = 102; quantity = 12 }

ask-IsNew : IsNew cents orders empty_book [] ask
unfolding new entry total price_to_index
ask-IsNew = record {
  named = refl;
  shows = record {
    priced = refl;
    inside = omega arith;
    amount = refl;
    positive = omega arith;
    sided = refl;
  };
  new_id = refl;
  new_address = λ k d h. cc;
  fits = omega arith;
}

abbrev map_with_ask : Chaining ℕ OrderPtr
map_with_ask = Map.assign_at none empty_map 2 (some 2)

map_with_ask_run : orders.assign_at empty_book.order_map 2 (some 2) ≡ ok map_with_ask
unfolding new
map_with_ask_run = refl

abbrev with_ask :
    Returns (insert cents orders false empty_book 2) λ b. Represents cents orders b (ask ∷ [])
with_ask =
    insert_refines cents orders ask {m = map_with_ask} empty_represents ask-IsNew map_with_ask_run
