-- ===== src/Mock/Tests.antt =====
-- The order books of c++20 on a small map, with prices in hundredths.
use git_docs_test.Common.{
  ℕ, ◌+◌, ◌*◌, ◌/◌, ◌<◌, ◌≡◌, refl, true, false, none, some, [], ◌∷◌, pos, negsuc, pos_part, ok,
  throws, undefined, order_pool_full, arith, Result, ◌>>=◌, ◌+ℤ◌, ltb_ℤ, ◌-◌, ◌^◌,
}
use git_docs_test.HashMap.Sample.{id_key}
use git_docs_test.HashMap.Contract.{HashMap}
use git_docs_test.HashMap.Chaining.{Chaining, assign_at}
use git_docs_test.HashMap.Chaining.Laws.{chaining}
use git_docs_test.OrderBook.{Prices, Order, OrderPtr, store, add_int}
use git_docs_test.Mock.Pooled as Pooled
use git_docs_test.Mock.Pooled.Storage.{made, inserted, full_pool}
use git_docs_test.Mock.ZeroCopy as ZeroCopy
use git_docs_test.Mock.ZeroCopy.Best.{insert_all, no_best_bid}

abbrev cents : Prices
cents = record {
  Double = ℕ;
  tick_size = 1;
  one = 100;
  multiply = λ a b. a * b / 100;
  divide = λ a b. a * 100 / b;
  of_size = λ n. n * 100;
  to_size = λ d. d / 100;
  of_int = λ i. pos_part i * 100;
  to_int = λ d. ok (pos (d / 100));
}

abbrev orders : HashMap ℕ OrderPtr
orders = chaining none

abbrev empty_map : Chaining ℕ OrderPtr
empty_map = record { table = [] ∷ [] ∷ []; mask = 1 }

abbrev bid : ℕ → Order ℕ
bid id = record { order_id = id; price = 100 + id; quantity = pos 10; is_buy = true }

abbrev made_book : Pooled.TheBook cents orders
made_book = Pooled.new cents orders 1 (bid 0) empty_map

abbrev with_bid : Result (Pooled.TheBook cents orders)
with_bid = Pooled.insert cents orders 1 made_book (bid 1)

best_of_one : (with_bid >>= Pooled.best_bid cents orders) ≡ ok (101, pos 10)
unfolding Pooled.insert Pooled.best_bid Pooled.new ◌+ℤ◌
best_of_one = refl

abbrev bid_book : Pooled.TheBook cents orders
bid_book = record {
  memory = store (λ _. bid 0) 0 (bid 1);
  free = [];
  order_count = 1;
  order_map = record { table = [] ∷ (record { key = 1; value = some 0 } ∷ []) ∷ []; mask = 1 };
  bid_levels = store (λ _. pos 0) 101 (pos 10);
  ask_levels = λ _. pos 0;
  best_bid_index = pos 101;
  best_ask_index = pos 100_000;
}

bid_inserted : Pooled.insert cents orders 1 made_book (bid 1) ≡ ok bid_book
unfolding Pooled.insert Pooled.new ◌+ℤ◌ assign_at
bid_inserted = refl

full_pool_example : Pooled.insert cents orders 1 bid_book (bid 2) ≡ throws order_pool_full
full_pool_example =
    full_pool cents orders 1 bid_book (bid 2) (omega arith)
      (inserted (bid 1) (made (bid 0) empty_map) bid_inserted) refl

abbrev less_book : Pooled.TheBook cents orders
less_book = record bid_book {
  bid_levels = store bid_book.bid_levels 101 (pos 6);
  best_bid_index = pos 0;
}

priced : Pooled.price_to_index cents orders 101 ≡ ok (pos 101)
unfolding Pooled.price_to_index
priced = refl

four_less : Pooled.update_price_level cents orders true bid_book 101 (negsuc 3) ≡ ok less_book
unfolding Pooled.update_price_level ◌+ℤ◌
four_less = refl

abbrev no_orders : ZeroCopy.TheBook cents orders
no_orders = ZeroCopy.new cents orders bid empty_map

abbrev copied : ZeroCopy.TheBook cents orders
copied = record {
  memory = bid;
  order_map = record { table = [] ∷ (record { key = 1; value = some 1 } ∷ []) ∷ []; mask = 1 };
  bid_levels = store (λ _. pos 0) 101 (pos 10);
  ask_levels = λ _. pos 0;
  best_bid_index = 2 ^ 64 - 1;
  best_ask_index = 100_000;
}

bid_kept : insert_all cents orders no_orders (1 ∷ []) ≡ ok copied
unfolding ZeroCopy.insert ZeroCopy.new ◌+ℤ◌ assign_at
bid_kept = refl

no_best_bid_example : ZeroCopy.best_bid cents orders copied ≡ undefined
no_best_bid_example = no_best_bid cents orders bid empty_map (1 ∷ []) copied bid_kept

level_of : ZeroCopy.price_to_index cents orders 101 ≡ ok 101
unfolding ZeroCopy.price_to_index
level_of = refl

emptied : add_int (copied.bid_levels 101) (negsuc 9) ≡ ok (pos 0)
unfolding add_int ◌+ℤ◌
emptied = refl

none_below : (j : ℕ) → j < 101 → ltb_ℤ (pos 0) (copied.bid_levels j) ≡ false
none_below j h = ground arith
