-- ===== src/Mock/ZeroCopy/Best.antt =====
-- c++20/MockOrderBook_ZeroCopy.cpp: where the best bid gets lost.
use git_docs_test.Common.{
  ℕ, zero, suc, ◌-◌, ◌^◌, ◌<◌, ==_iff, ◌≡◌, refl, ap, ◌∙◌, Bool, true, false, List, [], ◌∷◌, pos, ℤ,
  some, ltb, ◌==◌, ltb_ℤ, if◌then◌else◌, Result, ok, undefined, ◌>>=◌, Ensures, Ensures-bind,
  Ensures-ok, arith,
}
use git_docs_test.HashMap.Key.{Key}
use git_docs_test.HashMap.Contract.{HashMap}
use git_docs_test.OrderBook.{Prices, Order, OrderPtr, store, max_price_levels, level, add_int}
use git_docs_test.Mock.Levels.{level-inside, level-ok, level-outside, store-below}
use git_docs_test.Mock.ZeroCopy.{
  TheBook, price_to_index, new, add_quantity, insert, scan_bids, update_price_level, best_bid,
}

-- not raised
stays :
    (best idx : ℕ)
    → best ≡ 2 ^ 64 - 1
    → idx < max_price_levels
    → (if ltb best idx then idx else best) ≡ 2 ^ 64 - 1
stays best idx h h' = ground arith

scan_bids-none :
    (levels : ℕ → ℤ) (n : ℕ)
    → ((i : ℕ) → i < n → ltb_ℤ (pos 0) (levels i) ≡ false)
    → scan_bids levels n ≡ undefined
unfolding scan_bids
scan_bids-none levels zero h = refl
scan_bids-none levels (suc n) h =
    rw (h n (omega arith)) (scan_bids-none levels n (λ i lt. h i (omega arith)))

module _ (prices : Prices) ⦃key : Key ℕ⦄ (orders : HashMap ℕ OrderPtr) where
  -- one order after the other
  abbrev pub insert_all : TheBook prices orders → List ℕ → Result (TheBook prices orders)
  insert_all b [] = ok b
  insert_all b (order ∷ rest) = insert prices orders b order >>= λ b'. insert_all b' rest

  abbrev Unset : TheBook prices orders → Type 0
  Unset b = b.best_bid_index ≡ 2 ^ 64 - 1

  add_quantity-Unset :
      (side : Bool) (b : TheBook prices orders) (idx : ℕ) (quantity : ℤ)
      → Unset b
      → Ensures (add_quantity prices orders side b idx quantity) Unset
  unfolding add_quantity
  add_quantity-Unset true b idx quantity h = Ensures-bind (level (pos idx)) (λ i e.
      Ensures-bind (add_int (b.bid_levels i) quantity)
        (λ sum e'. Ensures-ok (stays b.best_bid_index idx h (level-inside idx i e).1)))
  add_quantity-Unset false b idx quantity h =
      Ensures-bind (level (pos idx))
        (λ i e. Ensures-bind (add_int (b.ask_levels i) quantity) (λ sum e'. Ensures-ok h))

  insert-Unset :
      (b : TheBook prices orders) (order : ℕ)
      → Unset b
      → Ensures (insert prices orders b order) Unset
  unfolding insert
  insert-Unset b order h =
      let o = b.memory order in
      Ensures-bind (price_to_index prices orders o.price) (λ idx e.
        Ensures-bind (add_quantity prices orders o.is_buy b idx o.quantity) (λ b' e₁.
          Ensures-bind (orders.assign_at b'.order_map o.order_id (some order))
            (λ m e₂. Ensures-ok ((add_quantity-Unset o.is_buy b idx o.quantity h).holds b' e₁))))

  insert_all-Unset :
      (b : TheBook prices orders) (list : List ℕ) → Unset b → Ensures (insert_all b list) Unset
  insert_all-Unset b [] h = Ensures-ok h
  insert_all-Unset b (order ∷ rest) h =
      Ensures-bind (insert prices orders b order)
        (λ b' e. insert_all-Unset b' rest ((insert-Unset b order h).holds b' e))

  -- After any insertions into a constructed book, `best_bid` reads outside the array of levels.
  pub no_best_bid :
      (memory : ℕ → Order prices.Double) (order_map : orders.State) (list : List ℕ)
      (b : TheBook prices orders)
      → insert_all (new prices orders memory order_map) list ≡ ok b
      → best_bid prices orders b ≡ undefined
  unfolding best_bid new
  no_best_bid memory order_map list b e =
      let unset = (insert_all-Unset (new prices orders memory order_map) list refl).holds b e in
      rw (level-outside b.best_bid_index (omega arith)) refl

  -- When the quantity of the best bid level becomes 0 and no level below it has any,
  -- `update_price_level` reads outside the array of levels.
  pub last_bid :
      (b : TheBook prices orders) (price : prices.Double) (change : ℤ) (i : ℕ)
      → price_to_index prices orders price ≡ ok i
      → i ≡ b.best_bid_index
      → i < max_price_levels
      → add_int (b.bid_levels i) change ≡ ok (pos 0)
      → ((j : ℕ) → j < i → ltb_ℤ (pos 0) (b.bid_levels j) ≡ false)
      → update_price_level prices orders true b price change ≡ undefined
  unfolding update_price_level
  last_bid b price change i priced best inside emptied none_below =
      let at_best : (i == b.best_bid_index) ≡ true = (==_iff i b.best_bid_index).1 best in
      let none_left : scan_bids (store b.bid_levels i (pos 0)) i ≡ undefined =
        scan_bids-none (store b.bid_levels i (pos 0)) i (λ j lt.
          ap (ltb_ℤ (pos 0)) (store-below b.bid_levels i j (pos 0) lt) ∙ none_below j lt) in
      rw (priced, level-ok i inside, emptied, at_best, none_left) refl
