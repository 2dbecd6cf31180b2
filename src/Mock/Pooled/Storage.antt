-- ===== src/Mock/Pooled/Storage.antt =====
-- c++20/MockOrderBook.cpp: the orders in use and the free ones are those of the pool.
use git_docs_test.Common.{
  ℕ, zero, suc, ◌+◌, ◌%◌, ◌^◌, ◌≤◌, ◌<◌, ◌≡◌, refl, sym, ap, ◌∙◌, Bool, true, false, not, some,
  List, [], ◌∷◌, length, leb, ℤ, pos, ok, throws, expect, order_pool_full, order_not_found, Ensures,
  Ensures-bind, Ensures-ok, Ensures-undefined, Bool-cases, inl, inr, arith,
}
use git_docs_test.HashMap.Key.{Key}
use git_docs_test.HashMap.Contract.{HashMap}
use git_docs_test.OrderBook.{Prices, Order, OrderPtr, level, add_int, sub_int, deref}
use git_docs_test.Mock.Pooled.{
  TheBook, pool_addresses, price_to_index, new, add_quantity, place_order, insert,
  update_price_level, update, cancel,
}

leb-true : (a b : ℕ) → a ≤ b → leb a b ≡ true
leb-true a b h = ground arith

length-pool_addresses : (n : ℕ) → length (pool_addresses n) ≡ n
unfolding pool_addresses
length-pool_addresses zero = refl
length-pool_addresses (suc n) = ap (λ (k : ℕ). suc k) (length-pool_addresses n)

room_left : (n m : ℕ) {u : Unit {0}} → expect (not (leb n m)) order_pool_full ≡ ok u → m < n
room_left n m e = elim (Bool-cases (leb n m)) [
  | inl full ↦
      let thrown : throws order_pool_full ≡ ok tt =
        ap (λ t. expect (not t) order_pool_full) (sym full) ∙ e in
      cc
  | inr room ↦ ground arith
]

module _ (prices : Prices) ⦃key : Key ℕ⦄ (orders : HashMap ℕ OrderPtr) where
  abbrev Same : TheBook prices orders → TheBook prices orders → Type 0
  Same b b' = (b'.free ≡ b.free) × (b'.order_count ≡ b.order_count)

  add_quantity-Same :
      (side : Bool) (b : TheBook prices orders) (idx quantity : ℤ)
      → Ensures (add_quantity prices orders side b idx quantity) (Same b)
  unfolding add_quantity
  add_quantity-Same true b idx quantity =
      Ensures-bind (level idx) (λ i e.
        Ensures-bind (add_int (b.bid_levels i) quantity) (λ sum e'. Ensures-ok (refl, refl)))
  add_quantity-Same false b idx quantity =
      Ensures-bind (level idx) (λ i e.
        Ensures-bind (add_int (b.ask_levels i) quantity) (λ sum e'. Ensures-ok (refl, refl)))

  update_price_level-Same :
      (side : Bool) (b : TheBook prices orders) (price : prices.Double) (change : ℤ)
      → Ensures (update_price_level prices orders side b price change) (Same b)
  unfolding update_price_level
  update_price_level-Same true b price change =
      Ensures-bind (price_to_index prices orders price) (λ idx e.
        Ensures-bind (level idx) (λ i e.
          Ensures-bind (add_int (b.bid_levels i) change) (λ sum e'. Ensures-ok (refl, refl))))
  update_price_level-Same false b price change =
      Ensures-bind (price_to_index prices orders price) (λ idx e.
        Ensures-bind (level idx) (λ i e.
          Ensures-bind (add_int (b.ask_levels i) change) (λ sum e'. Ensures-ok (refl, refl))))

  -- The count is a `size_t`, and with the free orders it makes the pool.
  abbrev pub Stocked : ℕ → TheBook prices orders → Type 0
  Stocked pool_size b =
      (b.order_count < 2 ^ 64) × ((b.order_count + length b.free) % 2 ^ 64 ≡ pool_size)

  place_order-Stocked :
      (pool_size : ℕ) (b b₀ : TheBook prices orders) (order : Order prices.Double) (free : List ℕ)
      → Stocked pool_size b₀
      → b.free ≡ free
      → free ≡ b₀.free
      → b.order_count ≡ b₀.order_count + 1
      → b.order_count < 2 ^ 64
      → Ensures (place_order prices orders b order) (Stocked pool_size)
  unfolding place_order
  place_order-Stocked pool_size b b₀ order [] (small, stock) e same more below =
      rw e Ensures-undefined
  place_order-Stocked pool_size b b₀ order (mem ∷ rest) (small, stock) e same more below = rw e (
      Ensures-bind (orders.assign_at b.order_map order.order_id (some mem)) (λ order_map e'.
        let len : length b₀.free ≡ suc (length rest) = ap length (sym same) in
        Ensures-ok (below, omega (arith, len, more, stock))))

  insert-Stocked :
      (pool_size : ℕ) (b : TheBook prices orders) (order : Order prices.Double)
      → Stocked pool_size b
      → Ensures (insert prices orders pool_size b order) (Stocked pool_size)
  unfolding insert
  insert-Stocked pool_size b order (small, stock) =
      let counted = record b { order_count = (b.order_count + 1) % 2 ^ 64 } in
      Ensures-bind (expect (not (leb pool_size b.order_count)) order_pool_full) (λ u e.
        Ensures-bind (price_to_index prices orders order.price) (λ idx e₁.
          Ensures-bind (add_quantity prices orders order.is_buy counted idx order.quantity)
            (λ b' e₂.
              let (same, more) =
                (add_quantity-Same order.is_buy counted idx order.quantity).holds b' e₂ in
              let below = room_left pool_size b.order_count e in
              place_order-Stocked pool_size b' b order b'.free (small, stock) refl same
                (omega arith) (omega arith))))

  update-Stocked :
      (pool_size : ℕ) (b : TheBook prices orders) (order_id : ℕ) (new_quantity : ℤ)
      → Stocked pool_size b
      → Ensures (update prices orders b order_id new_quantity) (Stocked pool_size)
  unfolding update
  update-Stocked pool_size b order_id new_quantity (small, stock) =
      Ensures-bind (expect (orders.contains b.order_map order_id) order_not_found) (λ u e.
        Ensures-bind (orders.read_at b.order_map order_id) (λ (ptr, order_map) e₁.
          Ensures-bind (deref ptr) (λ ord e₂.
            let o = b.memory ord in
            let b₁ = record b { order_map = order_map } in
            Ensures-bind (sub_int new_quantity o.quantity) (λ change e₃.
              Ensures-bind (update_price_level prices orders o.is_buy b₁ o.price change) (λ b' e₄.
                let (same, count) =
                  (update_price_level-Same o.is_buy b₁ o.price change).holds b' e₄ in
                Ensures-ok (omega arith, omega (arith, ap length same)))))))

  cancel-Stocked :
      (pool_size : ℕ) (b : TheBook prices orders) (order_id : ℕ)
      → Stocked pool_size b
      → Ensures (cancel prices orders b order_id) (Stocked pool_size)
  unfolding cancel
  cancel-Stocked pool_size b order_id (small, stock) =
      Ensures-bind (expect (orders.contains b.order_map order_id) order_not_found) (λ u e.
        Ensures-bind (orders.read_at b.order_map order_id) (λ (ptr, order_map) e₁.
          Ensures-bind (deref ptr) (λ ord e₂.
            let o = b.memory ord in
            let b₁ = record b { order_map = order_map } in
            Ensures-bind (sub_int (pos 0) o.quantity) (λ change e₃.
              Ensures-bind (update_price_level prices orders o.is_buy b₁ o.price change) (λ b' e₄.
                Ensures-bind (orders.read_at b'.order_map order_id) (λ (ptr', order_map') e₅.
                  Ensures-bind (deref ptr') (λ ord' e₆.
                    let (same, count) =
                      (update_price_level-Same o.is_buy b₁ o.price change).holds b' e₄ in
                    Ensures-ok (omega arith, omega (arith, ap length same)))))))))

  -- The states that a constructed book reaches by calls that return.
  pub data Reached (pool_size : ℕ) : TheBook prices orders → Type 0 where
    made :
        (blank : Order prices.Double) (order_map : orders.State)
        → Reached pool_size (new prices orders pool_size blank order_map)
    inserted :
        {b b' : TheBook prices orders} (order : Order prices.Double)
        → Reached pool_size b
        → insert prices orders pool_size b order ≡ ok b'
        → Reached pool_size b'
    updated :
        {b b' : TheBook prices orders} (order_id : ℕ) (new_quantity : ℤ)
        → Reached pool_size b
        → update prices orders b order_id new_quantity ≡ ok b'
        → Reached pool_size b'
    cancelled :
        {b b' : TheBook prices orders} (order_id : ℕ)
        → Reached pool_size b
        → cancel prices orders b order_id ≡ ok b'
        → Reached pool_size b'

  Reached-Stocked :
      (pool_size : ℕ) {b : TheBook prices orders}
      → pool_size < 2 ^ 64
      → Reached pool_size b
      → Stocked pool_size b
  unfolding new
  Reached-Stocked n small (made blank order_map) =
      (omega arith, omega (arith, length-pool_addresses n))
  Reached-Stocked n small (inserted {b} order r e) =
      (insert-Stocked n b order (Reached-Stocked n small r)).holds _ e
  Reached-Stocked n small (updated {b} order_id q r e) =
      (update-Stocked n b order_id q (Reached-Stocked n small r)).holds _ e
  Reached-Stocked n small (cancelled {b} order_id r e) =
      (cancel-Stocked n b order_id (Reached-Stocked n small r)).holds _ e

  -- For a pool of fewer than 2^64 orders, in every reached state in which no order of the pool is
  -- free, `insert` throws before it reads the back of the empty `order_memory`.
  pub full_pool :
      (pool_size : ℕ) (b : TheBook prices orders) (order : Order prices.Double)
      → pool_size < 2 ^ 64
      → Reached pool_size b
      → b.free ≡ []
      → insert prices orders pool_size b order ≡ throws order_pool_full
  unfolding insert
  full_pool n b order small r none_free =
      let (below, stock) = Reached-Stocked n small r in
      let full : leb n b.order_count ≡ true =
        leb-true n b.order_count (omega (arith, ap length none_free)) in
      rw full refl
