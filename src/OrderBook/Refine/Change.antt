-- ===== src/OrderBook/Refine/Change.antt =====
-- HFT/OrderBook.hpp, `updatePriceLevel`: the quantity of a resting order changes.
use git_docs_test.Common.{
  lt→ltb, ℕ, ◌+◌, ◌-◌, ◌≤◌, ◌<◌, ◌≡◌, ◌≢◌, refl, sym, subst, fun_ext, Bool, true, false, some, List,
  ◌&&◌, if◌then◌else◌, eqb_ℤ, inl, inr, ◌⊎◌, pos, ◌-ℤ◌, ok, Returns, arith,
}
use git_docs_test.HashMap.Key.{Key}
use git_docs_test.HashMap.Contract.{HashMap}
use git_docs_test.OrderBook.{
  Prices, OrderPtr, TheBook, store, price_to_index, max_price_levels, scan_down, scan_up,
  update_price_level,
}
use git_docs_test.OrderBook.Live.{
  Entry, with_quantity, weight, total, entry, weight-own, weight-other, quantity-le-total,
}
use git_docs_test.OrderBook.Sides.{
  BidSide, AskSide, BidSide-change, AskSide-change, int_max, add_change-ok,
}

module _ (prices : Prices) ⦃key : Key ℕ⦄ (orders : HashMap ℕ OrderPtr) where
  -- The totals of `live'` are those of `live` with `n` for the quantity of `e`.
  abbrev pub Replaces : Entry → ℕ → List Entry → List Entry → Type 0
  Replaces e n live live' =
      (side : Bool) (i : ℕ)
      → total side i live' + weight side i e ≡ total side i live + weight side i (with_quantity n e)

  -- What `updatePriceLevel` leaves alone, and the levels that it leaves.
  pub record Changed (b b' : TheBook prices orders) (live' : List Entry) : Type 0 where
    pub memory : b'.memory ≡ b.memory
    pub order_map : b'.order_map ≡ b.order_map
    pub bids : BidSide b'.bid_levels b'.best_bid (λ i. total true i live')
    pub asks : AskSide b'.ask_levels b'.best_ask (λ i. total false i live')

  update_bid-run :
      (b : TheBook prices orders) (price : prices.Double) (s t u n q : ℕ)
      → price_to_index prices orders price ≡ ok (pos s)
      → s < max_price_levels
      → b.bid_levels s ≡ pos t
      → u + q ≡ t + n
      → u ≤ int_max
      → update_price_level prices orders true b price (pos n -ℤ pos q)
        ≡ ok (record b {
          bid_levels = store b.bid_levels s (pos u);
          best_bid =
              if eqb_ℤ (pos s) b.best_bid && eqb_ℤ (pos u) (pos 0)
              then pos (scan_down (store b.bid_levels s (pos u)) s)
              else b.best_bid;
        })
  unfolding update_price_level
  update_bid-run b price s t u n q priced inside h sum fits =
      rw (priced, lt→ltb s max_price_levels inside, h, add_change-ok t u n q sum fits)

  update_ask-run :
      (b : TheBook prices orders) (price : prices.Double) (s t u n q : ℕ)
      → price_to_index prices orders price ≡ ok (pos s)
      → s < max_price_levels
      → b.ask_levels s ≡ pos t
      → u + q ≡ t + n
      → u ≤ int_max
      → update_price_level prices orders false b price (pos n -ℤ pos q)
        ≡ ok (record b {
          ask_levels = store b.ask_levels s (pos u);
          best_ask =
              if eqb_ℤ (pos s) b.best_ask && eqb_ℤ (pos u) (pos 0)
              then pos (scan_up (store b.ask_levels s (pos u)) (max_price_levels - (s + 1)) (s + 1))
              else b.best_ask;
        })
  unfolding update_price_level
  update_ask-run b price s t u n q priced inside h sum fits =
      rw (priced, lt→ltb s max_price_levels inside, h, add_change-ok t u n q sum fits)

  module _ (b : TheBook prices orders) (live live' : List Entry) (k n : ℕ) (e : Entry)
      (price : prices.Double) (found : entry k live ≡ some e)
      (priced : price_to_index prices orders price ≡ ok (pos e.slot))
      (inside : e.slot < max_price_levels) (positive : 0 < e.quantity)
      (replaces : Replaces e n live live') (fits : total e.buy e.slot live' ≤ int_max)
      (bids : BidSide b.bid_levels b.best_bid (λ i. total true i live))
      (asks : AskSide b.ask_levels b.best_ask (λ i. total false i live)) where
    -- elsewhere nothing changes
    unchanged :
        (side : Bool) (j : ℕ)
        → (j ≢ e.slot) ⊎ (side ≢ e.buy)
        → total side j live' ≡ total side j live
    unchanged side j away = omega (
      arith,
      replaces side j,
      weight-other side j e away,
      weight-other side j (with_quantity n e) away,
    )

    balance : total e.buy e.slot live' + e.quantity ≡ total e.buy e.slot live + n
    balance = omega (arith, replaces e.buy e.slot, weight-own e, weight-own (with_quantity n e))

    at_level : 0 < total e.buy e.slot live
    at_level = omega (arith, positive, quantity-le-total k live e found)

    change_by :
        (side : Bool)
        → e.buy ≡ side
        → Returns
            (update_price_level prices orders side b price (pos n -ℤ pos e.quantity))
            (λ b'. Changed b b' live')
    change_by true q =
        let f = λ (i : ℕ). total true i live in
        let g = λ (i : ℕ). total true i live' in
        (
          record b {
            bid_levels = store b.bid_levels e.slot (pos (g e.slot));
            best_bid =
                if eqb_ℤ (pos e.slot) b.best_bid && eqb_ℤ (pos (g e.slot)) (pos 0)
                then pos (scan_down (store b.bid_levels e.slot (pos (g e.slot))) e.slot)
                else b.best_bid;
          },
          update_bid-run b price e.slot (f e.slot) (g e.slot) n e.quantity priced inside
              (bids.holds e.slot)
              (subst (λ x. total x e.slot live' + e.quantity ≡ total x e.slot live + n) q balance)
              (subst (λ x. total x e.slot live' ≤ int_max) q fits),
          record {
            memory = refl;
            order_map = refl;
            bids =
                BidSide-change b.bid_levels f g e.slot inside (λ j ne. unchanged true j (inl ne))
                  (subst (λ x. total x e.slot live' ≤ int_max) q fits) bids
                  (subst (λ x. 0 < total x e.slot live) q at_level);
            asks =
                subst (AskSide b.ask_levels b.best_ask)
                  (fun_ext (λ j. sym (unchanged false j (inr (λ h. cc))))) asks;
          },
        )
    change_by false q =
        let f = λ (i : ℕ). total false i live in
        let g = λ (i : ℕ). total false i live' in
        (
          record b {
            ask_levels = store b.ask_levels e.slot (pos (g e.slot));
            best_ask =
                if eqb_ℤ (pos e.slot) b.best_ask && eqb_ℤ (pos (g e.slot)) (pos 0)
                then pos (
                    scan_up (store b.ask_levels e.slot (pos (g e.slot)))
                      (max_price_levels - (e.slot + 1)) (e.slot + 1))
                else b.best_ask;
          },
          update_ask-run b price e.slot (f e.slot) (g e.slot) n e.quantity priced inside
              (asks.holds e.slot)
              (subst (λ x. total x e.slot live' + e.quantity ≡ total x e.slot live + n) q balance)
              (subst (λ x. total x e.slot live' ≤ int_max) q fits),
          record {
            memory = refl;
            order_map = refl;
            asks =
                AskSide-change b.ask_levels f g e.slot inside (λ j ne. unchanged false j (inl ne))
                  (subst (λ x. total x e.slot live' ≤ int_max) q fits) asks
                  (subst (λ x. 0 < total x e.slot live) q at_level);
            bids =
                subst (BidSide b.bid_levels b.best_bid)
                  (fun_ext (λ j. sym (unchanged true j (inr (λ h. cc))))) bids;
          },
        )

    -- `updatePriceLevel` returns; afterwards the levels and the indices are those of `live'`.
    pub update_price_level_lem :
        Returns
          (update_price_level prices orders e.buy b price (pos n -ℤ pos e.quantity))
          (λ b'. Changed b b' live')
    update_price_level_lem = change_by e.buy refl
