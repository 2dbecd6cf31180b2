-- ===== src/OrderBook/Refine/Insert.antt =====
-- HFT/OrderBook.hpp, `insert` without storage: the caller's order joins the book.
use git_docs_test.Common.{
  lt→ltb, ℕ, ◌+◌, ◌≤◌, ◌<◌, ◌≡◌, ◌≢◌, refl, ap, ◌∙◌, subst, fun_ext, Bool, true, false, none, some,
  List, ◌∷◌, ◌==◌, if◌then◌else◌, ltb_ℤ, Bool-cases, inl, inr, ◌⊎◌, pos, ok, Returns, arith,
}
use git_docs_test.HashMap.Key.{Key}
use git_docs_test.HashMap.Contract.{HashMap}
use git_docs_test.OrderBook.{
  Prices, Order, OrderPtr, TheBook, store, max_price_levels, add_quantity, insert,
}
use git_docs_test.OrderBook.Live.{Entry, weight, total, entry, weight-own, weight-other}
use git_docs_test.OrderBook.Sides.{
  BidSide, AskSide, BidSide-raise, AskSide-lower, int_max, add_int-ok,
}
use git_docs_test.OrderBook.Refine.{Shows, Indexed, Represents}

module _ (prices : Prices) ⦃key : Key ℕ⦄ (orders : HashMap ℕ OrderPtr) where
  -- The order at the entry's address is a new one: neither its id nor its address is in the book, and its
  -- level does not overflow.
  pub record IsNew (b : TheBook prices orders) (live : List Entry) (e : Entry) : Type 0 where
    pub named : (b.memory e.address).order_id ≡ e.id
    pub shows : Shows prices orders b.memory e
    pub new_id : entry e.id live ≡ none
    pub new_address : (k : ℕ) (d : Entry) → entry k live ≡ some d → d.address ≢ e.address
    pub fits : total e.buy e.slot live + e.quantity ≤ int_max

  -- the map of the longer book
  Indexed-cons :
      {memory : ℕ → Order prices.Double} {m m' : orders.State} {live : List Entry} (e : Entry)
      → Indexed prices orders memory m live
      → Shows prices orders memory e
      → entry e.id live ≡ none
      → ((k : ℕ) (d : Entry) → entry k live ≡ some d → d.address ≢ e.address)
      → orders.assign_at m e.id (some e.address) ≡ ok m'
      → Indexed prices orders memory m' (e ∷ live)
  unfolding entry
  Indexed-cons {memory} {m} {m'} {live} e ix sh new_id new_address run = record {
    valid = orders.assign_at-IsValid m m' e.id (some e.address) ix.valid run;
    distinct = (new_id, ix.distinct);
    mapped = λ k.
        orders.assign_at-find m m' e.id k (some e.address) ix.valid run
        ∙ ground (arith, ix.mapped k, key.equal_iff e.id k);
    shown = λ k d h. shown_by k d h (Bool-cases (e.id == k));
    apart = λ k q c d h j same. ground (
      arith,
      ix.apart k q c d,
      new_address k c,
      new_address q d,
      λ (p : e ≡ c). ap (λ (x : Entry). x.address) p,
      λ (p : e ≡ d). ap (λ (x : Entry). x.address) p,
    );
  }
    where
      shown_by :
          (k : ℕ) (d : Entry)
          → entry k (e ∷ live) ≡ some d
          → ((e.id == k) ≡ true) ⊎ ((e.id == k) ≡ false)
          → Shows prices orders memory d
      shown_by k d h (inl t) = subst (Shows prices orders memory) (ground (arith, t)) sh
      shown_by k d h (inr f) = ix.shown k d (ground (arith, f))

  add_quantity-buy :
      (b : TheBook prices orders) (s t n : ℕ)
      → s < max_price_levels
      → b.bid_levels s ≡ pos t
      → t + n ≤ int_max
      → add_quantity prices orders true b (pos s) (pos n)
        ≡ ok (record b {
          bid_levels = store b.bid_levels s (pos (t + n));
          best_bid = if ltb_ℤ b.best_bid (pos s) then pos s else b.best_bid;
        })
  unfolding add_quantity
  add_quantity-buy b s t n inside e fits =
      rw (lt→ltb s max_price_levels inside, e, add_int-ok t n fits)

  add_quantity-sell :
      (b : TheBook prices orders) (s t n : ℕ)
      → s < max_price_levels
      → b.ask_levels s ≡ pos t
      → t + n ≤ int_max
      → add_quantity prices orders false b (pos s) (pos n)
        ≡ ok (record b {
          ask_levels = store b.ask_levels s (pos (t + n));
          best_ask = if ltb_ℤ (pos s) b.best_ask then pos s else b.best_ask;
        })
  unfolding add_quantity
  add_quantity-sell b s t n inside e fits =
      rw (lt→ltb s max_price_levels inside, e, add_int-ok t n fits)

  -- `insert` reads the order and goes on to the levels.
  insert-run :
      (b : TheBook prices orders) {live : List Entry} (e : Entry) (m : orders.State)
      → IsNew b live e
      → orders.assign_at b.order_map e.id (some e.address) ≡ ok m
      → insert prices orders false b e.address
        ≡ add_quantity prices orders e.buy
            (record b { order_map = m })
            (pos e.slot)
            (pos e.quantity)
  unfolding insert
  insert-run b e m n run = rw (n.named, run, n.shows.priced, n.shows.sided, n.shows.amount)

  -- An order of positive quantity that is new to the book, on a level that does not overflow, joins
  -- the entries: `insert` returns, and the new book represents them all.
  pub insert_refines :
      {b : TheBook prices orders} {live : List Entry} (e : Entry) {m : orders.State}
      → Represents prices orders b live
      → IsNew b live e
      → orders.assign_at b.order_map e.id (some e.address) ≡ ok m
      → Returns
          (insert prices orders false b e.address)
          λ b'. Represents prices orders b' (e ∷ live)
  insert_refines {b} {live} e {m} r n run = rw (insert-run b e m n run) (by_side e.buy refl)
    where
      index : Indexed prices orders b.memory m (e ∷ live)
      index = Indexed-cons e r.indexed n.shows n.new_id n.new_address run

      f : Bool → ℕ → ℕ
      f side i = total side i live

      grown : (side : Bool) (i : ℕ) → total side i (e ∷ live) ≡ weight side i e + f side i
      grown side i = unfold total in refl

      other : (side : Bool) → side ≢ e.buy → f side ≡ (λ i. total side i (e ∷ live))
      other side ne = fun_ext (λ i. omega (arith, grown side i, weight-other side i e (inr ne)))

      by_side :
          (side : Bool)
          → e.buy ≡ side
          → Returns
              (add_quantity prices orders side
                (record b { order_map = m })
                (pos e.slot)
                (pos e.quantity))
              (λ b'. Represents prices orders b' (e ∷ live))
      by_side true q =
          let old = b.bid_levels in
          let t = f true e.slot in
          let fits : t + e.quantity ≤ int_max =
            subst (λ x. total x e.slot live + e.quantity ≤ int_max) q n.fits in
          let sum : total true e.slot (e ∷ live) ≡ t + e.quantity = omega (
            arith,
            grown true e.slot,
            subst (λ x. weight x e.slot e ≡ e.quantity) q (weight-own e),
          ) in
          (
            record b {
              order_map = m;
              bid_levels = store old e.slot (pos (t + e.quantity));
              best_bid = if ltb_ℤ b.best_bid (pos e.slot) then pos e.slot else b.best_bid;
            },
            add_quantity-buy (record b { order_map = m }) e.slot t e.quantity n.shows.inside
                (r.bids.holds e.slot) fits,
            record {
              indexed = index;
              bids = rw sum at (
                  BidSide-raise old (f true) (λ i. total true i (e ∷ live)) e.slot n.shows.inside
                    (λ j ne. omega (arith, grown true j, weight-other true j e (inl ne)))
                    (omega arith) r.bids (omega (arith, n.shows.positive)));
              asks = subst (AskSide b.ask_levels b.best_ask) (other false (λ h. cc)) r.asks;
            },
          )
      by_side false q =
          let old = b.ask_levels in
          let t = f false e.slot in
          let fits : t + e.quantity ≤ int_max =
            subst (λ x. total x e.slot live + e.quantity ≤ int_max) q n.fits in
          let sum : total false e.slot (e ∷ live) ≡ t + e.quantity = omega (
            arith,
            grown false e.slot,
            subst (λ x. weight x e.slot e ≡ e.quantity) q (weight-own e),
          ) in
          (
            record b {
              order_map = m;
              ask_levels = store old e.slot (pos (t + e.quantity));
              best_ask = if ltb_ℤ (pos e.slot) b.best_ask then pos e.slot else b.best_ask;
            },
            add_quantity-sell (record b { order_map = m }) e.slot t e.quantity n.shows.inside
                (r.asks.holds e.slot) fits,
            record {
              indexed = index;
              asks = rw sum at (
                  AskSide-lower old (f false) (λ i. total false i (e ∷ live)) e.slot n.shows.inside
                    (λ j ne. omega (arith, grown false j, weight-other false j e (inl ne)))
                    (omega arith) r.asks (omega (arith, n.shows.positive)));
              bids = subst (BidSide b.bid_levels b.best_bid) (other true (λ h. cc)) r.bids;
            },
          )
