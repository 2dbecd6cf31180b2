-- ===== src/OrderBook/Refine/Update.antt =====
-- HFT/OrderBook.hpp, `update`: a resting order gets another quantity.
use git_docs_test.Common.{
  ℕ, ◌≤◌, ◌<◌, ◌≡◌, ◌≢◌, refl, sym, ap, ◌∙◌, subst, Bool, true, false, Option, none, some, List,
  ◌==◌, if◌then◌else◌, Bool-cases, inl, inr, ◌⊎◌, ℤ, pos, ◌-ℤ◌, ok, throws, order_not_found,
  Returns, arith,
}
use git_docs_test.HashMap.Key.{Key}
use git_docs_test.HashMap.Contract.{HashMap, is_some}
use git_docs_test.OrderBook.{
  Prices, Order, OrderPtr, TheBook, store, update_price_level, update, deref,
}
use git_docs_test.OrderBook.Live.{
  Entry, with_quantity, total, entry, set_quantity, requantify, entry-set_quantity,
  set_quantity-IsDistinct, total-set_quantity, quantity-le-total,
}
use git_docs_test.OrderBook.Sides.{int_max, sub_int-ok}
use git_docs_test.OrderBook.Refine.{pointer_of, Shows, Indexed, Represents}
use git_docs_test.OrderBook.Refine.Change.{update_price_level_lem}

pointer_of-requantify : (n : ℕ) (o : Option Entry) → pointer_of (requantify n o) ≡ pointer_of o
unfolding requantify
pointer_of-requantify n none = refl
pointer_of-requantify n (some e) = refl

-- an entry with another quantity, and the entry that it comes from
requantify_origin :
    (n : ℕ) (b : Bool) (o : Option Entry) (d : Entry)
    → (if b then requantify n o else o) ≡ some d
    → (c : Entry) × (o ≡ some c) × (d.address ≡ c.address)
unfolding requantify
requantify_origin n true none d h = cc
requantify_origin n true (some c) d h =
    (c, refl, sym (ap (λ (x : Entry). x.address) {x = with_quantity n c} {y = d} (cc)))
requantify_origin n false none d h = cc
requantify_origin n false (some c) d h =
    (c, refl, sym (ap (λ (x : Entry). x.address) {x = c} {y = d} (cc)))

store_self : {A : Type 0} (f : ℕ → A) (i : ℕ) (a : A) → store f i a i ≡ a
store_self f i a = ground arith

store_ne : {A : Type 0} (f : ℕ → A) (i j : ℕ) (a : A) → i ≢ j → store f i a j ≡ f j
store_ne f i j a h = ground arith

module _ (prices : Prices) ⦃key : Key ℕ⦄ (orders : HashMap ℕ OrderPtr) where
  -- the orders in memory behind the write of the new quantity
  rewritten : (ℕ → Order prices.Double) → ℕ → ℕ → ℕ → Order prices.Double
  rewritten memory a n = store memory a (record (memory a) { quantity = pos n })

  module _ (memory : ℕ → Order prices.Double) (m : orders.State) (live : List Entry) (k n : ℕ)
      (e : Entry) (ix : Indexed prices orders memory m live) (found : entry k live ≡ some e)
      (more : 0 < n) where
    Shows-changed : Shows prices orders (rewritten memory e.address n) (with_quantity n e)
    unfolding rewritten
    Shows-changed =
        let sh = ix.shown k e found in
        let self = store_self memory e.address (record (memory e.address) { quantity = pos n }) in
        record {
          priced = rw self sh.priced;
          inside = sh.inside;
          amount = rw self;
          positive = more;
          sided = rw self sh.sided;
        }

    Shows-other :
        (q : ℕ) (d : Entry)
        → entry q live ≡ some d
        → (k == q) ≡ false
        → Shows prices orders (rewritten memory e.address n) d
    unfolding rewritten
    Shows-other q d h ne =
        let sh = ix.shown q d h in
        let away =
          store_ne memory e.address d.address (record (memory e.address) { quantity = pos n })
            (λ same. ground (arith, ix.apart k q e d found h same)) in
        record {
          priced = rw away sh.priced;
          inside = sh.inside;
          amount = rw away sh.amount;
          positive = sh.positive;
          sided = rw away sh.sided;
        }

    origin :
        (q : ℕ) (d : Entry)
        → entry q (set_quantity k n live) ≡ some d
        → (c : Entry) × (entry q live ≡ some c) × (d.address ≡ c.address)
    origin q d h =
        requantify_origin n (k == q) (entry q live) d (sym (entry-set_quantity k q n live) ∙ h)

    shown_by :
        (q : ℕ) (d : Entry)
        → entry q (set_quantity k n live) ≡ some d
        → ((k == q) ≡ true) ⊎ ((k == q) ≡ false)
        → Shows prices orders (rewritten memory e.address n) d
    unfolding requantify
    shown_by q d h (inr f) = Shows-other q d (rw f at (sym (entry-set_quantity k q n live) ∙ h)) f
    shown_by q d h (inl t) =
        let here : requantify n (entry q live) ≡ some d =
          rw t at (sym (entry-set_quantity k q n live) ∙ h) in
        let there : entry q live ≡ some e =
          subst (λ x. entry x live ≡ some e) (ground (arith, t)) found in
        subst (Shows prices orders (rewritten memory e.address n)) (ground (arith, here, there))
          Shows-changed

    Indexed-set_quantity :
        Indexed prices orders (rewritten memory e.address n) m (set_quantity k n live)
    Indexed-set_quantity = record {
      valid = ix.valid;
      distinct = set_quantity-IsDistinct k n live ix.distinct;
      mapped = λ q.
          ix.mapped q
          ∙ ground (
            arith,
            pointer_of-requantify n (entry q live),
            ap pointer_of (entry-set_quantity k q n live),
          );
      shown = λ q d h. shown_by q d h (Bool-cases (k == q));
      apart = λ p q c d h j same.
          let (c', hc, ec) = origin p c h in
          let (d', hd, ed) = origin q d j in ix.apart p q c' d' hc hd (sym ec ∙ same ∙ ed);
    }

  -- The quantities of a represented book fit an `int`.
  pub total_bounded :
      {b : TheBook prices orders} {live : List Entry}
      → Represents prices orders b live
      → (side : Bool) (s : ℕ) → total side s live ≤ int_max
  total_bounded r true s = r.bids.bounded s
  total_bounded r false s = r.asks.bounded s

  pub small_quantity :
      {b : TheBook prices orders} {live : List Entry}
      → Represents prices orders b live
      → (k : ℕ) (e : Entry) → entry k live ≡ some e
      → e.quantity ≤ int_max
  small_quantity {b} {live} r k e found =
      omega (arith, quantity-le-total k live e found, total_bounded r e.buy e.slot)

  update-run :
      (b : TheBook prices orders) (k n : ℕ) (e : Entry) {b₁ : TheBook prices orders}
      → orders.contains b.order_map k ≡ true
      → orders.read_at b.order_map k ≡ ok (some e.address, b.order_map)
      → Shows prices orders b.memory e
      → n ≤ int_max
      → e.quantity ≤ int_max
      → update_price_level prices orders e.buy b
          (b.memory e.address).price
          (pos n -ℤ pos e.quantity)
        ≡ ok b₁
      → update prices orders b k (pos n)
        ≡ ok (record b₁ { memory = rewritten b₁.memory e.address n })
  unfolding update rewritten deref
  update-run b k n e present pointer sh small old run =
      rw (present, pointer, sh.amount, sub_int-ok n e.quantity small old, sh.sided, run)

  -- An update of a resting order to a positive quantity that its level can hold: the call returns,
  -- and the new book represents the entries with that quantity.
  pub update_refines :
      {b : TheBook prices orders} {live : List Entry} (k n : ℕ) (e : Entry)
      → Represents prices orders b live
      → entry k live ≡ some e
      → 0 < n
      → n ≤ int_max
      → total e.buy e.slot (set_quantity k n live) ≤ int_max
      → Returns
          (update prices orders b k (pos n))
          λ b'. Represents prices orders b' (set_quantity k n live)
  update_refines {b} {live} k n e r found more small fits =
      let ix = r.indexed in
      let sh = ix.shown k e found in
      let at_key = ix.mapped k ∙ ap pointer_of found in
      let present : orders.contains b.order_map k ≡ true =
        orders.contains-find b.order_map k ix.valid ∙ ap is_some at_key in
      let pointer = orders.read_at-find b.order_map k (some e.address) ix.valid at_key in
      let (b₁, run, ch) =
        update_price_level_lem prices orders b live (set_quantity k n live) k n e
          (b.memory e.address).price found sh.priced sh.inside sh.positive
          (λ side i. total-set_quantity side i k n live e found) fits r.bids r.asks in
      (
        record b₁ { memory = rewritten b₁.memory e.address n },
        update-run b k n e present pointer sh small (small_quantity r k e found) run,
        record {
          indexed =
              rw (ch.memory, ch.order_map)
                (Indexed-set_quantity b.memory b.order_map live k n e ix found more);
          bids = ch.bids;
          asks = ch.asks;
        },
      )

  -- An update of an order that is not in the book throws.
  pub update_missing :
      {b : TheBook prices orders} {live : List Entry} (k : ℕ) (q : ℤ)
      → Represents prices orders b live
      → entry k live ≡ none
      → update prices orders b k q ≡ throws order_not_found
  unfolding update
  update_missing {b} {live} k q r missing = rw (absent)
    where
      absent : orders.contains b.order_map k ≡ false
      absent =
          orders.contains-find b.order_map k r.indexed.valid
          ∙ ap is_some (r.indexed.mapped k ∙ ap pointer_of missing)
