-- ===== src/OrderBook/Refine/Cancel.antt =====
-- HFT/OrderBook.hpp, `cancel`: a resting order leaves the book.
use git_docs_test.Common.{
  ℕ, ◌+◌, ◌-◌, ◌%◌, ◌^◌, ◌≤◌, ◌≡◌, refl, sym, ap, ◌∙◌, subst, Bool, true, false, none, some, List,
  ◌∷◌, ◌==◌, if◌then◌else◌, pos, ◌-ℤ◌, ok, throws, order_not_found, Returns, arith,
}
use git_docs_test.HashMap.Key.{Key}
use git_docs_test.HashMap.Contract.{HashMap, is_some}
use git_docs_test.OrderBook.{
  Prices, Order, OrderPtr, TheBook, update_price_level, give_back, deref, cancel,
}
use git_docs_test.OrderBook.Live.{
  Entry, entry, without, entry-without, without-IsDistinct, total-without, weight-zero,
}
use git_docs_test.OrderBook.Sides.{int_max, sub_int-ok}
use git_docs_test.OrderBook.Refine.{pointer_of, Shows, Indexed, Represents}
use git_docs_test.OrderBook.Refine.Change.{Replaces, Changed, update_price_level_lem}
use git_docs_test.OrderBook.Refine.Update.{small_quantity, total_bounded}

module _ (prices : Prices) ⦃key : Key ℕ⦄ (orders : HashMap ℕ OrderPtr) where
  Replaces-without :
      (k : ℕ) (live : List Entry) (e : Entry)
      → entry k live ≡ some e
      → Replaces prices orders e 0 live (without k live)
  Replaces-without k live e found side i =
      omega (arith, total-without side i k live e found, weight-zero side i e)

  -- an entry of the shorter list is one of the longer
  remaining :
      (live : List Entry) (k q : ℕ) (d : Entry)
      → entry q (without k live) ≡ (if k == q then none else entry q live)
      → entry q (without k live) ≡ some d
      → entry q live ≡ some d
  remaining live k q d e h = ground arith

  Indexed-without :
      (memory : ℕ → Order prices.Double) (m : orders.State) (live : List Entry) (k : ℕ)
      → Indexed prices orders memory m live
      → Indexed prices orders memory (orders.erase m k).1 (without k live)
  Indexed-without memory m live k ix =
      let at = λ (q : ℕ). entry-without k q live ix.distinct in
      record {
        valid = orders.erase-IsValid m k ix.valid;
        distinct = without-IsDistinct k live ix.distinct;
        mapped = λ q.
            orders.erase-find m k q ix.valid
            ∙ ground (
              arith,
              ix.mapped q,
              key.equal_iff k q,
              ap pointer_of (entry-without k q live ix.distinct),
            );
        shown = λ q d h. ix.shown q d (remaining live k q d (at q) h);
        apart = λ p q c d h j same.
            ix.apart p q c d (remaining live k p c (at p) h) (remaining live k q d (at q) j) same;
      }

  -- the counters and the free list behind the return of an order to the pool
  returned : Bool → TheBook prices orders → ℕ → TheBook prices orders
  returned false b a = b
  returned true b a = record b {
    free = a ∷ b.free;
    order_count = (b.order_count + 2 ^ 64 - 1) % 2 ^ 64;
  }

  give_back-run :
      (st : Bool) (b : TheBook prices orders) (k a : ℕ)
      → orders.read_at b.order_map k ≡ ok (some a, b.order_map)
      → give_back prices orders st b k ≡ ok (returned st b a)
  unfolding give_back returned deref
  give_back-run false b k a e = refl
  give_back-run true b k a e = rw e

  cancel-run :
      (st : Bool) (b : TheBook prices orders) (k : ℕ) (e : Entry) {b₁ : TheBook prices orders}
      → orders.contains b.order_map k ≡ true
      → orders.read_at b.order_map k ≡ ok (some e.address, b.order_map)
      → Shows prices orders b.memory e
      → e.quantity ≤ int_max
      → update_price_level prices orders e.buy b
          (b.memory e.address).price
          (pos 0 -ℤ pos e.quantity)
        ≡ ok b₁
      → b₁.order_map ≡ b.order_map
      → cancel prices orders st b k
        ≡ ok (record (returned st b₁ e.address) {
          order_map = (orders.erase (returned st b₁ e.address).order_map k).1;
        })
  unfolding cancel deref
  cancel-run st b k e {b₁} present pointer sh old run same = rw (
    present,
    pointer,
    sh.amount,
    sub_int-ok 0 e.quantity (omega arith) old,
    sh.sided,
    run,
    give_back-run st b₁ k e.address
        (subst (λ m. orders.read_at m k ≡ ok (some e.address, m)) (sym same) pointer),
  )

  Represents-returned :
      (st : Bool) (b : TheBook prices orders) (live : List Entry) (k a : ℕ)
      → Indexed prices orders b.memory (orders.erase b.order_map k).1 live
      → Changed prices orders b b live
      → Represents prices orders
          (record (returned st b a) { order_map = (orders.erase (returned st b a).order_map k).1 })
          live
  unfolding returned
  Represents-returned false b live k a ix ch = record {
    indexed = ix;
    bids = ch.bids;
    asks = ch.asks;
  }
  Represents-returned true b live k a ix ch = record {
    indexed = ix;
    bids = ch.bids;
    asks = ch.asks;
  }

  -- Cancelling a resting order returns, with pool storage or without; the new book represents the
  -- other entries.
  pub cancel_refines :
      (st : Bool) {b : TheBook prices orders} {live : List Entry} (k : ℕ) (e : Entry)
      → Represents prices orders b live
      → entry k live ≡ some e
      → Returns (cancel prices orders st b k) λ b'. Represents prices orders b' (without k live)
  cancel_refines st {b} {live} k e r found =
      let ix = r.indexed in
      let sh = ix.shown k e found in
      let at_key = ix.mapped k ∙ ap pointer_of found in
      let present : orders.contains b.order_map k ≡ true =
        orders.contains-find b.order_map k ix.valid ∙ ap is_some at_key in
      let pointer = orders.read_at-find b.order_map k (some e.address) ix.valid at_key in
      let (b₁, run, ch) =
        update_price_level_lem prices orders b live (without k live) k 0 e
          (b.memory e.address).price found sh.priced sh.inside sh.positive
          (Replaces-without k live e found)
          (omega (
            arith,
            total-without e.buy e.slot k live e found,
            total_bounded prices orders r e.buy e.slot,
          ))
          r.bids r.asks in
      (
        record (returned st b₁ e.address) {
          order_map = (orders.erase (returned st b₁ e.address).order_map k).1;
        },
        cancel-run st b k e present pointer sh (small_quantity prices orders r k e found) run
            ch.order_map,
        Represents-returned st b₁ (without k live) k e.address
            (rw (ch.memory, ch.order_map) (Indexed-without b.memory b.order_map live k ix))
            (record { memory = refl; order_map = refl; bids = ch.bids; asks = ch.asks }),
      )

  -- Cancelling an order that is not in the book throws.
  pub cancel_missing :
      (st : Bool) {b : TheBook prices orders} {live : List Entry} (k : ℕ)
      → Represents prices orders b live
      → entry k live ≡ none
      → cancel prices orders st b k ≡ throws order_not_found
  unfolding cancel
  cancel_missing st {b} {live} k r missing = rw absent
    where
      absent : orders.contains b.order_map k ≡ false
      absent =
          orders.contains-find b.order_map k r.indexed.valid
          ∙ ap is_some (r.indexed.mapped k ∙ ap pointer_of missing)
