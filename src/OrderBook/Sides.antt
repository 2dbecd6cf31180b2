-- ===== src/OrderBook/Sides.antt =====
-- HFT/OrderBook.hpp: one side of the book, its levels and its index, against the numbers `f` that
-- the levels should hold; and the `int` arithmetic of the levels.
use git_docs_test.Common.{
  ℕ, ◌+◌, ◌-◌, ◌^◌, ◌≤◌, ◌<◌, ◌≡◌, ◌≢◌, ap, ℤ, pos, ltb_ℤ, eqb_ℤ, ◌+ℤ◌, ◌-ℤ◌, ◌&&◌, if◌then◌else◌,
  ok, arith,
}
use git_docs_test.OrderBook.{store, level, add_int, sub_int, scan_down, scan_up, max_price_levels}
use git_docs_test.OrderBook.Tops.{
  BidTop, AskTop, BidTop-raise, BidTop-change, AskTop-lower, AskTop-change,
}

abbrev pub int_max : ℕ
int_max = 2 ^ 31 - 1

pub record BidSide (levels : ℕ → ℤ) (best : ℤ) (f : ℕ → ℕ) : Type 0 where
  pub holds : (j : ℕ) → levels j ≡ pos (f j)
  pub bounded : (j : ℕ) → f j ≤ int_max
  pub top : BidTop best f

pub record AskSide (levels : ℕ → ℤ) (best : ℤ) (f : ℕ → ℕ) : Type 0 where
  pub holds : (j : ℕ) → levels j ≡ pos (f j)
  pub bounded : (j : ℕ) → f j ≤ int_max
  pub top : AskTop best f

pub level-ok : (s : ℕ) → s < max_price_levels → level (pos s) ≡ ok s
unfolding level
level-ok s h = ground arith

pub add_int-ok : (a b : ℕ) → a + b ≤ int_max → add_int (pos a) (pos b) ≡ ok (pos (a + b))
unfolding add_int ◌+ℤ◌
add_int-ok a b h = ground arith

-- The change that `update` computes, and its effect on a level that counts the old quantity.
pub sub_int-ok :
    (n q : ℕ) → n ≤ int_max → q ≤ int_max → sub_int (pos n) (pos q) ≡ ok (pos n -ℤ pos q)
unfolding sub_int ◌-ℤ◌
sub_int-ok n q h k = ground arith

pub add_change-ok :
    (t u n q : ℕ) → u + q ≡ t + n → u ≤ int_max → add_int (pos t) (pos n -ℤ pos q) ≡ ok (pos u)
unfolding add_int ◌-ℤ◌ ◌+ℤ◌
add_change-ok t u n q e h = ground arith

store_holds :
    (levels : ℕ → ℤ) (f g : ℕ → ℕ) (s : ℕ)
    → ((j : ℕ) → levels j ≡ pos (f j))
    → ((j : ℕ) → j ≢ s → g j ≡ f j)
    → (j : ℕ) → store levels s (pos (g s)) j ≡ pos (g j)
store_holds levels f g s h same j = ground (arith, h j, same j, λ (e : s ≡ j). ap g e)

module _ (levels : ℕ → ℤ) (f g : ℕ → ℕ) (s : ℕ) (inside : s < max_price_levels)
    (same : (j : ℕ) → j ≢ s → g j ≡ f j) (fits : g s ≤ int_max) where
  kept_bounded : ((j : ℕ) → f j ≤ int_max) → (j : ℕ) → g j ≤ int_max
  kept_bounded b j = ground (arith, b j, same j, λ (e : j ≡ s). ap g e)

  -- an order of positive quantity comes in
  pub BidSide-raise :
      {best : ℤ}
      → BidSide levels best f
      → 0 < g s
      → BidSide (store levels s (pos (g s))) (if ltb_ℤ best (pos s) then pos s else best) g
  BidSide-raise b more = record {
    holds = store_holds levels f g s b.holds same;
    bounded = kept_bounded b.bounded;
    top = BidTop-raise f g s inside same b.top more;
  }

  pub AskSide-lower :
      {best : ℤ}
      → AskSide levels best f
      → 0 < g s
      → AskSide (store levels s (pos (g s))) (if ltb_ℤ (pos s) best then pos s else best) g
  AskSide-lower b more = record {
    holds = store_holds levels f g s b.holds same;
    bounded = kept_bounded b.bounded;
    top = AskTop-lower f g s inside same b.top more;
  }

  -- the quantity at a level with orders changes
  pub BidSide-change :
      {best : ℤ}
      → BidSide levels best f
      → 0 < f s
      → BidSide
          (store levels s (pos (g s)))
          (if eqb_ℤ (pos s) best && eqb_ℤ (pos (g s)) (pos 0)
            then pos (scan_down (store levels s (pos (g s))) s)
            else best)
          g
  BidSide-change b resting =
      let h = store_holds levels f g s b.holds same in
      record {
        holds = h;
        bounded = kept_bounded b.bounded;
        top = BidTop-change f g s inside same (store levels s (pos (g s))) h b.top resting;
      }

  pub AskSide-change :
      {best : ℤ}
      → AskSide levels best f
      → 0 < f s
      → AskSide
          (store levels s (pos (g s)))
          (if eqb_ℤ (pos s) best && eqb_ℤ (pos (g s)) (pos 0)
            then pos (scan_up (store levels s (pos (g s))) (max_price_levels - (s + 1)) (s + 1))
            else best)
          g
  AskSide-change b resting =
      let h = store_holds levels f g s b.holds same in
      record {
        holds = h;
        bounded = kept_bounded b.bounded;
        top = AskTop-change f g s inside same (store levels s (pos (g s))) h b.top resting;
      }
