-- ===== src/OrderBook/Levels.antt =====
-- HFT/OrderBook.hpp: the loops of updatePriceLevel that look for the next level with orders, over
-- levels that hold the numbers `f`.
use git_docs_test.Common.{
  ℕ, zero, suc, ◌+◌, ◌-◌, ◌≤◌, ◌<◌, ◌≡◌, refl, ap, ℤ, pos, ltb, ltb_ℤ, arith,
}
use git_docs_test.OrderBook.{scan_down, scan_up, max_price_levels}

module _ (levels : ℕ → ℤ) (f : ℕ → ℕ) (holds : (i : ℕ) → levels i ≡ pos (f i)) where
  at_zero : (i : ℕ) → ltb_ℤ (pos 0) (levels i) ≡ ltb 0 (f i)
  at_zero i = rw (holds i) (ground arith)

  -- Between the result and the start all levels are empty.
  pub scan_down-above : (i j : ℕ) → j < i → scan_down levels i < j → f j ≡ 0
  unfolding scan_down
  scan_down-above zero j h above = absurd (omega arith)
  scan_down-above (suc i) j h above =
      ground (arith, scan_down-above i j, at_zero i, λ (e : i ≡ j). ap f e)

  -- A result without orders is the fallback.
  pub scan_down-fallback : (i : ℕ) → f (scan_down levels i) ≡ 0 → scan_down levels i ≡ 0
  unfolding scan_down
  scan_down-fallback zero h = refl
  scan_down-fallback (suc i) h = ground (arith, scan_down-fallback i, at_zero i)

  pub scan_down-le : (i : ℕ) → scan_down levels i ≤ i - 1
  unfolding scan_down
  scan_down-le zero = omega arith
  scan_down-le (suc i) = ground (arith, scan_down-le i)

  -- The same upwards, among the `n` levels from `i` on.
  pub scan_up-below : (n i j : ℕ) → i ≤ j → j < i + n → j < scan_up levels n i → f j ≡ 0
  unfolding scan_up
  scan_up-below zero i j h lt below = absurd (omega arith)
  scan_up-below (suc n) i j h lt below =
      ground (arith, scan_up-below n (i + 1) j, at_zero i, λ (e : i ≡ j). ap f e)

  pub scan_up-fallback :
      (n i : ℕ) → f (scan_up levels n i) ≡ 0 → scan_up levels n i ≡ max_price_levels - 1
  unfolding scan_up
  scan_up-fallback zero i h = refl
  scan_up-fallback (suc n) i h = ground (arith, scan_up-fallback n (i + 1), at_zero i)

  pub scan_up-le :
      (n i : ℕ)
      → i + n ≡ max_price_levels
      → (scan_up levels n i ≤ max_price_levels - 1) × (i - 1 ≤ scan_up levels n i)
  unfolding scan_up
  scan_up-le zero i h = omega arith
  scan_up-le (suc n) i h = ground (arith, scan_up-le n (i + 1))
