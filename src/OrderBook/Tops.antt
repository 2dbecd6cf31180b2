-- ===== src/OrderBook/Tops.antt =====
-- HFT/OrderBook.hpp: what `bestBidIndex_` and `bestAskIndex_` mean for levels that hold the numbers
-- `f`, and how a change of one level moves them.
use git_docs_test.Common.{
  ℕ, ◌+◌, ◌-◌, ◌≤◌, ◌<◌, ◌≡◌, ◌≢◌, refl, ap, ℤ, pos, pos_part, neg_part, ltb_ℤ, eqb_ℤ, ◌&&◌,
  if◌then◌else◌, arith, Bool-cases, inl, inr, ◌⊎◌,
}
use native.Mathlib.Decide.{ℕ_discrete}
use git_docs_test.OrderBook.{scan_down, scan_up, max_price_levels}
use git_docs_test.OrderBook.Levels.{
  scan_down-above, scan_down-fallback, scan_down-le, scan_up-below, scan_up-fallback, scan_up-le,
}

-- No bid stands above the index, and an index without bids is 0 or -1.
pub record BidTop (best : ℤ) (f : ℕ → ℕ) : Type 0 where
  pub in_range : pos_part best < max_price_levels
  pub above : (j : ℕ) → j < max_price_levels → pos_part best < j + neg_part best → f j ≡ 0
  pub empty : f (pos_part best) ≡ 0 → pos_part best ≡ 0

-- No ask stands below the index, and an index without asks is the last one or the one behind it.
pub record AskTop (best : ℤ) (f : ℕ → ℕ) : Type 0 where
  pub natural : neg_part best ≡ 0
  pub in_range : pos_part best ≤ max_price_levels
  pub below : (j : ℕ) → j < pos_part best → f j ≡ 0
  pub empty : f (pos_part best) ≡ 0 → max_price_levels - 1 ≤ pos_part best

module _ (f g : ℕ → ℕ) (s : ℕ) (inside : s < max_price_levels)
    (same : (j : ℕ) → j ≢ s → g j ≡ f j) where
  at : (j : ℕ) → (j ≡ s) ⊎ (g j ≡ f j)
  at j = elim (ℕ_discrete j s) [ yes e ↦ inl e | no n ↦ inr (same j n) ]

  at_s : (j : ℕ) → j ≡ s → g j ≡ g s
  at_s j e = ap g e

  f_at_s : (j : ℕ) → j ≡ s → f j ≡ f s
  f_at_s j e = ap f e

  pub BidTop-raise :
      {best : ℤ} → BidTop best f → 0 < g s → BidTop (if ltb_ℤ best (pos s) then pos s else best) g
  BidTop-raise {best} t more = elim (Bool-cases (ltb_ℤ best (pos s))) [
    | inl e ↦ rw e (record {
      in_range = inside;
      above = λ j lt h. ground (arith, at j, t.above j, e);
      empty = λ z. absurd (omega arith);
    })
    | inr e ↦ rw e (record {
      in_range = t.in_range;
      above = λ j lt h. ground (arith, at j, t.above j, e);
      empty = λ z. ground (arith, at (pos_part best), at_s (pos_part best), t.empty);
    })
  ]

  pub AskTop-lower :
      {best : ℤ} → AskTop best f → 0 < g s → AskTop (if ltb_ℤ (pos s) best then pos s else best) g
  AskTop-lower {best} t more = elim (Bool-cases (ltb_ℤ (pos s) best)) [
    | inl e ↦ rw e (record {
      natural = refl;
      in_range = omega (arith, inside);
      below = λ j lt. ground (arith, at j, t.below j, e, t.natural);
      empty = λ z. absurd (omega arith);
    })
    | inr e ↦ rw e (record {
      natural = t.natural;
      in_range = t.in_range;
      below = λ j lt. ground (arith, at j, t.below j, e, t.natural);
      empty = λ z. ground (arith, at (pos_part best), at_s (pos_part best), t.empty);
    })
  ]

  module _ (levels : ℕ → ℤ) (holds : (j : ℕ) → levels j ≡ pos (g j)) where
    pub BidTop-change :
        {best : ℤ}
        → BidTop best f
        → 0 < f s
        → BidTop
            (if eqb_ℤ (pos s) best && eqb_ℤ (pos (g s)) (pos 0)
              then pos (scan_down levels s)
              else best)
            g
    BidTop-change {best} t resting =
        elim (Bool-cases (eqb_ℤ (pos s) best && eqb_ℤ (pos (g s)) (pos 0))) [
          | inl e ↦ rw e (record {
            in_range = omega (arith, scan_down-le levels g holds s, inside);
            above = λ j lt h.
                ground (arith, at j, at_s j, t.above j, scan_down-above levels g holds s j, e);
            empty = scan_down-fallback levels g holds s;
          })
          | inr e ↦ rw e (record {
            in_range = t.in_range;
            above = λ j lt h. ground (arith, at j, at_s j, f_at_s j, t.above j, e);
            empty = λ z. ground (
              arith,
              at (pos_part best),
              at_s (pos_part best),
              t.empty,
              t.above s,
              e,
              f_at_s (pos_part best),
            );
          })
        ]

    pub AskTop-change :
        {best : ℤ}
        → AskTop best f
        → 0 < f s
        → AskTop
            (if eqb_ℤ (pos s) best && eqb_ℤ (pos (g s)) (pos 0)
              then pos (scan_up levels (max_price_levels - (s + 1)) (s + 1))
              else best)
            g
    AskTop-change {best} t resting =
        let n = max_price_levels - (s + 1) in
        let fits : s + 1 + n ≡ max_price_levels = omega (arith, inside) in
        elim (Bool-cases (eqb_ℤ (pos s) best && eqb_ℤ (pos (g s)) (pos 0))) [
          | inl e ↦ rw e (record {
            natural = refl;
            in_range = omega (arith, scan_up-le levels g holds n (s + 1) fits);
            below = λ j lt. ground (
              arith,
              at j,
              at_s j,
              t.below j,
              t.natural,
              scan_up-below levels g holds n (s + 1) j,
              scan_up-le levels g holds n (s + 1) fits,
              e,
            );
            empty = λ z. omega (arith, scan_up-fallback levels g holds n (s + 1) z);
          })
          | inr e ↦ rw e (record {
            natural = t.natural;
            in_range = t.in_range;
            below = λ j lt. ground (arith, at j, at_s j, f_at_s j, t.below j, e);
            empty = λ z. ground (
              arith,
              at (pos_part best),
              at_s (pos_part best),
              t.empty,
              t.below s,
              e,
              f_at_s (pos_part best),
            );
          })
        ]
