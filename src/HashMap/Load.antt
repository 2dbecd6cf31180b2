-- ===== src/HashMap/Load.antt =====
-- The test of the tables with open addressing whether `size` elements are too many for `capacity`
-- slots, `size > capacity * 0.7f`. What is asked of it: as many elements as pass it fit into the
-- slots, and a table of twice the slots is never too small.
use git_docs_test.Common.{ℕ, ◌*◌, ◌≤◌, Bool, false, ◌≡◌}

pub record Load : Type 0 where
  pub exceeds : ℕ → ℕ → Bool
  pub fits : (size capacity : ℕ) → exceeds size capacity ≡ false → size ≤ capacity
  pub doubled : (size capacity : ℕ) → size ≤ capacity → exceeds size (2 * capacity) ≡ false
