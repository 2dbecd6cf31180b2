-- ===== src/Mock/Levels.antt =====
-- The accesses to the arrays of price levels in the order books of c++20.
use git_docs_test.Common.{
  ℕ, ◌<◌, ◌≤◌, ◌≡◌, refl, sym, ap, ◌∙◌, pos, ltb, ltb→lt, lt→ltb, if◌then◌else◌, ok, undefined,
  ok-injective, Bool-cases, inl, inr, false, arith, ℤ,
}
use git_docs_test.OrderBook.{store, max_price_levels, level}

pub level-inside : (i j : ℕ) → level (pos i) ≡ ok j → (j ≡ i) × (i < max_price_levels)
unfolding level
level-inside i j e = elim (Bool-cases (ltb i max_price_levels)) [
  | inl lt ↦
      let got : ok i ≡ ok j = ap (λ t. if t then ok i else undefined) (sym lt) ∙ e in
      (sym (ok-injective got), ltb→lt i max_price_levels lt)
  | inr ge ↦ let got : undefined ≡ ok j = ap (λ t. if t then ok i else undefined) (sym ge) ∙ e in cc
]

pub level-ok : (i : ℕ) → i < max_price_levels → level (pos i) ≡ ok i
unfolding level
level-ok i h = rw (lt→ltb i max_price_levels h) refl

pub level-outside : (i : ℕ) → max_price_levels ≤ i → level (pos i) ≡ undefined
unfolding level
level-outside i h = let ge : ltb i max_price_levels ≡ false = ground arith in rw ge refl

pub store-own : (f : ℕ → ℤ) (i : ℕ) (v : ℤ) → store f i v i ≡ v
store-own f i v = ground arith

pub store-below : (f : ℕ → ℤ) (i j : ℕ) (v : ℤ) → j < i → store f i v j ≡ f j
store-below f i j v h = ground arith
