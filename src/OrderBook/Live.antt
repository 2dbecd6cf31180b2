-- ===== src/OrderBook/Live.antt =====
-- The specification of the order book of HFT/OrderBook.hpp: the orders that rest in it, each with
-- its id, the address of its `Order`, its side, its price level and its quantity.
use git_docs_test.Common.{
  ℕ, ◌+◌, ◌≤◌, ◌≡◌, ◌≢◌, refl, ap, Bool, true, false, ◌&&◌, not, Option, none, some, List, [], ◌∷◌,
  ◌==◌, if◌then◌else◌, arith, Bool-cases, inl, inr, ◌⊎◌,
}

pub record Entry : Type 0 where
  pub id : ℕ
  pub address : ℕ
  pub buy : Bool
  pub slot : ℕ
  pub quantity : ℕ

abbrev pub with_quantity : ℕ → Entry → Entry
with_quantity n e = record e { quantity = n }

-- The entry's part of the quantity at level `i` of a side.
unfoldable pub weight : Bool → ℕ → Entry → ℕ
weight true i e = if e.buy && (e.slot == i) then e.quantity else 0
weight false i e = if not e.buy && (e.slot == i) then e.quantity else 0

unfoldable pub total : Bool → ℕ → List Entry → ℕ
total side i [] = 0
total side i (e ∷ es) = weight side i e + total side i es

unfoldable pub entry : ℕ → List Entry → Option Entry
entry k [] = none
entry k (e ∷ es) = let rest = entry k es in if e.id == k then some e else rest

unfoldable pub set_quantity : ℕ → ℕ → List Entry → List Entry
set_quantity k n [] = []
set_quantity k n (e ∷ es) =
    let rest = set_quantity k n es in if e.id == k then with_quantity n e ∷ es else e ∷ rest

unfoldable pub without : ℕ → List Entry → List Entry
without k [] = []
without k (e ∷ es) = let rest = without k es in if e.id == k then es else e ∷ rest

-- No two entries have one id.
abbrev pub IsDistinct : List Entry → Type 0
IsDistinct [] = Unit {0}
IsDistinct (e ∷ es) = (entry e.id es ≡ none) × IsDistinct es

unfoldable pub requantify : ℕ → Option Entry → Option Entry
requantify n none = none
requantify n (some e) = some (with_quantity n e)

pub entry-id : (k : ℕ) (es : List Entry) (e : Entry) → entry k es ≡ some e → e.id ≡ k
unfolding entry
entry-id k [] e h = cc
entry-id k (d ∷ es) e h = ground (arith, entry-id k es e, λ (p : d ≡ e). ap (λ (x : Entry). x.id) p)

pub total-set_quantity :
    (side : Bool) (i k n : ℕ) (es : List Entry) (e : Entry)
    → entry k es ≡ some e
    → total side i (set_quantity k n es) + weight side i e
      ≡ total side i es + weight side i (with_quantity n e)
unfolding total entry set_quantity
total-set_quantity side i k n [] e h = cc
total-set_quantity side i k n (d ∷ es) e h = ground (
  arith,
  total-set_quantity side i k n es e,
  ap (λ x. weight side i (with_quantity n x)) {x = d} {y = e},
  ap (weight side i) {x = d} {y = e},
)

pub total-without :
    (side : Bool) (i k : ℕ) (es : List Entry) (e : Entry)
    → entry k es ≡ some e
    → total side i (without k es) + weight side i e ≡ total side i es
unfolding total entry without
total-without side i k [] e h = cc
total-without side i k (d ∷ es) e h =
    ground (arith, total-without side i k es e, λ (p : d ≡ e). ap (weight side i) p)

pub entry-set_quantity :
    (k q n : ℕ) (es : List Entry)
    → entry q (set_quantity k n es) ≡ (if k == q then requantify n (entry q es) else entry q es)
unfolding entry set_quantity requantify
entry-set_quantity k q n [] = ground arith
entry-set_quantity k q n (e ∷ es) = ground (arith, entry-set_quantity k q n es)

pub entry-without :
    (k q : ℕ) (es : List Entry)
    → IsDistinct es
    → entry q (without k es) ≡ (if k == q then none else entry q es)
unfolding entry without
entry-without k q [] d = ground arith
entry-without k q (e ∷ es) (h, d) =
    ground (arith, entry-without k q es d, h, λ (p : e.id ≡ q). ap (λ x. entry x es) p)

pub set_quantity-IsDistinct :
    (k n : ℕ) (es : List Entry) → IsDistinct es → IsDistinct (set_quantity k n es)
unfolding set_quantity
set_quantity-IsDistinct k n [] d = tt
set_quantity-IsDistinct k n (e ∷ es) (h, d) = elim (Bool-cases (e.id == k)) [
  | inl t ↦ rw t (h, d)
  | inr f ↦ rw f (
    rw (entry-set_quantity k e.id n es, h) (ground (arith, none_stays)),
    set_quantity-IsDistinct k n es d,
  )
]
  where
    none_stays : requantify n none ≡ none
    none_stays = unfold requantify in refl

pub without-IsDistinct : (k : ℕ) (es : List Entry) → IsDistinct es → IsDistinct (without k es)
unfolding without
without-IsDistinct k [] d = tt
without-IsDistinct k (e ∷ es) (h, d) = elim (Bool-cases (e.id == k)) [
  | inl t ↦ rw t d
  | inr f ↦ rw f (rw (entry-without k e.id es d, h) (ground arith), without-IsDistinct k es d)
]

pub weight-own : (e : Entry) → weight e.buy e.slot e ≡ e.quantity
weight-own e = own e.buy refl
  where
    own : (b : Bool) → e.buy ≡ b → weight b e.slot e ≡ e.quantity
    own true h = unfold weight in ground arith
    own false h = unfold weight in ground arith

pub weight-other :
    (side : Bool) (i : ℕ) (e : Entry) → (i ≢ e.slot) ⊎ (side ≢ e.buy) → weight side i e ≡ 0
unfolding weight
weight-other true i e h = ground arith
weight-other false i e h = ground arith

-- An entry that rests counts at its own level.
pub quantity-le-total :
    (k : ℕ) (es : List Entry) (e : Entry) → entry k es ≡ some e → e.quantity ≤ total e.buy e.slot es
quantity-le-total k es e h = omega (arith, total-without e.buy e.slot k es e h, weight-own e)

pub weight-zero : (side : Bool) (i : ℕ) (e : Entry) → weight side i (with_quantity 0 e) ≡ 0
unfolding weight
weight-zero true i e = ground arith
weight-zero false i e = ground arith
