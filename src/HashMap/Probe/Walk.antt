-- ===== src/HashMap/Probe/Walk.antt =====
-- HFT/HashMap.hpp and c++20/HashTables.cpp: the loops over a table with open addressing as walks
-- over positions that count up, a position being read modulo the number of slots.
use native.Mathlib.Nat.{mod-lt, mod-add-mod, mod-eq_of_lt, add-mod_right}
use git_docs_test.Common.{
  ℕ, zero, suc, ◌+◌, ◌%◌, ◌^◌, ◌<◌, ◌≡◌, ◌≢◌, refl, sym, ap, ◌∙◌, Bool, true, false, Option, none,
  some, List, [], ◌∷◌, get_elem?, get_or, length, ◌==◌, ==_iff, if◌then◌else◌, some-injective,
  Result, ok, arith,
}
use git_docs_test.Queue.Ring.{slot-ne}
use git_docs_test.HashMap.Key.{Key}
use git_docs_test.HashMap.Probe.{Slot, holds, is_empty, is_occupied, search, place}

pub get_elem?-get_or {ℓ} :
    {A : Type ℓ} (xs : List A) (i : ℕ) (d : A)
    → i < length xs
    → get_elem? xs i ≡ some (get_or xs i d)
get_elem?-get_or [] i d h = absurd (omega arith)
get_elem?-get_or (x ∷ xs) zero d h = refl
get_elem?-get_or (x ∷ xs) (suc i) d h = get_elem?-get_or xs i d (omega arith)

-- the index that a walk ends at
abbrev pub index_of : ℕ → Option ℕ → Option ℕ
index_of n none = none
index_of n (some j) = some (j % n)

search_step :
    (a b : Bool) (j n : ℕ) (rest : Result (Option ℕ)) (walk : Option ℕ)
    → rest ≡ ok (index_of n walk)
    → (if a then ok none else (if b then ok (some (j % n)) else rest))
      ≡ ok (index_of n (if a then none else (if b then some j else walk)))
search_step true b j n rest walk e = refl
search_step false true j n rest walk e = refl
search_step false false j n rest walk e = e

place_step :
    (a b : Bool) (j n : ℕ) (rest : Result ℕ) (walk : Option ℕ) (i : ℕ)
    → ((i' : ℕ) → walk ≡ some i' → rest ≡ ok (i' % n))
    → (if a then (if b then some j else walk) else some j) ≡ some i
    → (if a then (if b then ok (j % n) else rest) else ok (j % n)) ≡ ok (i % n)
place_step false b j n rest walk i h e = ap (λ (x : ℕ). ok (x % n)) (some-injective e)
place_step true true j n rest walk i h e = ap (λ (x : ℕ). ok (x % n)) (some-injective e)
place_step true false j n rest walk i h e = h i e

module _ {K V : Type 0} ⦃key : Key K⦄ where
  -- a table of `n` slots as a function of the position
  abbrev pub at : Slot K V → List (Slot K V) → ℕ → Slot K V
  at blank table j = get_or table (j % length table) blank

  -- where a walk of at most so many rounds finds the key
  unfoldable pub look : (ℕ → Slot K V) → K → ℕ → ℕ → Option ℕ
  look slots k zero j = none
  look slots k (suc rounds) j =
      let rest = look slots k rounds (j + 1) in
      if is_empty (slots j) then none else (if holds k (slots j) then some j else rest)

  -- where a walk of at most so many rounds can write the key
  unfoldable pub spot : (ℕ → Slot K V) → K → ℕ → ℕ → Option ℕ
  spot slots k zero j = none
  spot slots k (suc rounds) j =
      let rest = spot slots k rounds (j + 1) in
      if is_occupied (slots j) then (if holds k (slots j) then some j else rest) else some j

  module _ (wrap : ℕ → ℕ) (blank : Slot K V) (table : List (Slot K V)) (k : K)
      (wraps : (i : ℕ) → wrap i ≡ i % length table) (some_slot : 0 < length table)
      (small : length table < 2 ^ 64) where
    next_index : (j : ℕ) → wrap ((j % length table + 1) % 2 ^ 64) ≡ (j + 1) % length table
    next_index j =
        wraps ((j % length table + 1) % 2 ^ 64)
        ∙ ap (λ (i : ℕ). i % length table)
            (mod-eq_of_lt {n = j % length table + 1} {m = 2 ^ 64}
              (omega (arith, mod-lt j {m = length table} some_slot)))
        ∙ mod-add-mod j (length table) 1

    slot_at : (j : ℕ) → get_elem? table (j % length table) ≡ some (at blank table j)
    slot_at j = get_elem?-get_or table (j % length table) blank (mod-lt j some_slot)

    search_round :
        (rounds home j : ℕ)
        → search wrap table k (suc rounds) home (j % length table) ≡ (
            if is_empty (at blank table j)
            then ok none
            else (if holds k (at blank table j)
                then ok (some (j % length table))
                else (if (j + 1) % length table == home
                    then ok none
                    else search wrap table k rounds home ((j + 1) % length table))))
    unfolding search
    search_round rounds home j =
        rw (slot_at j, search)
          (ap
            (λ next.
              if is_empty (at blank table j)
              then ok none
              else (if holds k (at blank table j)
                  then ok (some (j % length table))
                  else (if next == home then ok none else search wrap table k rounds home next)))
            (next_index j))

    back_home : (h j : ℕ) → j ≡ h + length table → (j % length table == h % length table) ≡ true
    back_home h j e =
        (==_iff (j % length table) (h % length table)).1
          (ap (λ (i : ℕ). i % length table) e ∙ add-mod_right h (length table))

    not_home :
        (h d j : ℕ)
        → j ≡ h + d
        → 0 < d
        → d < length table
        → (j % length table == h % length table) ≡ false
    not_home h d j e pos lt =
        let differ : j % length table ≢ h % length table = λ same.
          slot-ne blank (length table) h d pos lt
            (ap (λ (i : ℕ). i % length table) (sym e) ∙ same) in
        ground arith

    pub search-look :
        (h rounds d : ℕ)
        → 0 < rounds
        → d + rounds ≡ length table
        → search wrap table k rounds (h % length table) ((h + d) % length table)
          ≡ ok (index_of (length table) (look (at blank table) k rounds (h + d)))
    unfolding search look
    search-look h zero d pos e = absurd (omega arith)
    search-look h (suc zero) d pos e =
        search_round 0 (h % length table) (h + d)
        ∙ search_step (is_empty (at blank table (h + d))) (holds k (at blank table (h + d))) (h + d)
            (length table) _ none (rw (back_home h (h + d + 1) (omega arith)) refl)
    search-look h (suc (suc rounds)) d pos e =
        search_round (suc rounds) (h % length table) (h + d)
        ∙ search_step (is_empty (at blank table (h + d))) (holds k (at blank table (h + d))) (h + d)
            (length table) _ (look (at blank table) k (suc rounds) (h + d + 1))
            (ap
                (λ t.
                  if t
                  then ok none
                  else search wrap table k (suc rounds) (h % length table)
                      ((h + d + 1) % length table))
                (not_home h (d + 1) (h + d + 1) (omega arith) (omega arith) (omega arith))
              ∙ ap
                  (λ (i : ℕ).
                    search wrap table k (suc rounds) (h % length table) (i % length table))
                  {x = h + d + 1} {y = h + (d + 1)} (omega arith)
              ∙ search-look h (suc rounds) (d + 1) (omega arith) (omega arith)
              ∙ ap
                  (λ (i : ℕ). ok (index_of (length table) (look (at blank table) k (suc rounds) i)))
                  {x = h + (d + 1)} {y = h + d + 1} (omega arith))

    pub place-spot :
        (rounds j i : ℕ)
        → spot (at blank table) k rounds j ≡ some i
        → place wrap table k rounds (j % length table) ≡ ok (i % length table)
    unfolding place spot
    place-spot zero j i e = cc
    place-spot (suc rounds) j i e =
        rw (slot_at j, next_index j, place)
          (place_step (is_occupied (at blank table j)) (holds k (at blank table j)) j (length table)
            _ (spot (at blank table) k rounds (j + 1)) i (place-spot rounds (j + 1)) e)
