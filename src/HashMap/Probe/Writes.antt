-- ===== src/HashMap/Probe/Writes.antt =====
-- HFT/HashMap.hpp and c++20/HashTables.cpp: what a write to one slot does to the walks.
use native.Mathlib.Decide.{dec_lt}
use git_docs_test.Common.{
  ℕ, zero, suc, ◌+◌, ◌<◌, ◌≤◌, ◌≡◌, ◌≢◌, refl, sym, ap, ◌∙◌, true, false, none, some, Bool-cases,
  inl, inr, some-injective, subst, arith, ◌⊎◌,
}
use git_docs_test.HashMap.Key.{Key}
use git_docs_test.HashMap.Probe.{Slot, holds, is_empty, is_occupied}
use git_docs_test.HashMap.Probe.Walk.{look, spot}

true-ne-false : true ≢ false
true-ne-false e = cc

at_or_after : (j x : ℕ) → j ≤ x → (j ≡ x) ⊎ (j + 1 ≤ x)
at_or_after j x h = elim (dec_lt j x) [ yes lt ↦ inr (omega arith) | no ge ↦ inl (omega arith) ]

module _ {K V : Type 0} ⦃key : Key K⦄ where
  -- A walk of the key from `j` on stops at position `i`, and passes what is before it.
  pub record Stops (slots : ℕ → Slot K V) (k : K) (j i : ℕ) : Type 0 where
    pub from : j ≤ i
    pub passed :
        (x : ℕ) → j ≤ x → x < i → (is_occupied (slots x) ≡ true) × (holds k (slots x) ≡ false)
    pub free : is_occupied (slots i) ≡ true → holds k (slots i) ≡ true

  module _ (slots : ℕ → Slot K V) (k : K) (rounds j : ℕ) where
    spot_hit :
        {i : ℕ}
        → is_occupied (slots j) ≡ true
        → holds k (slots j) ≡ true
        → spot slots k (suc rounds) j ≡ some i
        → some j ≡ some i
    unfolding spot
    spot_hit occ hit e = rw (occ, hit) at e

    spot_other :
        {i : ℕ}
        → is_occupied (slots j) ≡ true
        → holds k (slots j) ≡ false
        → spot slots k (suc rounds) j ≡ some i
        → spot slots k rounds (j + 1) ≡ some i
    unfolding spot
    spot_other occ other e = rw (occ, other) at e

    spot_free :
        {i : ℕ}
        → is_occupied (slots j) ≡ false
        → spot slots k (suc rounds) j ≡ some i
        → some j ≡ some i
    unfolding spot
    spot_free free e = rw free at e

    look_here :
        (i : ℕ)
        → j ≡ i
        → is_empty (slots i) ≡ false
        → holds k (slots i) ≡ true
        → look slots k (suc rounds) j ≡ some i
    unfolding look
    look_here i e full hit =
        subst (λ x. look slots k (suc rounds) x ≡ some i) (sym e) (rw (full, hit) refl)

  Stops-here :
      (slots : ℕ → Slot K V) (k : K) (j : ℕ)
      → (is_occupied (slots j) ≡ true → holds k (slots j) ≡ true)
      → Stops slots k j j
  Stops-here slots k j h = record {
    from = omega arith;
    passed = λ x a b. absurd (omega arith);
    free = h;
  }

  Stops-later :
      (slots : ℕ → Slot K V) (k : K) (j i : ℕ)
      → is_occupied (slots j) ≡ true
      → holds k (slots j) ≡ false
      → Stops slots k (j + 1) i
      → Stops slots k j i
  Stops-later slots k j i occ other s = record {
    from = omega (arith, s.from);
    passed = λ x a b. elim (at_or_after j x a) [
      | inl e ↦ rw (sym e) (occ, other)
      | inr lt ↦ s.passed x lt b
    ];
    free = s.free;
  }

  pub spot-Stops :
      (slots : ℕ → Slot K V) (k : K) (rounds j i : ℕ)
      → spot slots k rounds j ≡ some i
      → (i < j + rounds) × Stops slots k j i
  unfolding spot
  spot-Stops slots k zero j i e = cc
  spot-Stops slots k (suc rounds) j i e = elim (Bool-cases (is_occupied (slots j))) [
    | inl occ ↦ elim (Bool-cases (holds k (slots j))) [
      | inl hit ↦
          let here : j ≡ i = some-injective (spot_hit slots k rounds j occ hit e) in
          (omega arith, subst (Stops slots k j) here (Stops-here slots k j (λ _. hit)))
      | inr other ↦
          let (lt, s) =
            spot-Stops slots k rounds (j + 1) i (spot_other slots k rounds j occ other e) in
          (omega arith, Stops-later slots k j i occ other s)
    ]
    | inr free ↦
        let here : j ≡ i = some-injective (spot_free slots k rounds j free e) in
        (omega arith, subst (Stops slots k j) here (Stops-here slots k j (λ occ. cc)))
  ]

  -- A walk that passes slots without the key, none of them empty, up to one that has it, finds it.
  pub look-hit :
      (slots : ℕ → Slot K V) (k : K) (rounds j i : ℕ)
      → j ≤ i
      → i < j + rounds
      → ((x : ℕ) → j ≤ x → x < i → (is_empty (slots x) ≡ false) × (holds k (slots x) ≡ false))
      → is_empty (slots i) ≡ false
      → holds k (slots i) ≡ true
      → look slots k rounds j ≡ some i
  unfolding look
  look-hit slots k zero j i from lt h full hit = absurd (omega arith)
  look-hit slots k (suc rounds) j i from lt h full hit = elim (at_or_after j i from) [
    | inl e ↦ look_here slots k rounds j i e full hit
    | inr later ↦
        let (full_here, other) = h j (omega arith) (omega arith) in
        rw (full_here, other)
          (look-hit slots k rounds (j + 1) i (omega arith) (omega arith)
            (λ x a b. h x (omega arith) b) full hit)
  ]

  -- A walk over slots without the key finds nothing.
  pub look-miss :
      (slots : ℕ → Slot K V) (k : K) (rounds j stop : ℕ)
      → j + rounds ≡ stop
      → ((x : ℕ) → j ≤ x → x < stop → holds k (slots x) ≡ false)
      → look slots k rounds j ≡ none
  unfolding look
  look-miss slots k zero j stop e h = refl
  look-miss slots k (suc rounds) j stop e h =
      rw
        (
          h j (omega arith) (omega arith),
          look-miss slots k rounds (j + 1) stop (omega arith) (λ x a b. h x (omega arith) b),
        )
        (ground arith)

  look_vacant :
      (slots : ℕ → Slot K V) (k : K) (rounds j : ℕ)
      → is_empty (slots j) ≡ true
      → look slots k (suc rounds) j ≡ none
  unfolding look
  look_vacant slots k rounds j h = rw h refl

  -- Slots that hold the key alike, where one that is filled has no slot with the key behind it.
  pub look-alike :
      (slots slots' : ℕ → Slot K V) (k : K) (rounds j stop : ℕ)
      → j + rounds ≡ stop
      → ((x : ℕ) → j ≤ x → x < stop → holds k (slots' x) ≡ holds k (slots x))
      → ((x : ℕ)
          → j ≤ x
          → x < stop
          → (is_empty (slots' x) ≡ is_empty (slots x))
            ⊎ ((is_empty (slots x) ≡ true)
                × ((y : ℕ) → x ≤ y → y < stop → holds k (slots y) ≡ false)))
      → look slots' k rounds j ≡ look slots k rounds j
  unfolding look
  look-alike slots slots' k zero j stop end same kept = refl
  look-alike slots slots' k (suc rounds) j stop end same kept =
      elim (kept j (omega arith) (omega arith)) [
        | inl e ↦
            rw
              (
                e,
                same j (omega arith) (omega arith),
                look-alike slots slots' k rounds (j + 1) stop (omega arith)
                    (λ x a b. same x (omega arith) b) (λ x a b. kept x (omega arith) b),
              )
              refl
        | inr (vacant, none_behind) ↦
            look-miss slots' k (suc rounds) j stop end (λ x a b. same x a b ∙ none_behind x a b)
            ∙ sym (look_vacant slots k rounds j vacant)
      ]

  pub look-holds :
      (slots : ℕ → Slot K V) (k : K) (rounds j i : ℕ)
      → look slots k rounds j ≡ some i
      → (j ≤ i) × (i < j + rounds) × (holds k (slots i) ≡ true)
  unfolding look
  look-holds slots k zero j i e = cc
  look-holds slots k (suc rounds) j i e = elim (Bool-cases (is_empty (slots j))) [
    | inl vacant ↦ let none_found : none ≡ some i = rw vacant at e in cc
    | inr full ↦ elim (Bool-cases (holds k (slots j))) [
      | inl hit ↦
          let found : some j ≡ some i = rw (full, hit) at e in
          let here : j ≡ i = some-injective found in
          (omega arith, omega arith, subst (λ x. holds k (slots x) ≡ true) here hit)
      | inr other ↦
          let further : look slots k rounds (j + 1) ≡ some i = rw (full, other) at e in
          let (a, b, h) = look-holds slots k rounds (j + 1) i further in
          (omega arith, omega arith, h)
    ]
  ]

  -- A walk that comes to a slot that is not occupied can write.
  pub spot-found :
      (slots : ℕ → Slot K V) (k : K) (rounds j x : ℕ)
      → j ≤ x
      → x < j + rounds
      → is_occupied (slots x) ≡ false
      → (i : ℕ) × (spot slots k rounds j ≡ some i)
  unfolding spot
  spot-found slots k zero j x a b h = absurd (omega arith)
  spot-found slots k (suc rounds) j x a b h = elim (Bool-cases (is_occupied (slots j))) [
    | inr free ↦ (j, rw free refl)
    | inl occ ↦ elim (Bool-cases (holds k (slots j))) [
      | inl hit ↦ (j, rw (occ, hit) refl)
      | inr other ↦ elim (at_or_after j x a) [
        | inl e ↦
            let occ' : is_occupied (slots x) ≡ true =
              subst (λ y. is_occupied (slots y) ≡ true) e occ in
            absurd (true-ne-false (sym occ' ∙ h))
        | inr later ↦ rw (occ, other) (spot-found slots k rounds (j + 1) x later (omega arith) h)
      ]
    ]
  ]

  -- A walk that comes to a slot with the key, and to no empty slot before it, finds the key.
  pub look-found :
      (slots : ℕ → Slot K V) (k : K) (rounds j x : ℕ)
      → j ≤ x
      → x < j + rounds
      → ((y : ℕ) → j ≤ y → y ≤ x → is_empty (slots y) ≡ false)
      → holds k (slots x) ≡ true
      → (i : ℕ) × (look slots k rounds j ≡ some i)
  unfolding look
  look-found slots k zero j x a b full hit = absurd (omega arith)
  look-found slots k (suc rounds) j x a b full hit = elim (Bool-cases (holds k (slots j))) [
    | inl here ↦ (j, rw (full j (omega arith) a, here) refl)
    | inr other ↦ elim (at_or_after j x a) [
      | inl e ↦ absurd (true-ne-false (sym hit ∙ ap (λ y. holds k (slots y)) (sym e) ∙ other))
      | inr later ↦
          rw (full j (omega arith) a, other)
            (look-found slots k rounds (j + 1) x later (omega arith)
              (λ y c d. full y (omega arith) d) hit)
    ]
  ]
