-- ===== src/HashMap/Probe/Occurs.antt =====
-- HFT/HashMap.hpp and c++20/HashTables.cpp: a key is found exactly when a slot has it.
use native.Mathlib.Nat.{mod-lt}
use git_docs_test.Common.{
  ℕ, zero, suc, ◌+◌, ◌%◌, ◌<◌, ◌≤◌, ◌≡◌, refl, sym, ap, ◌∙◌, Bool, true, false, ◌||◌, List, [], ◌∷◌,
  get_or, length, Bool-cases, Option-cases, inl, inr, arith,
}
use native.Mathlib.Decide.{dec_lt}
use git_docs_test.HashMap.Key.{Key}
use git_docs_test.HashMap.Contract.{is_some}
use git_docs_test.HashMap.Probe.{Slot, holds, is_empty}
use git_docs_test.HashMap.Probe.Walk.{at, look}
use git_docs_test.HashMap.Probe.Writes.{look-holds, look-found}
use git_docs_test.HashMap.Probe.Lookup.{lookup, Unbroken, holds-nonempty}
use git_docs_test.HashMap.Probe.Room.{position}

module _ {K V : Type 0} ⦃key : Key K⦄ where
  -- a slot of the table has the key
  abbrev pub occurs : K → List (Slot K V) → Bool
  occurs k [] = false
  occurs k (s ∷ table) = holds k s || occurs k table

  occurs_here :
      (k : K) (table : List (Slot K V)) (blank : Slot K V) (i : ℕ)
      → i < length table
      → holds k (get_or table i blank) ≡ true
      → occurs k table ≡ true
  occurs_here k [] blank i lt h = absurd (omega arith)
  occurs_here k (s ∷ table) blank zero lt h = rw h refl
  occurs_here k (s ∷ table) blank (suc i) lt h = elim (Bool-cases (holds k s)) [
    | inl hit ↦ rw hit refl
    | inr other ↦ rw other (occurs_here k table blank i (omega arith) h)
  ]

  index_with :
      (k : K) (table : List (Slot K V)) (blank : Slot K V)
      → occurs k table ≡ true
      → (i : ℕ) × (i < length table) × (holds k (get_or table i blank) ≡ true)
  index_with k [] blank h = cc
  index_with k (s ∷ table) blank h = elim (Bool-cases (holds k s)) [
    | inl hit ↦ (0, omega arith, hit)
    | inr other ↦
        let (i, lt, hit) =
          index_with k table blank (ap (λ b. b || occurs k table) (sym other) ∙ h) in
        (suc i, omega arith, hit)
  ]

  full_upto :
      (blank : Slot K V) (table : List (Slot K V)) (k : K) (x y : ℕ)
      → Unbroken blank table
      → key.hash k ≤ y
      → y ≤ x
      → x < key.hash k + length table
      → holds k (at blank table x) ≡ true
      → is_empty (at blank table y) ≡ false
  full_upto blank table k x y whole a b to hit = elim (dec_lt y x) [
    | yes lt ↦ whole k y x a lt to hit
    | no ge ↦
        let e : y ≡ x = omega arith in
        ap (λ z. is_empty (at blank table z)) e ∙ holds-nonempty k (at blank table x) hit
  ]

  pub lookup-occurs :
      (blank : Slot K V) (table : List (Slot K V)) (k : K)
      → 0 < length table
      → Unbroken blank table
      → is_some (lookup blank table k) ≡ occurs k table
  unfolding lookup
  lookup-occurs blank table k some_slot whole = elim (Bool-cases (occurs k table)) [
    | inl there ↦
        let (i, lt, hit) = index_with k table blank there in
        let (x, from, to, same) = position (key.hash k) i (length table) lt in
        let at_x : holds k (at blank table x) ≡ true =
          ap (λ j. holds k (get_or table j blank)) same ∙ hit in
        let (y, found) =
          look-found (at blank table) k (length table) (key.hash k) x from to
            (λ y a b. full_upto blank table k x y whole a b to at_x) at_x in
        rw found (sym there)
    | inr absent ↦ elim (Option-cases (look (at blank table) k (length table) (key.hash k))) [
      | inl missing ↦ rw missing (sym absent)
      | inr (x, found) ↦
          let (a, b, hit) = look-holds (at blank table) k (length table) (key.hash k) x found in
          let clash : true ≡ false =
            sym (occurs_here k table blank (x % length table) (mod-lt x some_slot) hit) ∙ absent in
          cc
    ]
  ]
