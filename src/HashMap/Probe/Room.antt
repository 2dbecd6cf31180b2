-- ===== src/HashMap/Probe/Room.antt =====
-- HFT/HashMap.hpp and c++20/HashTables.cpp: a table with fewer elements than slots has room for one
-- more, so that the loop of `insert` ends.
use native.Mathlib.Nat.{mod-lt, mod-add-mod, add-mod-mod, add-mod_right, mod-eq_of_lt}
use git_docs_test.Common.{
  ℕ, zero, suc, ◌+◌, ◌-◌, ◌%◌, ◌<◌, ◌≤◌, ◌≡◌, refl, sym, ap, ◌∙◌, false, some, List, [], ◌∷◌,
  get_or, set, length, if◌then◌else◌, Bool-cases, inl, inr, arith,
}
use git_docs_test.HashMap.Key.{Key}
use git_docs_test.HashMap.Probe.{Slot, holds, is_occupied}
use git_docs_test.HashMap.Probe.Walk.{at, spot}
use git_docs_test.HashMap.Probe.Writes.{spot-found}

-- Every slot is at one of the positions from `h` on, as many as there are slots.
pub position : (h i n : ℕ) → i < n → (x : ℕ) × (h ≤ x) × (x < h + n) × (x % n ≡ i)
position h i n lt =
    let d = (i + n - h % n) % n in
    let home = mod-lt h {m = n} (omega arith) in
    let small = mod-lt (i + n - h % n) {m = n} (omega arith) in
    (
      h + d,
      omega arith,
      omega arith,
      add-mod-mod h (i + n - h % n) n
          ∙ sym (mod-add-mod h n (i + n - h % n))
          ∙ ap (λ (x : ℕ). x % n) {x = h % n + (i + n - h % n)} {y = i + n} (omega arith)
          ∙ add-mod_right i n
          ∙ mod-eq_of_lt lt,
    )

module _ {K V : Type 0} ⦃key : Key K⦄ where
  abbrev pub one_if_occupied : Slot K V → ℕ
  one_if_occupied s = if is_occupied s then 1 else 0

  -- how many slots are OCCUPIED
  abbrev pub elements : List (Slot K V) → ℕ
  elements [] = 0
  elements (s ∷ t) = one_if_occupied s + elements t

  pub elements-set :
      (table : List (Slot K V)) (i : ℕ) (slot blank : Slot K V)
      → i < length table
      → elements (set table i slot) + one_if_occupied (get_or table i blank)
        ≡ elements table + one_if_occupied slot
  elements-set [] i slot blank h = absurd (omega arith)
  elements-set (s ∷ t) zero slot blank h = omega arith
  elements-set (s ∷ t) (suc i) slot blank h =
      omega (arith, elements-set t i slot blank (omega arith))

  abbrev pub one_if_holds : K → Slot K V → ℕ
  one_if_holds k s = if holds k s then 1 else 0

  -- how many slots have the key
  abbrev pub copies : K → List (Slot K V) → ℕ
  copies k [] = 0
  copies k (s ∷ t) = one_if_holds k s + copies k t

  pub copies-set :
      (k : K) (table : List (Slot K V)) (i : ℕ) (slot blank : Slot K V)
      → i < length table
      → copies k (set table i slot) + one_if_holds k (get_or table i blank)
        ≡ copies k table + one_if_holds k slot
  copies-set k [] i slot blank h = absurd (omega arith)
  copies-set k (s ∷ t) zero slot blank h = omega arith
  copies-set k (s ∷ t) (suc i) slot blank h =
      omega (arith, copies-set k t i slot blank (omega arith))

  free_slot :
      (table : List (Slot K V)) (blank : Slot K V)
      → elements table < length table
      → (i : ℕ) × (i < length table) × (is_occupied (get_or table i blank) ≡ false)
  free_slot [] blank h = absurd (omega arith)
  free_slot (s ∷ t) blank h = elim (Bool-cases (is_occupied s)) [
    | inr free ↦ (0, omega arith, free)
    | inl occ ↦
        let one : one_if_occupied s ≡ 1 = rw occ refl in
        let (i, lt, free) = free_slot t blank (omega arith) in (suc i, omega arith, free)
  ]

  pub room :
      (table : List (Slot K V)) (blank : Slot K V) (k : K)
      → elements table < length table
      → (i : ℕ) × (spot (at blank table) k (length table) (key.hash k) ≡ some i)
  room table blank k h =
      let (i, lt, free) = free_slot table blank h in
      let (x, from, to, same) = position (key.hash k) i (length table) lt in
      spot-found (at blank table) k (length table) (key.hash k) x from to
        (ap (λ j. is_occupied (get_or table j blank)) same ∙ free)
