-- ===== src/HashMap/Probe/Kept.antt =====
-- HFT/HashMap.hpp and c++20/HashTables.cpp: a write to a table with open addressing that fills a slot
-- keeps the walks of the keys whole.
use git_docs_test.Common.{
  ℕ, ◌+◌, ◌%◌, ◌<◌, ◌≡◌, sym, ap, ◌∙◌, true, false, some, List, length, ◌==◌, Bool-cases, inl, inr,
  arith,
}
use git_docs_test.HashMap.Key.{Key}
use git_docs_test.HashMap.Probe.{Slot, holds, is_empty}
use git_docs_test.HashMap.Probe.Walk.{at}
use git_docs_test.HashMap.Probe.Writes.{Stops, look-hit}
use git_docs_test.HashMap.Probe.Lookup.{
  at-written_self, at-written_same, at-written_other, same_slot, empty-written, length-written,
  written, lookup, Unbroken, at-written_before, lookup-length, value_at, same_position,
  occupied-nonempty, holds-nonempty,
}

module _ {K V : Type 0} ⦃key : Key K⦄ (blank : Slot K V) where
  -- `insert` at the slot where a walk of the key stops: the key has the value.
  pub lookup-written_self :
      (table : List (Slot K V)) (k : K) (i : ℕ) (slot : Slot K V)
      → 0 < length table
      → Stops (at blank table) k (key.hash k) i
      → i < key.hash k + length table
      → holds k slot ≡ true
      → lookup blank (written blank table i slot) k ≡ some slot.value
  unfolding lookup
  lookup-written_self table k i slot some_slot s near hit =
      let w = written blank table i slot in
      lookup-length blank table i slot some_slot k
      ∙ ap (value_at blank w) (
          look-hit (at blank w) k (length table) (key.hash k) i s.from near
            (λ x a b.
              let (occ, other) = s.passed x a b in
              rw (at-written_before blank table i slot some_slot x b (omega arith))
                (occupied-nonempty (at blank table x) occ, other))
            (rw (at-written_self blank table i slot some_slot) (holds-nonempty k slot hit))
            (rw (at-written_self blank table i slot some_slot) hit))
      ∙ ap (λ s. some s.value) (at-written_self blank table i slot some_slot)

  -- A filled slot in the place of another keeps the walks whole, if it holds no key that the other
  -- did not hold.
  pub Unbroken-replaced :
      (table : List (Slot K V)) (i : ℕ) (slot : Slot K V)
      → 0 < length table
      → Unbroken blank table
      → is_empty slot ≡ false
      → ((q : K) → holds q slot ≡ true → holds q (at blank table i) ≡ true)
      → Unbroken blank (written blank table i slot)
  Unbroken-replaced table i slot some_slot whole full sub q x y a lt near hit =
      empty-written blank table i slot some_slot x full (
        whole q x y a lt (omega (arith, length-written blank table i slot some_slot))
          (elim (Bool-cases (i % length table == y % length table)) [
            | inl e ↦
                ap (holds q) (same_slot blank table i slot some_slot y e)
                ∙ sub q
                    (ap (holds q) (sym (at-written_same blank table i slot some_slot y e)) ∙ hit)
            | inr e ↦ ap (holds q) (sym (at-written_other blank table i slot some_slot y e)) ∙ hit
          ]))

  -- So does a slot with a key where a walk of the key stops.
  pub Unbroken-added :
      (table : List (Slot K V)) (k : K) (i : ℕ) (slot : Slot K V)
      → 0 < length table
      → Unbroken blank table
      → Stops (at blank table) k (key.hash k) i
      → i < key.hash k + length table
      → is_empty slot ≡ false
      → ((q : K) → holds q slot ≡ true → q ≡ k)
      → Unbroken blank (written blank table i slot)
  Unbroken-added table k i slot some_slot whole s near full own q x y a lt bound hit =
      elim (Bool-cases (i % length table == y % length table)) [
        | inr e ↦ empty-written blank table i slot some_slot x full (
            whole q x y a lt (omega (arith, length-written blank table i slot some_slot))
              (ap (holds q) (sym (at-written_other blank table i slot some_slot y e)) ∙ hit))
        | inl e ↦
            let mine : q ≡ k =
              own q (ap (holds q) (sym (at-written_same blank table i slot some_slot y e)) ∙ hit) in
            let home : key.hash q ≡ key.hash k = ap key.hash mine in
            let here : y ≡ i =
              same_position blank (length table) (key.hash k) y i e (omega arith)
                (omega (arith, length-written blank table i slot some_slot)) s.from near in
            let (occ, other) = s.passed x (omega arith) (omega arith) in
            empty-written blank table i slot some_slot x full
              (occupied-nonempty (at blank table x) occ)
      ]
