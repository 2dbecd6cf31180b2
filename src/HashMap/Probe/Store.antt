-- ===== src/HashMap/Probe/Store.antt =====
-- HFT/HashMap.hpp and c++20/HashTables.cpp: `insert`, `find` and `erase` of a table with open
-- addressing, behind the tests of the load.
use native.Mathlib.Nat.{mod-lt}
use git_docs_test.Common.{
  ℕ, ◌+◌, ◌%◌, ◌^◌, ◌<◌, ◌≡◌, refl, sym, ap, ◌∙◌, subst, Bool, true, false, some, List, get_elem?,
  length, if◌then◌else◌, Bool-cases, inl, inr, ok, ◌>>=◌, Returns, arith,
}
use git_docs_test.HashMap.Key.{Key, ◌=?◌, =?_refl}
use git_docs_test.HashMap.Probe.{
  Status, empty, occupied, deleted, Slot, holds, is_occupied, place, write_at, store,
}
use git_docs_test.HashMap.Probe.Walk.{at, place-spot, get_elem?-get_or}
use git_docs_test.HashMap.Probe.Writes.{Stops, spot-Stops}
use git_docs_test.HashMap.Probe.Lookup.{
  lookup, Unbroken, written, lookup-written_other, length-written, occupied-nonempty,
}
use git_docs_test.HashMap.Probe.Kept.{lookup-written_self, Unbroken-replaced, Unbroken-added}
use git_docs_test.HashMap.Probe.Room.{one_if_occupied, elements, elements-set, room}

-- a slot with one key has no other
by_status :
    (t : Status) (a b : Bool)
    → ((elim t [ empty ↦ false | occupied ↦ true | deleted ↦ false ]) ≡ true
        → (elim t [ empty ↦ false | occupied ↦ a | deleted ↦ false ]) ≡ true)
    → (a ≡ true → b ≡ false)
    → (elim t [ empty ↦ false | occupied ↦ b | deleted ↦ false ]) ≡ false
by_status empty a b h ne = refl
by_status occupied a b h ne = ne (h refl)
by_status deleted a b h ne = refl

module _ {K V : Type 0} ⦃key : Key K⦄ (blank : Slot K V) where
  -- The walks of a table are whole, and an index is wrapped by the number of its slots.
  pub record IsWalkable (wrap : ℕ → ℕ) (table : List (Slot K V)) : Type 0 where
    pub some_slot : 0 < length table
    pub small : length table < 2 ^ 64
    pub wraps : (i : ℕ) → wrap i ≡ i % length table
    pub whole : Unbroken blank table

  -- The table after the key got the value; `added` says whether the key has a new slot.
  pub record HasStored (table : List (Slot K V)) (k : K) (v : V) (added : Bool)
      (table' : List (Slot K V)) : Type 0 where
    pub same_slots : length table' ≡ length table
    pub whole : Unbroken blank table'
    pub counted : elements table' ≡ elements table + (if added then 1 else 0)
    pub own : lookup blank table' k ≡ some v
    pub others : (q : K) → (k =? q) ≡ false → lookup blank table' q ≡ lookup blank table q

  pub holds_other :
      (k q : K) (s : Slot K V)
      → (k =? q) ≡ false
      → (is_occupied s ≡ true → holds k s ≡ true)
      → holds q s ≡ false
  holds_other k q s ne h =
      by_status s.status (s.key =? k) (s.key =? q) h
        (λ e. subst (λ x. (x =? q) ≡ false) (sym ((key.equal_iff s.key k).0 e)) ne)

  holds-own :
      (k q : K) (v : V) → holds q (record { key = k; value = v; status = occupied }) ≡ true → q ≡ k
  holds-own k q v h = sym ((key.equal_iff k q).0 h)

  pub slot_there :
      (table : List (Slot K V)) (i : ℕ)
      → 0 < length table
      → get_elem? table (i % length table) ≡ some (at blank table i)
  slot_there table i h = get_elem?-get_or table (i % length table) blank (mod-lt i h)

  pub elements-written :
      (table : List (Slot K V)) (i : ℕ) (slot : Slot K V)
      → 0 < length table
      → elements (written blank table i slot) + one_if_occupied (at blank table i)
        ≡ elements table + one_if_occupied slot
  unfolding written
  elements-written table i slot h = elements-set table (i % length table) slot blank (mod-lt i h)

  module _ (wrap : ℕ → ℕ) (table : List (Slot K V)) (k : K) (v : V) (start i : ℕ)
      (placed : place wrap table k (length table) start ≡ ok (i % length table))
      (some_slot : 0 < length table) where
    write_new :
        is_occupied (at blank table i) ≡ false
        → write_at wrap table k v (i % length table)
          ≡ ok (true, written blank table i (record { key = k; value = v; status = occupied }))
    unfolding write_at written
    write_new free = rw (slot_there table i some_slot, write_at) (rw free refl)

    write_old :
        is_occupied (at blank table i) ≡ true
        → write_at wrap table k v (i % length table)
          ≡ ok (false, written blank table i (record (at blank table i) { value = v }))
    unfolding write_at written
    write_old occ = rw (slot_there table i some_slot, write_at) (rw occ refl)

    store_placed : store wrap table k v start ≡ write_at wrap table k v (i % length table)
    unfolding store
    store_placed = ap (λ p. p >>= write_at wrap table k v) placed

  module _ (wrap : ℕ → ℕ) (table : List (Slot K V)) (k : K) (v : V) (w : IsWalkable wrap table)
      (i : ℕ) (s : Stops (at blank table) k (key.hash k) i)
      (near : i < key.hash k + length table) where
    -- the key in a slot that was not occupied
    stored_new :
        is_occupied (at blank table i) ≡ false
        → HasStored table k v true
            (written blank table i (record { key = k; value = v; status = occupied }))
    stored_new free =
        let slot : Slot K V = record { key = k; value = v; status = occupied } in
        let count = elements-written table i slot w.some_slot in
        let none_before : one_if_occupied (at blank table i) ≡ 0 = rw free refl in
        record {
          same_slots = length-written blank table i slot w.some_slot;
          whole =
              Unbroken-added blank table k i slot w.some_slot w.whole s near refl
                (λ q. holds-own k q v);
          counted = omega (arith, count, none_before);
          own = lookup-written_self blank table k i slot w.some_slot s near (=?_refl k);
          others = λ q ne.
              lookup-written_other blank table i slot w.some_slot q w.whole
                (holds_other k q (at blank table i) ne s.free) ne refl;
        }

    -- a new value in the slot of the key
    stored_old :
        is_occupied (at blank table i) ≡ true
        → HasStored table k v false
            (written blank table i (record (at blank table i) { value = v }))
    stored_old occ =
        let slot : Slot K V = record (at blank table i) { value = v } in
        let count = elements-written table i slot w.some_slot in
        record {
          same_slots = length-written blank table i slot w.some_slot;
          whole =
              Unbroken-replaced blank table i slot w.some_slot w.whole
                (occupied-nonempty (at blank table i) occ) (λ q h. h);
          counted = omega (arith, count);
          own = lookup-written_self blank table k i slot w.some_slot s near (s.free occ);
          others = λ q ne.
              lookup-written_other blank table i slot w.some_slot q w.whole
                (holds_other k q (at blank table i) ne s.free)
                (holds_other k q (at blank table i) ne s.free)
                (occupied-nonempty (at blank table i) occ);
        }

  -- With fewer elements than slots, the key is stored.
  pub store_lem :
      (wrap : ℕ → ℕ) (table : List (Slot K V)) (k : K) (v : V) (start : ℕ)
      → IsWalkable wrap table
      → start ≡ key.hash k % length table
      → elements table < length table
      → Returns (store wrap table k v start) (λ (added, table'). HasStored table k v added table')
  store_lem wrap table k v start w home few =
      let (i, found) = room table blank k few in
      let (near, s) = spot-Stops (at blank table) k (length table) (key.hash k) i found in
      let placed : place wrap table k (length table) start ≡ ok (i % length table) =
        ap (place wrap table k (length table)) home
        ∙ place-spot wrap blank table k w.wraps w.some_slot w.small (length table) (key.hash k) i
            found in
      elim (Bool-cases (is_occupied (at blank table i))) [
        | inl occ ↦ (
          (false, written blank table i (record (at blank table i) { value = v })),
          store_placed wrap table k v start i placed w.some_slot
              ∙ write_old wrap table k v start i placed w.some_slot occ,
          stored_old wrap table k v w i s near occ,
        )
        | inr free ↦ (
          (true, written blank table i (record { key = k; value = v; status = occupied })),
          store_placed wrap table k v start i placed w.some_slot
              ∙ write_new wrap table k v start i placed w.some_slot free,
          stored_new wrap table k v w i s near free,
        )
      ]
