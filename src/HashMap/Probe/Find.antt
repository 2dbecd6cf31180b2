-- ===== src/HashMap/Probe/Find.antt =====
-- HFT/HashMap.hpp and c++20/HashTables.cpp: `find`, `contains` and `erase` of a table with open
-- addressing.
use native.Mathlib.Nat.{mod-lt}
use git_docs_test.Common.{
  ℕ, ◌+◌, ◌%◌, ◌<◌, ◌≡◌, refl, sym, ap, ◌∙◌, subst, Bool, true, false, Option, none, some, List,
  length, Option-cases, inl, inr, ok, arith,
}
use git_docs_test.HashMap.Key.{Key, ◌=?◌}
use git_docs_test.HashMap.Contract.{is_some}
use git_docs_test.HashMap.Probe.{
  Status, empty, occupied, deleted, Slot, holds, is_occupied, search, value_of, mark_deleted,
}
use git_docs_test.HashMap.Probe.Walk.{at, look, index_of, search-look}
use git_docs_test.HashMap.Probe.Writes.{look-holds}
use git_docs_test.HashMap.Probe.Lookup.{
  lookup, Unbroken, written, value_at, lookup-written_other, length-written,
}
use git_docs_test.HashMap.Probe.Kept.{Unbroken-replaced}
use git_docs_test.HashMap.Probe.Room.{one_if_occupied, elements, one_if_holds, copies, copies-set}
use git_docs_test.HashMap.Probe.Store.{IsWalkable, slot_there, elements-written, holds_other}

by_status :
    (t : Status) (a : Bool)
    → (elim t [ empty ↦ false | occupied ↦ a | deleted ↦ false ]) ≡ true
    → (elim t [ empty ↦ false | occupied ↦ true | deleted ↦ false ]) ≡ true
by_status empty a h = h
by_status occupied a h = refl
by_status deleted a h = h

module _ {K V : Type 0} ⦃key : Key K⦄ (blank : Slot K V) where
  -- where the walk of a key ends
  abbrev pub walk : List (Slot K V) → K → Option ℕ
  walk table k = look (at blank table) k (length table) (key.hash k)

  pub search-walk :
      (wrap : ℕ → ℕ) (table : List (Slot K V)) (k : K) (start : ℕ)
      → IsWalkable blank wrap table
      → start ≡ key.hash k % length table
      → search wrap table k (length table) start start ≡ ok (index_of (length table) (walk table k))
  search-walk wrap table k start w home =
      ap (λ i. search wrap table k (length table) i i) home
      ∙ ap
          (λ (i : ℕ).
            search wrap table k (length table) (key.hash k % length table) (i % length table))
          {x = key.hash k} {y = key.hash k + 0} (omega arith)
      ∙ search-look wrap blank table k w.wraps w.some_slot w.small (key.hash k) (length table) 0
          w.some_slot (omega arith)
      ∙ ap (λ (i : ℕ). ok (index_of (length table) (look (at blank table) k (length table) i)))
          {x = key.hash k + 0} {y = key.hash k} (omega arith)

  value_of-index :
      (table : List (Slot K V)) (o : Option ℕ)
      → 0 < length table
      → value_of table (index_of (length table) o) ≡ value_at blank table o
  unfolding value_of
  value_of-index table none h = refl
  value_of-index table (some x) h = rw (slot_there blank table x h, value_of) refl

  pub value_of-walk :
      (table : List (Slot K V)) (k : K)
      → 0 < length table
      → value_of table (index_of (length table) (walk table k)) ≡ lookup blank table k
  unfolding lookup
  value_of-walk table k some_slot = value_of-index table (walk table k) some_slot

  pub is_some-walk :
      (table : List (Slot K V)) (k : K) → is_some (lookup blank table k) ≡ is_some (walk table k)
  unfolding lookup
  is_some-walk table k = elim (Option-cases (walk table k)) [
    | inl missing ↦ rw missing refl
    | inr (x, found) ↦ rw found refl
  ]

  -- The table after the slot of the key is marked DELETED.
  pub record HasErased (table : List (Slot K V)) (k : K) (table' : List (Slot K V)) : Type 0 where
    pub same_slots : length table' ≡ length table
    pub whole : Unbroken blank table'
    pub counted : elements table' + 1 ≡ elements table
    pub one_less : copies k table' + 1 ≡ copies k table
    pub others : (q : K) → (k =? q) ≡ false → lookup blank table' q ≡ lookup blank table q

  holds-occupied : (k : K) (s : Slot K V) → holds k s ≡ true → is_occupied s ≡ true
  holds-occupied k s h = by_status s.status (s.key =? k) h

  marked :
      (table : List (Slot K V)) (x : ℕ)
      → 0 < length table
      → mark_deleted table (x % length table)
        ≡ written blank table x (record (at blank table x) { status = deleted })
  unfolding mark_deleted written
  marked table x h = rw (slot_there blank table x h, mark_deleted) refl

  copies-written :
      (k : K) (table : List (Slot K V)) (i : ℕ) (slot : Slot K V)
      → 0 < length table
      → copies k (written blank table i slot) + one_if_holds k (at blank table i)
        ≡ copies k table + one_if_holds k slot
  unfolding written
  copies-written k table i slot h = copies-set k table (i % length table) slot blank (mod-lt i h)

  pub mark_deleted-HasErased :
      (wrap : ℕ → ℕ) (table : List (Slot K V)) (k : K) (x : ℕ)
      → IsWalkable blank wrap table
      → walk table k ≡ some x
      → HasErased table k (mark_deleted table (x % length table))
  mark_deleted-HasErased wrap table k x w found =
      let (a, b, hit) = look-holds (at blank table) k (length table) (key.hash k) x found in
      let slot : Slot K V = record (at blank table x) { status = deleted } in
      let count = elements-written blank table x slot w.some_slot in
      let one : one_if_occupied (at blank table x) ≡ 1 =
        rw (holds-occupied k (at blank table x) hit) refl in
      let held : one_if_holds k (at blank table x) ≡ 1 = rw hit refl in
      subst (HasErased table k) (sym (marked table x w.some_slot)) (record {
        same_slots = length-written blank table x slot w.some_slot;
        whole = Unbroken-replaced blank table x slot w.some_slot w.whole refl (λ q h. cc);
        counted = omega (arith, count, one);
        one_less = omega (arith, copies-written k table x slot w.some_slot, held);
        others = λ q ne.
            lookup-written_other blank table x slot w.some_slot q w.whole
              (holds_other blank k q (at blank table x) ne (λ _. hit)) refl refl;
      })
