-- ===== src/HashMap/Probe.antt =====
-- The tables with open addressing of HFT/HashMap.hpp and c++20/HashTables.cpp: the slots, and the
-- loops that both classes have. `wrap` is what brings an index back into the table. A loop that does
-- not end is undefined.
pub mod Walk
pub mod Writes
pub mod Lookup
pub mod Kept
pub mod Room
pub mod Occurs
pub mod Store
pub mod Find
use git_docs_test.Common.{
  ℕ, zero, suc, ◌+◌, ◌%◌, ◌^◌, Bool, true, false, Option, none, some, List, [], ◌∷◌, get_elem?, set,
  length, ◌==◌, ◌>>=◌, if◌then◌else◌, Result, ok, undefined,
}
use git_docs_test.HashMap.Key.{Key, ◌=?◌}

pub data Status : Type 0 where
  empty occupied deleted : Status

pub record Slot (K V : Type 0) : Type 0 where
  pub key : K
  pub value : V
  pub status : Status

module _ {K V : Type 0} ⦃key : Key K⦄ where
  -- a slot with the key
  abbrev pub holds : K → Slot K V → Bool
  holds k s = elim s.status [ empty ↦ false | occupied ↦ s.key =? k | deleted ↦ false ]

  abbrev pub is_empty : Slot K V → Bool
  is_empty s = elim s.status [ empty ↦ true | occupied ↦ false | deleted ↦ false ]

  abbrev pub is_occupied : Slot K V → Bool
  is_occupied s = elim s.status [ empty ↦ false | occupied ↦ true | deleted ↦ false ]

  module _ (wrap : ℕ → ℕ) (table : List (Slot K V)) (k : K) where
    -- The loop of `contains`, `erase` and `find`, on the rounds left: the index of the slot with the
    -- key. It ends at an empty slot, and where it began.
    unfoldable pub search : ℕ → ℕ → ℕ → Result (Option ℕ)
    search zero original_index index = undefined
    search (suc rounds) original_index index =
        let next = wrap ((index + 1) % 2 ^ 64) in
        let rest = search rounds original_index next in
        elim (get_elem? table index) [
          | none ↦ undefined
          | some slot ↦
              if is_empty slot
              then ok none
              else (if holds k slot
                  then ok (some index)
                  else (if next == original_index then ok none else rest))
        ]

    -- The loop of `insert`, on the rounds left: the index to write at. Nothing ends it where it began.
    unfoldable pub place : ℕ → ℕ → Result ℕ
    place zero index = undefined
    place (suc rounds) index =
        let rest = place rounds (wrap ((index + 1) % 2 ^ 64)) in
        elim (get_elem? table index) [
          | none ↦ undefined
          | some slot ↦
              if is_occupied slot then (if holds k slot then ok index else rest) else ok index
        ]

    -- The write of `insert`: whether the slot had no element, and the table. In a slot that is
    -- OCCUPIED, which then has the key, only the value is written.
    unfoldable pub write_at : V → ℕ → Result (Bool × List (Slot K V))
    write_at v index = elim (get_elem? table index) [
      | none ↦ undefined
      | some slot ↦
          if is_occupied slot
          then ok (false, set table index (record slot { value = v }))
          else ok (true, set table index (record { key = k; value = v; status = occupied }))
    ]

    -- What `insert` does behind its test of the load.
    unfoldable pub store : V → ℕ → Result (Bool × List (Slot K V))
    unfolding place write_at
    store v start = place (length table) start >>= write_at v

  -- the value that `find` returns a pointer to
  unfoldable pub value_of : List (Slot K V) → Option ℕ → Option V
  value_of table none = none
  value_of table (some index) = elim (get_elem? table index) [
    | none ↦ none
    | some slot ↦ some slot.value
  ]

  -- A slot that is DELETED keeps its key and its value.
  unfoldable pub mark_deleted : List (Slot K V) → ℕ → List (Slot K V)
  mark_deleted table index = elim (get_elem? table index) [
    | none ↦ table
    | some slot ↦ set table index (record slot { status = deleted })
  ]
