-- ===== src/HashMap/Probe/Lookup.antt =====
-- HFT/HashMap.hpp and c++20/HashTables.cpp: what a table with open addressing maps a key to, and how
-- a write changes it.
use native.Mathlib.Nat.{mod-lt}
use native.Mathlib.Decide.{dec_lt}
use git_docs_test.Common.{
  ℕ, ◌+◌, ◌-◌, ◌%◌, ◌<◌, ◌≤◌, ◌≡◌, ◌≢◌, refl, sym, ap, ◌∙◌, true, false, Option, none, some, List,
  get_or, set, get_or-set, length, length-set, ◌==◌, ==_iff, if◌then◌else◌, Bool-cases,
  Option-cases, inl, inr, ◌⊎◌, arith,
}
use git_docs_test.Queue.Ring.{slot-ne}
use git_docs_test.HashMap.Key.{Key, ◌=?◌}
use git_docs_test.HashMap.Probe.{empty, occupied, deleted, Slot, holds, is_empty, is_occupied}
use git_docs_test.HashMap.Probe.Walk.{at, look}
use git_docs_test.HashMap.Probe.Writes.{look-alike, look-holds}

-- Two positions less than a table apart are different slots.
apart : {A : Type 0} (a : A) (n x y : ℕ) → x < y → y < x + n → (x % n == y % n) ≡ false
apart a n x y lt near =
    let differ : y % n ≢ x % n = λ e.
      slot-ne a n x (y - x) (omega arith) (omega arith) (ap (λ (i : ℕ). i % n) (omega arith) ∙ e) in
    ground arith

apart_above : {A : Type 0} (a : A) (n x y : ℕ) → x < y → y < x + n → (y % n == x % n) ≡ false
apart_above a n x y lt near =
    let differ : (x % n == y % n) ≡ false = apart a n x y lt near in ground arith

-- A window of as many positions as the table has slots has each slot once.
pub same_position :
    {A : Type 0} (a : A) (n h y i : ℕ)
    → (i % n == y % n) ≡ true
    → h ≤ y
    → y < h + n
    → h ≤ i
    → i < h + n
    → y ≡ i
same_position a n h y i e y₁ y₂ i₁ i₂ = elim (dec_lt y i) [
  | yes lt ↦ let clash : true ≡ false = sym e ∙ apart_above a n y i lt (omega arith) in cc
  | no ge ↦ elim (dec_lt i y) [
    | yes lt ↦ let clash : true ≡ false = sym e ∙ apart a n i y lt (omega arith) in cc
    | no le ↦ omega arith
  ]
]

module _ {K V : Type 0} ⦃key : Key K⦄ where
  pub occupied-nonempty : (s : Slot K V) → is_occupied s ≡ true → is_empty s ≡ false
  occupied-nonempty s h =
      elim s.status
          as (λ t.
            (elim t [ empty ↦ false | occupied ↦ true | deleted ↦ false ]) ≡ true
            → (elim t [ empty ↦ true | occupied ↦ false | deleted ↦ false ]) ≡ false) [
              | empty ↦ λ e. cc
              | occupied ↦ λ e. refl
              | deleted ↦ λ e. refl
            ]
        h

  pub holds-nonempty : (k : K) (s : Slot K V) → holds k s ≡ true → is_empty s ≡ false
  holds-nonempty k s h =
      elim s.status
          as (λ t.
            (elim t [ empty ↦ false | occupied ↦ s.key =? k | deleted ↦ false ]) ≡ true
            → (elim t [ empty ↦ true | occupied ↦ false | deleted ↦ false ]) ≡ false) [
              | empty ↦ λ e. cc
              | occupied ↦ λ e. refl
              | deleted ↦ λ e. refl
            ]
        h

module _ {K V : Type 0} ⦃key : Key K⦄ (blank : Slot K V) where
  -- the value of a key
  abbrev pub value_at : List (Slot K V) → Option ℕ → Option V
  value_at table none = none
  value_at table (some j) = some (at blank table j).value

  unfoldable pub lookup : List (Slot K V) → K → Option V
  lookup table k = value_at table (look (at blank table) k (length table) (key.hash k))

  -- No walk to an element comes to an empty slot.
  abbrev pub Unbroken : List (Slot K V) → Type 0
  Unbroken table =
      (q : K) (x y : ℕ)
      → key.hash q ≤ x
      → x < y
      → y < key.hash q + length table
      → holds q (at blank table y) ≡ true
      → is_empty (at blank table x) ≡ false

  none_behind :
      (table : List (Slot K V)) (q : K)
      → Unbroken table
      → (x y : ℕ) → key.hash q ≤ x
      → is_empty (at blank table x) ≡ true
      → x ≤ y
      → y < key.hash q + length table
      → holds q (at blank table y) ≡ false
  none_behind table q whole x y a vacant c d = elim (Bool-cases (holds q (at blank table y))) [
    | inr other ↦ other
    | inl hit ↦ elim (dec_lt x y) [
      | yes lt ↦ let clash : true ≡ false = sym vacant ∙ whole q x y a lt d hit in cc
      | no ge ↦
          let e : x ≡ y = omega arith in
          let clash : true ≡ false =
            sym vacant
            ∙ ap (λ z. is_empty (at blank table z)) e
            ∙ holds-nonempty q (at blank table y) hit in
          cc
    ]
  ]

  unfoldable pub written : List (Slot K V) → ℕ → Slot K V → List (Slot K V)
  written table i slot = set table (i % length table) slot

  module _ (table : List (Slot K V)) (i : ℕ) (slot : Slot K V) (some_slot : 0 < length table) where
    pub length-written : length (written table i slot) ≡ length table
    unfolding written
    length-written = length-set table (i % length table) slot

    pub at-written :
        (x : ℕ)
        → at blank (written table i slot) x
          ≡ (if i % length table == x % length table then slot else at blank table x)
    unfolding written
    at-written x =
        ap (λ n. get_or (set table (i % length table) slot) (x % n) blank) length-written
        ∙ get_or-set table (i % length table) (x % length table) slot blank (mod-lt i some_slot)

    pub at-written_same :
        (x : ℕ)
        → (i % length table == x % length table) ≡ true
        → at blank (written table i slot) x ≡ slot
    at-written_same x e = rw (at-written x, e) refl

    pub at-written_other :
        (x : ℕ)
        → (i % length table == x % length table) ≡ false
        → at blank (written table i slot) x ≡ at blank table x
    at-written_other x e = rw (at-written x, e) refl

    pub at-written_self : at blank (written table i slot) i ≡ slot
    at-written_self = at-written_same i (ground arith)

    pub at-written_before :
        (x : ℕ)
        → x < i
        → i < x + length table
        → at blank (written table i slot) x ≡ at blank table x
    at-written_before x lt near = at-written_other x (apart_above blank (length table) x i lt near)

    pub same_slot :
        (x : ℕ)
        → (i % length table == x % length table) ≡ true
        → at blank table x ≡ at blank table i
    same_slot x e =
        ap (λ j. get_or table j blank) (sym ((==_iff (i % length table) (x % length table)).0 e))

    -- A slot that has no key `q` before or after: `q` is held where it was.
    holds-written :
        (q : K) (x : ℕ)
        → holds q (at blank table i) ≡ false
        → holds q slot ≡ false
        → holds q (at blank (written table i slot) x) ≡ holds q (at blank table x)
    holds-written q x old new = elim (Bool-cases (i % length table == x % length table)) [
      | inl e ↦
          ap (holds q) (at-written_same x e) ∙ new ∙ sym old ∙ ap (holds q) (sym (same_slot x e))
      | inr e ↦ ap (holds q) (at-written_other x e)
    ]

    value-written :
        (q : K) (x : ℕ)
        → holds q (at blank table i) ≡ false
        → holds q (at blank table x) ≡ true
        → at blank (written table i slot) x ≡ at blank table x
    value-written q x old hit = elim (Bool-cases (i % length table == x % length table)) [
      | inl e ↦ let clash : true ≡ false = sym hit ∙ ap (holds q) (same_slot x e) ∙ old in cc
      | inr e ↦ at-written_other x e
    ]

    pub empty-written :
        (x : ℕ)
        → is_empty slot ≡ false
        → is_empty (at blank table x) ≡ false
        → is_empty (at blank (written table i slot) x) ≡ false
    empty-written x new old = rw (at-written x) (ground arith)

    pub lookup-length :
        (q : K)
        → lookup (written table i slot) q
          ≡ value_at
              (written table i slot)
              (look (at blank (written table i slot)) q (length table) (key.hash q))
    unfolding lookup
    lookup-length q =
        ap
          (λ n.
            value_at (written table i slot)
              (look (at blank (written table i slot)) q n (key.hash q)))
          length-written

    -- A write to a slot, before and after which it has not the key, changes nothing for the key.
    pub lookup-written_other :
        (q : K)
        → Unbroken table
        → holds q (at blank table i) ≡ false
        → holds q slot ≡ false
        → is_empty slot ≡ false
        → lookup (written table i slot) q ≡ lookup table q
    unfolding lookup
    lookup-written_other q whole old new full =
        lookup-length q
        ∙ ap (value_at (written table i slot)) same_walk
        ∙ (elim (Option-cases (look (at blank table) q (length table) (key.hash q))) [
          | inl missing ↦ rw missing refl
          | inr (x, found) ↦ rw found (
              ap (λ s. some s.value)
                (value-written q x old
                  (look-holds (at blank table) q (length table) (key.hash q) x found).2))
        ])
      where
        kept :
            (x : ℕ)
            → key.hash q ≤ x
            → x < key.hash q + length table
            → (is_empty (at blank (written table i slot) x) ≡ is_empty (at blank table x))
              ⊎ ((is_empty (at blank table x) ≡ true)
                  × ((y : ℕ)
                      → x ≤ y
                      → y < key.hash q + length table
                      → holds q (at blank table y) ≡ false))
        kept x a b = elim (Bool-cases (is_empty (at blank table x))) [
          | inr filled ↦ inl (empty-written x full filled ∙ sym filled)
          | inl vacant ↦ inr (vacant, λ y c d. none_behind table q whole x y a vacant c d)
        ]

        same_walk :
            look (at blank (written table i slot)) q (length table) (key.hash q)
            ≡ look (at blank table) q (length table) (key.hash q)
        same_walk =
            look-alike (at blank table) (at blank (written table i slot)) q (length table)
              (key.hash q) (key.hash q + length table) refl (λ x a b. holds-written q x old new)
              kept
