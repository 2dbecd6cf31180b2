-- ===== src/HashMap/Open/Rehash.antt =====
-- HFT/HashMap.hpp, class OpenAddressingHashMap: `insert`, whose load test may call `reHash`.
use native.Mathlib.Nat.{mod-lt}
use git_docs_test.Common.{
  ℕ, zero, suc, ◌+◌, ◌-◌, ◌*◌, ◌%◌, ◌^◌, ◌<◌, ◌≤◌, ◌≡◌, refl, sym, ap, ◌∙◌, Bool, true, false, ◌||◌,
  Option, none, some, if◌then◌else◌, List, [], ◌∷◌, get_or, length, replicate, length-replicate,
  Bool-cases, inl, inr, ok, ◌>>=◌, Returns, IsPowerOfTwo, mask_of_power, arith,
}
use git_docs_test.HashMap.Key.{Key, ◌=?◌}
use git_docs_test.HashMap.Contract.{is_some}
use git_docs_test.HashMap.Load.{Load}
use git_docs_test.HashMap.Probe.{Status, empty, occupied, deleted, Slot, holds, is_occupied}
use git_docs_test.HashMap.Probe.Walk.{at}
use git_docs_test.HashMap.Probe.Lookup.{lookup}
use git_docs_test.HashMap.Probe.Room.{one_if_occupied, elements}
use git_docs_test.HashMap.Probe.Occurs.{occurs}
use git_docs_test.HashMap.Open.Defs.{Open, fresh, put, refill, insert_in}
use git_docs_test.HashMap.Open.Laws.{IsValid, HasPut, put-HasPut}

free_status :
    (t : Status) (a : Bool)
    → (elim t [ empty ↦ false | occupied ↦ true | deleted ↦ false ]) ≡ false
    → (elim t [ empty ↦ false | occupied ↦ a | deleted ↦ false ]) ≡ false
free_status empty a h = refl
free_status occupied a h = cc
free_status deleted a h = refl

taken_status :
    (t : Status) (a : Bool)
    → (elim t [ empty ↦ false | occupied ↦ true | deleted ↦ false ]) ≡ true
    → (elim t [ empty ↦ false | occupied ↦ a | deleted ↦ false ]) ≡ a
taken_status empty a h = cc
taken_status occupied a h = refl
taken_status deleted a h = cc

-- An element is found after it is put first and others after it.
kept_both :
    (same holding later before after : Bool)
    → holding ≡ same
    → (same ≡ true → after ≡ true)
    → (same ≡ false → after ≡ before)
    → (later || after) ≡ ((holding || later) || before)
kept_both same holding later before after e h h' = ground (arith, h, h')

-- the first value that is there
abbrev pub either : {A : Type 0} → Option A → Option A → Option A
either none b = b
either (some a) b = some a

pub either-none : {A : Type 0} (a : Option A) → either a none ≡ a
either-none none = refl
either-none (some a) = refl

-- An element that is put first gives its value, where no later one does.
value_both :
    {A : Type 0} (same holding : Bool) (v : A) (later before after : Option A)
    → holding ≡ same
    → (same ≡ true → after ≡ some v)
    → (same ≡ false → after ≡ before)
    → either later after ≡ either (either later (if holding then some v else none)) before
value_both same holding v (some a) before after e h h' = refl
value_both true holding v none before after e h h' = rw e (h refl)
value_both false holding v none before after e h h' = rw e (h' refl)

module _ {K V : Type 0} ⦃key : Key K⦄ where
  -- the value of the last slot with the key
  abbrev pub last_value : K → List (Slot K V) → Option V
  last_value q [] = none
  last_value q (s ∷ table) = either (last_value q table) (if holds q s then some s.value else none)

  holds_free : (q : K) (s : Slot K V) → is_occupied s ≡ false → holds q s ≡ false
  holds_free q s h = free_status s.status (s.key =? q) h

  pub elements-le : (table : List (Slot K V)) → elements table ≤ length table
  elements-le [] = omega arith
  elements-le (s ∷ t) = elim (Bool-cases (is_occupied s)) [
    | inl e ↦ rw e (omega (arith, elements-le t))
    | inr e ↦ rw e (omega (arith, elements-le t))
  ]

module _ {K V : Type 0} ⦃key : Key K⦄ (load : Load) (blank : Slot K V) where
  abbrev vacant : Slot K V
  vacant = record blank { status = empty }

  elements-vacant : (n : ℕ) → elements (replicate n vacant) ≡ 0
  elements-vacant zero = refl
  elements-vacant (suc n) = omega (arith, elements-vacant n)

  occurs-vacant : (n : ℕ) (q : K) → occurs q (replicate n vacant) ≡ false
  occurs-vacant zero q = refl
  occurs-vacant (suc n) q = occurs-vacant n q

  get_or-vacant : (n i : ℕ) → i < n → get_or (replicate n vacant) i blank ≡ vacant
  get_or-vacant zero i h = absurd (omega arith)
  get_or-vacant (suc n) zero h = refl
  get_or-vacant (suc n) (suc i) h = get_or-vacant n i (omega arith)

  at-vacant : (n y : ℕ) → 0 < n → at blank (replicate n vacant) y ≡ vacant
  at-vacant n y h =
      ap (λ k. get_or (replicate n vacant) (y % k) blank) (length-replicate n vacant)
      ∙ get_or-vacant n (y % n) (mod-lt y h)

  -- the empty map of `reHash` and of the constructor
  abbrev pub made : ℕ → Open K V
  made n = record { table = fresh load blank n; size = 0; mask = (n + 2 ^ 64 - 1) % 2 ^ 64 }

  pub made-IsValid : (n : ℕ) → IsPowerOfTwo n → n < 2 ^ 64 → IsValid load blank (made n)
  unfolding fresh
  made-IsValid n power small = record {
    power = rw length-replicate power;
    small = rw length-replicate small;
    masked = rw length-replicate (omega (arith, (mask_of_power n power).0));
    counted = sym (elements-vacant n);
    whole = λ q x y a lt b hit.
        let clash : true ≡ false =
          sym hit ∙ ap (holds q) (at-vacant n y (mask_of_power n power).0) in
        cc;
  }

  pub occurs-made : (n : ℕ) (q : K) → occurs q (made n).table ≡ false
  unfolding fresh
  occurs-made n q = occurs-vacant n q

  pub length-made : (n : ℕ) → length (made n).table ≡ n
  unfolding fresh
  length-made n = length-replicate n vacant

  -- A call within `reHash` does not call `reHash`.
  insert_in-put :
      (m : Open K V) (k : K) (v : V)
      → load.exceeds (m.size + 1) (length m.table) ≡ false
      → insert_in load blank 1 m k v ≡ put load blank m k v
  unfolding insert_in
  insert_in-put m k v e = rw e refl

  refill_nil : (m : Open K V) → refill load blank (insert_in load blank 1) [] m ≡ ok m
  unfolding refill
  refill_nil m = refl

  -- The map after the elements of `slots` were inserted again.
  pub record HasRefilled (n : ℕ) (slots : List (Slot K V)) (m m' : Open K V) : Type 0 where
    pub valid : IsValid load blank m'
    pub same_slots : length m'.table ≡ 2 * n
    pub bounded : m'.size ≤ m.size + elements slots
    pub kept :
        (q : K)
        → is_some (lookup blank m'.table q) ≡ (occurs q slots || is_some (lookup blank m.table q))
    pub values :
        (q : K) → lookup blank m'.table q ≡ either (last_value q slots) (lookup blank m.table q)

  refill_free :
      (n : ℕ) (s : Slot K V) (slots : List (Slot K V)) (m : Open K V)
      → is_occupied s ≡ false
      → Returns (refill load blank (insert_in load blank 1) slots m) (HasRefilled n slots m)
      → Returns
          (refill load blank (insert_in load blank 1) (s ∷ slots) m)
          (HasRefilled n (s ∷ slots) m)
  unfolding refill
  refill_free n s slots m free (m', e, r) = rw free (
    m',
    e,
    record {
      valid = r.valid;
      same_slots = r.same_slots;
      bounded = omega (arith, r.bounded);
      kept = λ q.
          r.kept q
          ∙ ap (λ b. (b || occurs q slots) || is_some (lookup blank m.table q))
              (sym (holds_free q s free));
      values = λ q.
          r.values q
          ∙ ap (λ l. either l (lookup blank m.table q))
              (sym (either-none (last_value q slots))
                ∙ ap (λ b. either (last_value q slots) (if b then some s.value else none))
                    (sym (holds_free q s free)));
    },
  )

  refill_taken :
      (n : ℕ) (s : Slot K V) (slots : List (Slot K V)) (m m₁ : Open K V)
      → is_occupied s ≡ true
      → insert_in load blank 1 m s.key s.value ≡ ok m₁
      → HasPut load blank m s.key s.value m₁
      → Returns (refill load blank (insert_in load blank 1) slots m₁) (HasRefilled n slots m₁)
      → Returns
          (refill load blank (insert_in load blank 1) (s ∷ slots) m)
          (HasRefilled n (s ∷ slots) m)
  unfolding refill
  refill_taken n s slots m m₁ occ e₁ p (m', e, r) = (
    m',
    rw occ (ap (λ i. i >>= λ m'. refill load blank (insert_in load blank 1) slots m') e₁ ∙ e),
    record {
      valid = r.valid;
      same_slots = r.same_slots;
      bounded =
          let one : one_if_occupied s ≡ 1 = rw occ refl in omega (arith, r.bounded, p.bounded);
      kept = λ q.
          r.kept q
          ∙ kept_both (s.key =? q) (holds q s) (occurs q slots) (is_some (lookup blank m.table q))
              (is_some (lookup blank m₁.table q)) (taken_status s.status (s.key =? q) occ)
              (λ same.
                ap (λ k. is_some (lookup blank m₁.table k)) (sym ((key.equal_iff s.key q).0 same))
                ∙ ap is_some p.own)
              (λ other. ap is_some (p.others q other));
      values = λ q.
          r.values q
          ∙ value_both (s.key =? q) (holds q s) s.value (last_value q slots)
              (lookup blank m.table q) (lookup blank m₁.table q)
              (taken_status s.status (s.key =? q) occ)
              (λ same.
                ap (λ k. lookup blank m₁.table k) (sym ((key.equal_iff s.key q).0 same)) ∙ p.own)
              (λ other. p.others q other);
    },
  )

  pub refill-HasRefilled :
      (n : ℕ) (slots : List (Slot K V)) (m : Open K V)
      → IsValid load blank m
      → length m.table ≡ 2 * n
      → m.size + elements slots ≤ n
      → Returns (refill load blank (insert_in load blank 1) slots m) (HasRefilled n slots m)
  refill-HasRefilled n [] m valid same few = (
    m,
    refill_nil m,
    record {
      valid = valid;
      same_slots = same;
      bounded = omega arith;
      kept = λ q. refl;
      values = λ q. refl;
    },
  )
  refill-HasRefilled n (s ∷ slots) m valid same few = elim (Bool-cases (is_occupied s)) [
    | inr free ↦
        refill_free n s slots m free (refill-HasRefilled n slots m valid same (omega (arith, few)))
    | inl occ ↦
        let one : one_if_occupied s ≡ 1 = rw occ refl in
        let (m₁, e, p) = put-HasPut load blank m s.key s.value valid (omega arith) in
        let wide : load.exceeds (m.size + 1) (length m.table) ≡ false =
          ap (load.exceeds (m.size + 1)) same ∙ load.doubled (m.size + 1) n (omega arith) in
        refill_taken n s slots m m₁ occ (insert_in-put m s.key s.value wide ∙ e) p
          (refill-HasRefilled n slots m₁ p.valid (p.same_slots ∙ same) (omega (arith, p.bounded)))
  ]
