-- ===== src/HashMap/Open/Ready.antt =====
-- HFT/HashMap.hpp, class OpenAddressingHashMap: the map that `insert` writes to, behind its test of
-- the load and `reHash`.
use native.Mathlib.Nat.{pow-suc}
use git_docs_test.Common.{
  ℕ, suc, ◌+◌, ◌*◌, ◌%◌, ◌^◌, ◌<◌, ◌≡◌, refl, sym, ap, ◌∙◌, Bool, true, false, ◌||◌, Option, none,
  some, length, if◌then◌else◌, Bool-cases, inl, inr, ok, Returns, arith,
}
use git_docs_test.HashMap.Key.{Key}
use git_docs_test.HashMap.Contract.{is_some}
use git_docs_test.HashMap.Load.{Load}
use git_docs_test.HashMap.Probe.{Slot}
use git_docs_test.HashMap.Probe.Lookup.{lookup}
use git_docs_test.HashMap.Probe.Occurs.{occurs, lookup-occurs}
use git_docs_test.HashMap.Open.Defs.{Open, refill, rehash, insert_in}
use git_docs_test.HashMap.Open.Laws.{IsValid, walkable}
use git_docs_test.HashMap.Open.Rehash.{
  either, either-none, last_value, elements-le, made, made-IsValid, occurs-made, length-made,
  refill-HasRefilled,
}

no_value : {A : Type 0} (a : Option A) → is_some a ≡ false → a ≡ none
no_value none h = refl
no_value (some a) h = cc

only_left : (a b : Bool) → b ≡ false → (a || b) ≡ a
only_left a b h = ground arith

module _ {K V : Type 0} ⦃key : Key K⦄ (load : Load) (blank : Slot K V) where
  -- what the map before gives for a key, when the load test of `insert` was done: after `reHash`, of
  -- the elements with the key the last one is left.
  abbrev pub held_before : Open K V → K → Option V
  held_before m q =
      if load.exceeds (m.size + 1) (length m.table)
      then last_value q m.table
      else lookup blank m.table q

  -- as many slots as the table has after the load test
  abbrev pub slots_after : Open K V → ℕ
  slots_after m =
      if load.exceeds (m.size + 1) (length m.table) then 2 * length m.table else length m.table

  -- The map that `insert` writes to: it has room, and the elements of the map before.
  pub record IsReady (m m₁ : Open K V) : Type 0 where
    pub valid : IsValid load blank m₁
    pub room : m₁.size < length m₁.table
    pub kept : (q : K) → is_some (lookup blank m₁.table q) ≡ is_some (lookup blank m.table q)
    pub same_slots : length m₁.table ≡ slots_after m
    pub values : (q : K) → lookup blank m₁.table q ≡ held_before m q

  rehash_run :
      (m : Open K V)
      → length m.table * 2 < 2 ^ 64
      → rehash load blank (insert_in load blank 1) m
        ≡ refill load blank (insert_in load blank 1) m.table (made load blank (2 * length m.table))
  unfolding rehash
  rehash_run m small =
      ap (λ n. refill load blank (insert_in load blank 1) m.table (made load blank n))
        {x = length m.table * 2 % 2 ^ 64} {y = 2 * length m.table} (omega arith)

  nothing_made :
      (n : ℕ) (q : K)
      → IsValid load blank (made load blank n)
      → lookup blank (made load blank n).table q ≡ none
  nothing_made n q valid = no_value (lookup blank (made load blank n).table q) (
      lookup-occurs blank (made load blank n).table q
        (walkable load blank (made load blank n) valid).some_slot valid.whole
      ∙ occurs-made load blank n q)

  rehash-IsReady :
      (m : Open K V)
      → IsValid load blank m
      → length m.table * 2 < 2 ^ 64
      → load.exceeds (m.size + 1) (length m.table) ≡ true
      → Returns (rehash load blank (insert_in load blank 1) m) (IsReady m)
  rehash-IsReady m valid small full =
      let n = length m.table in
      let (e, p) = valid.power in
      let start =
        made-IsValid load blank (2 * n) (suc e, omega (arith, p, pow-suc 2 e)) (omega arith) in
      let (m₁, run, r) =
        refill-HasRefilled load blank n m.table (made load blank (2 * n)) start
          (length-made load blank (2 * n)) (omega (arith, elements-le m.table)) in
      (
        m₁,
        rehash_run m small ∙ run,
        record {
          valid = r.valid;
          room = omega (
            arith,
            r.bounded,
            r.same_slots,
            elements-le m.table,
            (walkable load blank m valid).some_slot,
          );
          kept = λ q.
              r.kept q
              ∙ only_left (occurs q m.table)
                  (is_some (lookup blank (made load blank (2 * n)).table q))
                  (lookup-occurs blank (made load blank (2 * n)).table q
                      (walkable load blank (made load blank (2 * n)) start).some_slot start.whole
                    ∙ occurs-made load blank (2 * n) q)
              ∙ sym (
                  lookup-occurs blank m.table q (walkable load blank m valid).some_slot
                    valid.whole);
          same_slots = rw full r.same_slots;
          values = λ q. rw full (
              r.values q
              ∙ ap (either (last_value q m.table)) (nothing_made (2 * n) q start)
              ∙ either-none (last_value q m.table));
        },
      )

  pub ready :
      (m : Open K V)
      → IsValid load blank m
      → length m.table * 2 < 2 ^ 64
      → Returns
          (if load.exceeds (m.size + 1) (length m.table)
            then rehash load blank (insert_in load blank 1) m
            else ok m)
          (IsReady m)
  ready m valid small = elim (Bool-cases (load.exceeds (m.size + 1) (length m.table))) [
    | inl full ↦ rw full (rehash-IsReady m valid small full)
    | inr fits ↦ rw fits (
      m,
      refl,
      record {
        valid = valid;
        room = omega (arith, load.fits (m.size + 1) (length m.table) fits);
        kept = λ q. refl;
        same_slots = rw fits refl;
        values = λ q. rw fits refl;
      },
    )
  ]
