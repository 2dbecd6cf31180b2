-- ===== src/HashMap/Open/Inserts.antt =====
-- HFT/HashMap.hpp, class OpenAddressingHashMap: `insert` as a whole, and `erase`.
use git_docs_test.Common.{
  ℕ, ◌+◌, ◌-◌, ◌*◌, ◌%◌, ◌^◌, ◌<◌, ◌≡◌, refl, sym, ap, ◌∙◌, Bool, true, false, Option, none, some,
  length, if◌then◌else◌, Bool-cases, Option-cases, inl, inr, Result, ok, ◌>>=◌, Returns, arith,
}
use git_docs_test.HashMap.Key.{Key, ◌=?◌}
use git_docs_test.HashMap.Contract.{is_some}
use git_docs_test.HashMap.Load.{Load}
use git_docs_test.HashMap.Probe.{Slot, mark_deleted}
use git_docs_test.HashMap.Probe.Walk.{index_of}
use git_docs_test.HashMap.Probe.Lookup.{lookup}
use git_docs_test.HashMap.Probe.Find.{walk, is_some-walk, HasErased, mark_deleted-HasErased}
use git_docs_test.HashMap.Open.Defs.{
  Open, locate, contains, find, erase, put, rehash, insert_in, insert,
}
use git_docs_test.HashMap.Open.Laws.{
  IsValid, walkable, find_lem, contains_lem, locate_lem, HasPut, put-HasPut,
}
use git_docs_test.HashMap.Probe.Room.{copies}
use git_docs_test.HashMap.Open.Ready.{held_before, IsReady, ready}
use git_docs_test.HashMap.Open.Rehash.{last_value, elements-le}

choose :
    (same found : Bool) (call : Result Bool)
    → call ≡ ok found
    → ok (if same then true else found) ≡ (if same then ok true else call)
choose true found call e = refl
choose false found call e = sym e

by_test :
    {A : Type 0} (full : Bool) (a b : A) (call : Result A)
    → call ≡ ok b
    → ok (if full then a else b) ≡ (if full then ok a else call)
by_test true a b call e = refl
by_test false a b call e = sym e

module _ {K V : Type 0} ⦃key : Key K⦄ (load : Load) (blank : Slot K V) where
  insert_run :
      (m m₁ m₂ : Open K V) (k : K) (v : V)
      → (if load.exceeds (m.size + 1) (length m.table)
          then rehash load blank (insert_in load blank 1) m
          else ok m)
        ≡ ok m₁
      → put load blank m₁ k v ≡ ok m₂
      → insert load blank m k v ≡ ok m₂
  unfolding insert insert_in
  insert_run m m₁ m₂ k v e e' = ap (λ r. r >>= λ m'. put load blank m' k v) e ∙ e'

  found_after :
      (k q : K) (m m₁ m₂ : Open K V) (v : V)
      → HasPut load blank m₁ k v m₂
      → IsReady load blank m m₁
      → is_some (lookup blank m₂.table q)
        ≡ (if k =? q then true else is_some (lookup blank m.table q))
  found_after k q m m₁ m₂ v p r = elim (Bool-cases (k =? q)) [
    | inl same ↦ rw same (
        ap (λ x. is_some (lookup blank m₂.table x)) (sym ((key.equal_iff k q).0 same))
        ∙ ap is_some p.own)
    | inr other ↦ rw other (ap is_some (p.others q other) ∙ r.kept q)
  ]

  found_before :
      (m : Open K V) (q : K)
      → IsValid load blank m
      → ok (held_before load blank m q) ≡ (
          if load.exceeds (m.size + 1) (length m.table)
          then ok (last_value q m.table)
          else find load blank m q)
  found_before m q valid =
      by_test (load.exceeds (m.size + 1) (length m.table)) (last_value q m.table)
        (lookup blank m.table q) (find load blank m q) (find_lem load blank m q valid)

  -- On a map in order whose table can be doubled, `insert` returns a map in order. The table is
  -- doubled where the load test says so, and keeps its length otherwise. The key then has the value,
  -- and every other key the value that it had; after doubling, of several elements with that key
  -- the last one in the table. The map contains the key and what it contained.
  pub insert-IsValid :
      (m : Open K V) (k : K) (v : V)
      → IsValid load blank m
      → length m.table * 2 < 2 ^ 64
      → Returns (insert load blank m k v) (λ m'.
        IsValid load blank m'
        × (length m'.table ≡ (
            if load.exceeds (m.size + 1) (length m.table)
            then 2 * length m.table
            else length m.table))
        × ((q : K)
            → (k =? q) ≡ false
            → find load blank m' q ≡ (
                if load.exceeds (m.size + 1) (length m.table)
                then ok (last_value q m.table)
                else find load blank m q))
        × (find load blank m' k ≡ ok (some v))
        × ((q : K)
            → contains load blank m' q ≡ (if k =? q then ok true else contains load blank m q)))
  insert-IsValid m k v valid small =
      let (m₁, e₁, r) = ready load blank m valid small in
      let (m₂, e₂, p) = put-HasPut load blank m₁ k v r.valid r.room in
      (
        m₂,
        insert_run m m₁ m₂ k v e₁ e₂,
        (
          p.valid,
          p.same_slots ∙ r.same_slots,
          λ q ne.
              find_lem load blank m₂ q p.valid
              ∙ ap (λ o. ok o) (p.others q ne ∙ r.values q)
              ∙ found_before m q valid,
          find_lem load blank m₂ k p.valid ∙ ap (λ o. ok o) p.own,
          λ q.
              contains_lem load blank m₂ q p.valid
              ∙ ap (λ b. ok b) (found_after k q m m₁ m₂ v p r)
              ∙ choose (k =? q) (is_some (lookup blank m.table q)) (contains load blank m q)
                  (contains_lem load blank m q valid),
        ),
      )

  -- the map with a slot marked DELETED
  abbrev unset : Open K V → ℕ → Open K V
  unset m index = record m {
    table = mark_deleted m.table index;
    size = (m.size + 2 ^ 64 - 1) % 2 ^ 64;
  }

  erase_run :
      (m : Open K V) (k : K) (o : Option ℕ)
      → locate load blank m k ≡ ok o
      → erase load blank m k
        ≡ ok (elim o [ none ↦ (false, m) | some index ↦ (true, unset m index) ])
  unfolding erase
  erase_run m k o e =
      ap
        (λ l.
          l >>= λ found. ok (elim found [ none ↦ (false, m) | some index ↦ (true, unset m index) ]))
        e

  unset-IsValid :
      (m : Open K V) (k : K) (index : ℕ)
      → IsValid load blank m
      → HasErased blank m.table k (mark_deleted m.table index)
      → IsValid load blank (unset m index)
  unset-IsValid m k index v e = record {
    power = rw e.same_slots v.power;
    small = rw e.same_slots v.small;
    masked = rw e.same_slots v.masked;
    counted = omega (arith, e.counted, v.counted, elements-le m.table, v.small);
    whole = e.whole;
  }

  -- On a map in order, `erase` returns a map in order and whether the key was there. Where it was,
  -- one slot fewer has the key and the size is one less, else the slots with the key and the size
  -- stay. The other keys are mapped to what they were.
  pub erase-IsValid :
      (m : Open K V) (k : K)
      → IsValid load blank m
      → Returns (erase load blank m k) (λ (b, m').
        IsValid load blank m'
        × (contains load blank m k ≡ ok b)
        × (copies k m'.table + (if b then 1 else 0) ≡ copies k m.table)
        × (m'.size + (if b then 1 else 0) ≡ m.size)
        × ((q : K) → (k =? q) ≡ false → find load blank m' q ≡ find load blank m q))
  erase-IsValid m k v = elim (Option-cases (walk blank m.table k)) [
    | inl missing ↦ (
      (false, m),
      erase_run m k none
          (locate_lem load blank m k v ∙ ap (λ o. ok (index_of (length m.table) o)) missing),
      (
        v,
        contains_lem load blank m k v
            ∙ ap (λ b. ok b) (is_some-walk blank m.table k ∙ ap is_some missing),
        omega arith,
        omega arith,
        λ q ne. refl,
      ),
    )
    | inr (x, found) ↦
        let e = mark_deleted-HasErased blank _ m.table k x (walkable load blank m v) found in
        let v' = unset-IsValid m k (x % length m.table) v e in
        (
          (true, unset m (x % length m.table)),
          erase_run m k (some (x % length m.table))
              (locate_lem load blank m k v ∙ ap (λ o. ok (index_of (length m.table) o)) found),
          (
            v',
            contains_lem load blank m k v
                ∙ ap (λ b. ok b) (is_some-walk blank m.table k ∙ ap is_some found),
            e.one_less,
            omega (arith, v'.counted, e.counted, v.counted),
            λ q ne.
                find_lem load blank (unset m (x % length m.table)) q v'
                ∙ ap (λ o. ok o) (e.others q ne)
                ∙ sym (find_lem load blank m q v),
          ),
        )
  ]
