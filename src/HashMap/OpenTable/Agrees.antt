-- ===== src/HashMap/OpenTable/Agrees.antt =====
-- c++20/HashTables.cpp, class OpenAddressingHashTable, against the class OpenAddressingHashMap of
-- HFT/HashMap.hpp, whose mask does what the remainder does.
use native.Mathlib.Nat.{pow-suc, mod-eq_of_lt}
use native.Mathlib.Decide.{dec_lt}
use git_docs_test.Common.{
  ℕ, zero, suc, ◌+◌, ◌-◌, ◌*◌, ◌%◌, ◌^◌, ◌<◌, ◌≡◌, refl, sym, subst, List, [], ◌∷◌, ◌⊎◌, inl, inr,
  length, length-replicate, if◌then◌else◌, Bool-cases, Result, ok, ◌>>=◌, Ensures-undefined,
  IsPowerOfTwo, power_half, arith,
}
use git_docs_test.HashMap.Key.{Key}
use git_docs_test.HashMap.Load.{Load}
use git_docs_test.HashMap.Probe.{empty, Slot, is_occupied}
use git_docs_test.HashMap.Open.Defs.{Open, fresh}
use git_docs_test.HashMap.Open.Defs
use git_docs_test.HashMap.OpenTable.{
  OpenTable, contains, find, remove, put, refill, rehash, insert_in, insert,
}
use git_docs_test.HashMap.OpenTable.Alike.{
  to_map, answer, IsSized, Alike, Alike-bind, Alike-ok, locate-to_map, put_run, erase-to_map,
}

module _ {K V : Type 0} ⦃key : Key K⦄ (load : Load) (blank : Slot K V) where
  -- The loops of `reHash`, and `insert` on every depth.
  refill_run :
      (f : OpenTable K V → K → V → Result (OpenTable K V))
      (g : Open K V → K → V → Result (Open K V))
      → ((t : OpenTable K V) (k : K) (v : V) → IsSized t → Alike (f t k v) (g (to_map t) k v))
      → (slots : List (Slot K V)) (t : OpenTable K V) → IsSized t
      → Alike (refill load blank f slots t) (Defs.refill load blank g slots (to_map t))
  unfolding refill Defs.refill
  refill_run f g h [] t z = Alike-ok t z
  refill_run f g h (s ∷ slots) t z = elim (Bool-cases (is_occupied s)) [
    | inl e ↦ rw e (
        Alike-bind (f t s.key s.value) (g (to_map t) s.key s.value) _ _ (h t s.key s.value z)
          (refill_run f g h slots))
    | inr e ↦ rw e (refill_run f g h slots t z)
  ]

  double :
      (n : ℕ)
      → (n ≡ 0) ⊎ (IsPowerOfTwo n × n < 2 ^ 64)
      → (n * 2 % 2 ^ 64 ≡ 0) ⊎ (IsPowerOfTwo (n * 2 % 2 ^ 64) × n * 2 % 2 ^ 64 < 2 ^ 64)
  double n (inl e) = inl (omega arith)
  double n (inr ((e, p), lt)) = elim (dec_lt (n * 2) (2 ^ 64)) [
    | yes fits ↦ inr (
        subst (λ m. IsPowerOfTwo m × m < 2 ^ 64) (sym (mod-eq_of_lt fits))
          ((suc e, omega (arith, p, pow-suc 2 e)), fits))
    | no over ↦ inl (let half = power_half n (e, p) lt in omega arith)
  ]

  rehash_run :
      (f : OpenTable K V → K → V → Result (OpenTable K V))
      (g : Open K V → K → V → Result (Open K V))
      → ((t : OpenTable K V) (k : K) (v : V) → IsSized t → Alike (f t k v) (g (to_map t) k v))
      → (t : OpenTable K V) → IsSized t
      → Alike (rehash load blank f t) (Defs.rehash load blank g (to_map t))
  unfolding rehash Defs.rehash fresh
  rehash_run f g h t z =
      let n = length t.table * 2 % 2 ^ 64 in
      let l = length-replicate n (record blank { status = empty }) in
      let r =
        refill_run f g h t.table (record { table = fresh load blank n; size = 0 })
          (record { sized = rw l (double (length t.table) z.sized) }) in
      subst
        (λ x.
          Alike (refill load blank f t.table (record { table = fresh load blank n; size = 0 })) (
            Defs.refill load blank g t.table
              (record { table = fresh load blank n; size = 0; mask = (x + 2 ^ 64 - 1) % 2 ^ 64 })))
        l r

  insert_in_run :
      (depth : ℕ) (t : OpenTable K V) (k : K) (v : V)
      → IsSized t
      → Alike (insert_in load blank depth t k v) (Defs.insert_in load blank depth (to_map t) k v)
  unfolding insert_in Defs.insert_in
  insert_in_run zero t k v z = record { same = refl; kept = Ensures-undefined }
  insert_in_run (suc depth) t k v z =
      Alike-bind
        (if load.exceeds (t.size + 1) (length t.table)
          then rehash load blank (insert_in load blank depth) t
          else ok t)
        (if load.exceeds (t.size + 1) (length t.table)
          then Defs.rehash load blank (Defs.insert_in load blank depth) (to_map t)
          else ok (to_map t))
        (λ t'. put load blank t' k v) (λ m'. Defs.put load blank m' k v)
        (elim (Bool-cases (load.exceeds (t.size + 1) (length t.table))) [
          | inl e ↦ rw e (rehash_run _ _ (insert_in_run depth) t z)
          | inr e ↦ rw e (Alike-ok t z)
        ])
        (λ t' z'. put_run load blank t' k v z')

  -- On a table without slots, or with a power of two of them, every operation does what
  -- OpenAddressingHashMap does with the same slots.
  pub open_table_map :
      (t : OpenTable K V) (k : K) (v : V)
      → IsSized t
      → (Defs.insert load blank (to_map t) k v ≡ (insert load blank t k v >>= λ t'. ok (to_map t')))
        × (Defs.erase load blank (to_map t) k ≡ (remove load blank t k >>= λ r. ok (answer r)))
        × (Defs.find load blank (to_map t) k ≡ find load blank t k)
        × (Defs.contains load blank (to_map t) k ≡ contains load blank t k)
  unfolding insert Defs.insert remove Defs.erase find Defs.find contains Defs.contains
  open_table_map t k v z =
      let e = locate-to_map load blank t k z in
      ((insert_in_run 2 t k v z).same, erase-to_map load blank t k z, rw e refl, rw e refl)
