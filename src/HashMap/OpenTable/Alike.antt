-- ===== src/HashMap/OpenTable/Alike.antt =====
-- c++20/HashTables.cpp, class OpenAddressingHashTable: the operations that do not call `reHash`, and
-- OpenAddressingHashMap.
use git_docs_test.Common.{
  ℕ, ◌+◌, ◌-◌, ◌%◌, ◌^◌, ◌<◌, ◌≡◌, refl, ap, fun_ext, ◌∙◌, Bool, true, false, Option, none, some,
  List, ◌⊎◌, inl, inr, get_elem?, length, length-set, if◌then◌else◌, Bool-cases, Option-cases,
  Result, ok, throws, undefined, ◌>>=◌, Ensures, Ensures-bind, Ensures-ok, Ensures-undefined,
  Ensures-throws, IsPowerOfTwo, mask_of_power, bit_and-power, arith,
}
use git_docs_test.HashMap.Key.{Key}
use git_docs_test.HashMap.Load.{Load}
use git_docs_test.HashMap.Probe.{
  deleted, Slot, is_occupied, search, place, write_at, store, mark_deleted,
}
use git_docs_test.HashMap.Open.Defs.{Open, fresh}
use git_docs_test.HashMap.Open.Defs
use git_docs_test.HashMap.OpenTable.{OpenTable, get_hash, wrap, locate, remove, put}

module _ {K V : Type 0} ⦃key : Key K⦄ where
  -- the map with the slots of the table
  abbrev pub to_map : OpenTable K V → Open K V
  to_map t = record {
    table = t.table;
    size = t.size;
    mask = (length t.table + 2 ^ 64 - 1) % 2 ^ 64;
  }

  abbrev pub answer : Bool × OpenTable K V → Bool × Open K V
  answer (b, t) = (b, to_map t)

  -- no slots, or a power of two that fits a `size_t`
  pub record IsSized (t : OpenTable K V) : Type 0 where
    pub sized : (length t.table ≡ 0) ⊎ (IsPowerOfTwo (length t.table) × length t.table < 2 ^ 64)

  -- The two calls do the same, and a table that is returned has a size that a mask fits.
  pub record Alike (r : Result (OpenTable K V)) (s : Result (Open K V)) : Type 0 where
    pub same : s ≡ (r >>= λ t. ok (to_map t))
    pub kept : Ensures r IsSized

  pub Alike-bind :
      (r : Result (OpenTable K V)) (s : Result (Open K V))
      (f : OpenTable K V → Result (OpenTable K V)) (g : Open K V → Result (Open K V))
      → Alike r s
      → ((t : OpenTable K V) → IsSized t → Alike (f t) (g (to_map t)))
      → Alike (r >>= f) (s >>= g)
  Alike-bind undefined s f g a h = record {
    same = ap (λ s. s >>= g) a.same;
    kept = Ensures-undefined;
  }
  Alike-bind (throws e) s f g a h = record {
    same = ap (λ s. s >>= g) a.same;
    kept = Ensures-throws;
  }
  Alike-bind (ok t) s f g a h =
      let b = h t (a.kept.holds t refl) in
      record { same = ap (λ s. s >>= g) a.same ∙ b.same; kept = b.kept }

  pub Alike-ok : (t : OpenTable K V) → IsSized t → Alike (ok t) (ok (to_map t))
  Alike-ok t z = record { same = refl; kept = Ensures-ok z }

-- A write keeps the number of the slots.
module _ {K V : Type 0} ⦃key : Key K⦄ (w : ℕ → ℕ) (table : List (Slot K V)) (k : K) (v : V) where
  length-write_at :
      (i : ℕ) → Ensures (write_at w table k v i) (λ (added, table'). length table' ≡ length table)
  unfolding write_at
  length-write_at i = elim (Option-cases (get_elem? table i)) [
    | inl missing ↦ rw (missing, write_at) Ensures-undefined
    | inr (s, found) ↦ elim (Bool-cases (is_occupied s)) [
      | inl e ↦ rw (found, write_at, e) (Ensures-ok (length-set table i _))
      | inr e ↦ rw (found, write_at, e) (Ensures-ok (length-set table i _))
    ]
  ]

  length-store :
      (i : ℕ) → Ensures (store w table k v i) (λ (added, table'). length table' ≡ length table)
  unfolding store
  length-store i = Ensures-bind (place w table k (length table) i) (λ x e. length-write_at x)

module _ {K V : Type 0} ⦃key : Key K⦄ (load : Load) (blank : Slot K V) where
  mask_lem : (n : ℕ) → IsPowerOfTwo n → n < 2 ^ 64 → (n + 2 ^ 64 - 1) % 2 ^ 64 ≡ n - 1
  mask_lem n p lt = omega (arith, (mask_of_power n p).0)

  wrap-to_map :
      (t : OpenTable K V)
      → IsPowerOfTwo (length t.table)
      → length t.table < 2 ^ 64
      → Defs.wrap load blank (to_map t) ≡ wrap load blank t
  wrap-to_map t p lt =
      fun_ext (λ i. rw (mask_lem (length t.table) p lt) (bit_and-power (length t.table) i p))

  get_hash-to_map :
      (t : OpenTable K V) (k : K)
      → IsPowerOfTwo (length t.table)
      → length t.table < 2 ^ 64
      → get_hash load blank t k ≡ ok (Defs.get_hash load blank (to_map t) k)
  unfolding get_hash Defs.get_hash
  get_hash-to_map t k p lt =
      rw (mask_lem (length t.table) p lt, bit_and-power (length t.table) (key.hash k) p)
        (ground (arith, (mask_of_power (length t.table) p).0))

  get_hash-none :
      (t : OpenTable K V) (k : K) → length t.table ≡ 0 → get_hash load blank t k ≡ undefined
  unfolding get_hash
  get_hash-none t k e = rw e refl

  -- The two searches do the same.
  pub locate-to_map :
      (t : OpenTable K V) (k : K)
      → IsSized t
      → Defs.locate load blank (to_map t) k ≡ locate load blank t k
  unfolding locate Defs.locate search
  locate-to_map t k z = elim z.sized [
    | inl e ↦ rw (get_hash-none t k e, e) refl
    | inr (p, lt) ↦ rw (get_hash-to_map t k p lt) (
        ap
          (λ w.
            search w t.table k (length t.table) (Defs.get_hash load blank (to_map t) k)
              (Defs.get_hash load blank (to_map t) k))
          (wrap-to_map t p lt))
  ]

  finish :
      (t : OpenTable K V) (r : Result (Bool × List (Slot K V)))
      → IsSized t
      → Ensures r (λ (added, table). length table ≡ length t.table)
      → Alike
          (r >>= λ (added, table).
            ok (record { table = table; size = if added then (t.size + 1) % 2 ^ 64 else t.size }))
          (r >>= λ (added, table). ok (record (to_map t) {
            table = table;
            size = if added then (t.size + 1) % 2 ^ 64 else t.size;
          }))
  finish t undefined z e = record { same = refl; kept = Ensures-undefined }
  finish t (throws x) z e = record { same = refl; kept = Ensures-throws }
  finish t (ok (added, table)) z e =
      let l = e.holds (added, table) refl in
      record { same = rw l refl; kept = Ensures-ok (record { sized = rw l z.sized }) }

  pub put_run :
      (t : OpenTable K V) (k : K) (v : V)
      → IsSized t
      → Alike (put load blank t k v) (Defs.put load blank (to_map t) k v)
  unfolding put Defs.put store place
  put_run t k v z = elim z.sized [
    | inl e ↦ rw (get_hash-none t k e, e) record { same = refl; kept = Ensures-undefined }
    | inr (p, lt) ↦
        rw (get_hash-to_map t k p lt, wrap-to_map t p lt)
          (finish t (store (wrap load blank t) t.table k v (Defs.get_hash load blank (to_map t) k))
            z (length-store (wrap load blank t) t.table k v _))
  ]

  length-mark_deleted :
      (table : List (Slot K V)) (index : ℕ) → length (mark_deleted table index) ≡ length table
  unfolding mark_deleted
  length-mark_deleted table index = elim (Option-cases (get_elem? table index)) [
    | inl missing ↦ rw (missing, mark_deleted) refl
    | inr (s, found) ↦
        rw (found, mark_deleted) (length-set table index (record s { status = deleted }))
  ]

  pub erase-to_map :
      (t : OpenTable K V) (k : K)
      → IsSized t
      → Defs.erase load blank (to_map t) k ≡ (remove load blank t k >>= λ r. ok (answer r))
  unfolding remove Defs.erase
  erase-to_map t k z = rw (locate-to_map t k z) (after (locate load blank t k))
    where
      after :
          (r : Result (Option ℕ))
          → (r >>= λ found. ok (elim found [
            | none ↦ (false, to_map t)
            | some index ↦ (
              true,
              record (to_map t) {
                table = mark_deleted t.table index;
                size = (t.size + 2 ^ 64 - 1) % 2 ^ 64;
              },
            )
          ]))
            ≡ (r
                >>= (λ found. ok (elim found [
                  | none ↦ (false, t)
                  | some index ↦ (
                    true,
                    record {
                      table = mark_deleted t.table index;
                      size = (t.size + 2 ^ 64 - 1) % 2 ^ 64;
                    },
                  )
                ]))
                >>= (λ (r : Bool × OpenTable K V). ok (answer r)))
      after undefined = refl
      after (throws e) = refl
      after (ok none) = refl
      after (ok (some index)) = rw (length-mark_deleted t.table index) refl
