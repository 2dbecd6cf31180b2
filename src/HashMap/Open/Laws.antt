-- ===== src/HashMap/Open/Laws.antt =====
-- HFT/HashMap.hpp, class OpenAddressingHashMap: what its methods do on a map that is in order.
use git_docs_test.Common.{
  ℕ, ◌+◌, ◌-◌, ◌%◌, ◌^◌, ◌<◌, ◌≤◌, ◌≡◌, refl, sym, ap, ◌∙◌, Bool, true, false, Option, none, some,
  List, length, if◌then◌else◌, ok, ◌>>=◌, Returns, IsPowerOfTwo, mask_of_power, bit_and-power,
  arith,
}
use git_docs_test.HashMap.Key.{Key, ◌=?◌}
use git_docs_test.HashMap.Contract.{is_some}
use git_docs_test.HashMap.Load.{Load}
use git_docs_test.HashMap.Probe.{Slot, value_of}
use git_docs_test.HashMap.Probe.Walk.{index_of}
use git_docs_test.HashMap.Probe.Lookup.{lookup, Unbroken}
use git_docs_test.HashMap.Probe.Room.{elements}
use git_docs_test.HashMap.Probe.Store.{IsWalkable, HasStored, store_lem}
use git_docs_test.HashMap.Probe.Find.{walk, search-walk, value_of-walk, is_some-walk}
use git_docs_test.HashMap.Open.Defs.{Open, get_hash, wrap, locate, contains, find, put}

size_after :
    (added : Bool) (size before after : ℕ)
    → size ≡ before
    → after ≡ before + (if added then 1 else 0)
    → size + 1 < 2 ^ 64
    → (if added then (size + 1) % 2 ^ 64 else size) ≡ after
size_after true size before after e e' lt = omega arith
size_after false size before after e e' lt = omega arith

size_bound : (added : Bool) (size : ℕ) → (if added then (size + 1) % 2 ^ 64 else size) ≤ size + 1
size_bound true size = omega arith
size_bound false size = omega arith

module _ {K V : Type 0} ⦃key : Key K⦄ (load : Load) (blank : Slot K V) where
  pub record IsValid (m : Open K V) : Type 0 where
    pub power : IsPowerOfTwo (length m.table)
    pub small : length m.table < 2 ^ 64
    pub masked : m.mask ≡ length m.table - 1
    pub counted : m.size ≡ elements m.table
    pub whole : Unbroken blank m.table

  pub walkable : (m : Open K V) → IsValid m → IsWalkable blank (wrap load blank m) m.table
  walkable m v = record {
    some_slot = (mask_of_power (length m.table) v.power).0;
    small = v.small;
    wraps = λ i. rw v.masked (bit_and-power (length m.table) i v.power);
    whole = v.whole;
  }

  pub home :
      (m : Open K V) (k : K) → IsValid m → get_hash load blank m k ≡ key.hash k % length m.table
  unfolding get_hash
  home m k v = rw v.masked (bit_and-power (length m.table) (key.hash k) v.power)

  pub locate_lem :
      (m : Open K V) (k : K)
      → IsValid m
      → locate load blank m k ≡ ok (index_of (length m.table) (walk blank m.table k))
  unfolding locate
  locate_lem m k v =
      search-walk blank (wrap load blank m) m.table k (get_hash load blank m k) (walkable m v)
        (home m k v)

  -- `find` returns what the table maps the key to, and `contains` whether there is anything.
  pub find_lem :
      (m : Open K V) (k : K) → IsValid m → find load blank m k ≡ ok (lookup blank m.table k)
  unfolding find
  find_lem m k v =
      ap (λ l. l >>= λ found. ok (value_of m.table found)) (locate_lem m k v)
      ∙ ap (λ o. ok o) (value_of-walk blank m.table k (walkable m v).some_slot)

  -- The map after the key got the value.
  pub record HasPut (m : Open K V) (k : K) (v : V) (m' : Open K V) : Type 0 where
    pub valid : IsValid m'
    pub same_slots : length m'.table ≡ length m.table
    pub bounded : m'.size ≤ m.size + 1
    pub own : lookup blank m'.table k ≡ some v
    pub others : (q : K) → (k =? q) ≡ false → lookup blank m'.table q ≡ lookup blank m.table q

  stored :
      (m : Open K V) (k : K) (v : V) (added : Bool) (table : List (Slot K V))
      → IsValid m
      → m.size < length m.table
      → HasStored blank m.table k v added table
      → HasPut m k v
          (record m { table = table; size = if added then (m.size + 1) % 2 ^ 64 else m.size })
  stored m k v added table valid room s = record {
    valid = record {
      power = rw s.same_slots valid.power;
      small = rw s.same_slots valid.small;
      masked = rw s.same_slots valid.masked;
      counted =
          size_after added m.size (elements m.table) (elements table) valid.counted s.counted
            (omega (arith, room, valid.small));
      whole = s.whole;
    };
    same_slots = s.same_slots;
    bounded = size_bound added m.size;
    own = s.own;
    others = s.others;
  }

  pub put-HasPut :
      (m : Open K V) (k : K) (v : V)
      → IsValid m
      → m.size < length m.table
      → Returns (put load blank m k v) (HasPut m k v)
  unfolding put
  put-HasPut m k v valid room =
      let ((added, table), e, s) =
        store_lem blank (wrap load blank m) m.table k v (get_hash load blank m k) (walkable m valid)
          (home m k valid) (omega (arith, valid.counted)) in
      (
        record m { table = table; size = if added then (m.size + 1) % 2 ^ 64 else m.size },
        ap
            (λ r. r >>= λ (added, table).
              ok (record m {
                table = table;
                size = if added then (m.size + 1) % 2 ^ 64 else m.size;
              }))
            e,
        stored m k v added table valid room s,
      )

  found_some :
      (m : Open K V) (o : Option ℕ)
      → (elim (index_of (length m.table) o) [ none ↦ false | some index ↦ true ]) ≡ is_some o
  found_some m none = refl
  found_some m (some x) = refl

  pub contains_lem :
      (m : Open K V) (k : K)
      → IsValid m
      → contains load blank m k ≡ ok (is_some (lookup blank m.table k))
  unfolding contains
  contains_lem m k v =
      ap (λ l. l >>= λ found. ok (elim found [ none ↦ false | some index ↦ true ]))
        (locate_lem m k v)
      ∙ ap (λ b. ok b) (found_some m (walk blank m.table k) ∙ sym (is_some-walk blank m.table k))
