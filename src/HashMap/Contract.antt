-- ===== src/HashMap/Contract.antt =====
-- HFT/HashMap.hpp, concept MyHM and class HashMap: the operations of a map and the laws that
-- its clients rely on. A pointer or reference to a value is read and written through its key:
-- `find` gives the value behind the pointer that the source returns, `read_at` and `assign_at`
-- are `operator[]` on the right and on the left of an assignment.
use git_docs_test.Common.{
  Bool, true, false, Option, none, some, ◌≡◌, ◌≢◌, if◌then◌else◌, Result, ok, undefined,
}
use git_docs_test.HashMap.Key.{Key, ◌=?◌}

abbrev pub is_some {ℓ} : {A : Type ℓ} → Option A → Bool
is_some none = false
is_some (some a) = true

pub record HashMap (K V : Type 0) ⦃key : Key K⦄ : Type 1 where
  pub State : Type 0
  pub IsValid : State → Type 0
  pub find : State → K → Option V
  pub contains : State → K → Bool
  pub read_at : State → K → Result (V × State)
  pub assign_at : State → K → V → Result State
  pub erase : State → K → Bool × State
  pub contains-find : (m : State) (k : K) → IsValid m → contains m k ≡ is_some (find m k)
  pub read_at-find :
      (m : State) (k : K) (v : V) → IsValid m → find m k ≡ some v → read_at m k ≡ ok (v, m)
  pub assign_at-find :
      (m m' : State) (k q : K) (v : V)
      → IsValid m
      → assign_at m k v ≡ ok m'
      → find m' q ≡ (if k =? q then some v else find m q)
  pub assign_at-IsValid :
      (m m' : State) (k : K) (v : V) → IsValid m → assign_at m k v ≡ ok m' → IsValid m'
  pub assign_at-defined : (m : State) (k : K) (v : V) → IsValid m → assign_at m k v ≢ undefined
  pub erase-find :
      (m : State) (k q : K) → IsValid m → find (erase m k).1 q ≡ (if k =? q then none else find m q)
  pub erase-IsValid : (m : State) (k : K) → IsValid m → IsValid (erase m k).1
  pub erase-found : (m : State) (k : K) → IsValid m → (erase m k).0 ≡ is_some (find m k)
