-- ===== src/Pool/Contract.antt =====
-- HFT/MemoryPool.hpp, concept MyPool: the operations of a pool of `n` messages, and what a pool
-- promises about its free messages, a list that `allocate` takes from and `deallocate` adds to.
-- A message is its index, and `none` is the null pointer.
use git_docs_test.Common.{
  ℕ, zero, suc, ◌<◌, ◌≡◌, ◌≢◌, Option, some, List, [], ◌∷◌, length, Result, ok, Returns,
}

-- All the messages of a pool of `n`, the one that is allocated first in front.
abbrev pub countdown : ℕ → List ℕ
countdown zero = []
countdown (suc n) = n ∷ countdown n

abbrev pub IsAbsent : ℕ → List ℕ → Type 0
IsAbsent a [] = Unit {0}
IsAbsent a (x ∷ xs) = (a ≢ x) × IsAbsent a xs

pub record MessagePool (n : ℕ) : Type 1 where
  pub State : Type 0
  pub new : State
  pub allocate : State → Result (Option ℕ × State)
  pub deallocate : State → Option ℕ → Result State
  pub HasFree : State → List ℕ → Type 0
  pub new-HasFree : HasFree new (countdown n)
  pub allocate_pops :
      (s : State) (x : ℕ) (xs : List ℕ)
      → HasFree s (x ∷ xs)
      → Returns (allocate s) λ r. (r.0 ≡ some x) × HasFree r.1 xs
  pub allocate_none_free : (s s' : State) (x : ℕ) → HasFree s [] → allocate s ≢ ok (some x, s')
  pub deallocate_pushes :
      (s : State) (x : ℕ) (xs : List ℕ)
      → HasFree s xs
      → x < n
      → IsAbsent x xs
      → length xs < n
      → Returns (deallocate s (some x)) λ s'. HasFree s' (x ∷ xs)
