-- ===== src/Study/SharedPtr/Program.antt =====
-- Study/weak_ptr_impl.cpp: programs with variables of SharedPtr and WeakPtr.
use git_docs_test.Common.{
  ℕ, Option, none, some, List, [], ◌∷◌, ◌++◌, get_elem?, set, ◌==◌, if◌then◌else◌, Result, ok,
  ◌>>=◌,
}
use git_docs_test.Study.SharedPtr.{
  Heap, make_block, add_shared, add_weak, release_shared, release_weak, lock,
}

-- The variables by what they point to. One that was destroyed holds `none`.
pub record Program : Type 0 where
  pub heap : Heap
  pub shareds : List (Option ℕ)
  pub weaks : List (Option ℕ)

-- The constructors (a new variable), the assignments and the destructors, on variables by their index.
pub data Call : Type 0 where
  empty_shared empty_weak : Call
  make_shared : Option ℕ → Call
  copy_shared move_shared destroy_shared : ℕ → Call
  assign_shared move_assign_shared : ℕ → ℕ → Call
  watch copy_weak destroy_weak lock_weak : ℕ → Call
  assign_weak : ℕ → ℕ → Call

-- a variable that is there
abbrev pub given {ℓ} : {A : Type ℓ} → List (Option ℕ) → ℕ → A → (Option ℕ → A) → A
given hs i missing f = elim (get_elem? hs i) [ none ↦ missing | some h ↦ f h ]

-- `release()` of the variable `i`, which points to `h`
unfoldable pub release_at : Program → ℕ → Option ℕ → Result Program
release_at s i h = release_shared s.heap h >>= λ heap.
    ok (record s { heap = heap; shareds = set s.shareds i none })

unfoldable pub release_weak_at : Program → ℕ → Option ℕ → Result Program
release_weak_at s i h =
    release_weak s.heap h >>= λ heap. ok (record s { heap = heap; weaks = set s.weaks i none })

-- `control = other.control; if (control) ...++`, for the variable `i`
unfoldable pub point_at : ℕ → Option ℕ → Program → Result Program
point_at i c s =
    add_shared s.heap c >>= λ heap. ok (record s { heap = heap; shareds = set s.shareds i c })

unfoldable pub point_weak_at : ℕ → Option ℕ → Program → Result Program
point_weak_at i c s =
    add_weak s.heap c >>= λ heap. ok (record s { heap = heap; weaks = set s.weaks i c })

-- The same for a new variable.
unfoldable pub construct : Option ℕ → Program → Result Program
construct c s =
    add_shared s.heap c >>= λ heap. ok (record s { heap = heap; shareds = s.shareds ++ (c ∷ []) })

unfoldable pub construct_weak : Option ℕ → Program → Result Program
construct_weak c s =
    add_weak s.heap c >>= λ heap. ok (record s { heap = heap; weaks = s.weaks ++ (c ∷ []) })

-- `control = other.control; other.control = nullptr`
unfoldable pub hand_over : ℕ → ℕ → Option ℕ → Program → Result Program
hand_over i j c s = ok (record s { shareds = set (set s.shareds i c) j none })

-- A call; one on a variable that is not there leaves the program as it is. The assignments test
-- `this != &other`; what `release` does to one variable leaves the other alone.
unfoldable pub step : Call → Program → Result Program
unfolding release_at release_weak_at point_at point_weak_at hand_over construct construct_weak
step empty_shared s = ok (record s { shareds = s.shareds ++ (none ∷ []) })
step empty_weak s = ok (record s { weaks = s.weaks ++ (none ∷ []) })
step (make_shared ptr) s =
    let (heap, control) = make_block s.heap ptr in
    ok (record s { heap = heap; shareds = s.shareds ++ (control ∷ []) })
step (copy_shared j) s = given s.shareds j (ok s) (λ c. construct c s)
step (move_shared j) s =
    given s.shareds j (ok s) (λ c. ok (record s { shareds = set s.shareds j none ++ (c ∷ []) }))
step (destroy_shared i) s = given s.shareds i (ok s) (λ h. release_at s i h)
step (assign_shared i j) s = given s.shareds i (ok s) (λ h.
    given s.shareds j (ok s) (λ c. if i == j then ok s else (release_at s i h >>= point_at i c)))
step (move_assign_shared i j) s = given s.shareds i (ok s) (λ h.
    given s.shareds j (ok s) (λ c. if i == j then ok s else (release_at s i h >>= hand_over i j c)))
step (watch j) s = given s.shareds j (ok s) (λ c. construct_weak c s)
step (copy_weak j) s = given s.weaks j (ok s) (λ c. construct_weak c s)
step (destroy_weak i) s = given s.weaks i (ok s) (λ h. release_weak_at s i h)
step (assign_weak i j) s = given s.weaks i (ok s) (λ h.
    given s.weaks j (ok s)
      (λ c. if i == j then ok s else (release_weak_at s i h >>= point_weak_at i c)))
step (lock_weak j) s = given s.weaks j (ok s) (λ c.
    lock s.heap c >>= λ (heap, h). ok (record s { heap = heap; shareds = s.shareds ++ (h ∷ []) }))
