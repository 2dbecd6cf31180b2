-- ===== src/Study/SharedPtr/Uses.antt =====
-- Study/weak_ptr_impl.cpp: the calls of a program keep the counts of the control blocks right.
use git_docs_test.Common.{
  ℕ, zero, suc, ◌+◌, ◌^◌, ◌≤◌, ◌<◌, ◌≡◌, ◌≢◌, refl, ap, Option, none, some, List, [], ◌∷◌, ◌++◌,
  get_elem?, set, length, length-set, length-append, ok, ◌>>=◌, Returns, arith, some-injective,
}
use git_docs_test.Study.SharedPtr.{lock}
use git_docs_test.Study.SharedPtr.Cells.{same_counts, HeapCounted, own}
use git_docs_test.Study.SharedPtr.Counts.{add_shared_lem, add_weak_lem, lock_lem}
use git_docs_test.Study.SharedPtr.Releases.{release_shared_lem, release_weak_lem}
use git_docs_test.Study.SharedPtr.Program.{
  Program, release_at, release_weak_at, point_at, point_weak_at, construct, construct_weak,
}

-- how many variables point to a block
unfoldable pub uses : ℕ → List (Option ℕ) → ℕ
uses a [] = 0
uses a (h ∷ hs) = own a h + uses a hs

pub uses-append :
    (a : ℕ) (hs : List (Option ℕ)) (h : Option ℕ) → uses a (hs ++ (h ∷ [])) ≡ uses a hs + own a h
unfolding uses
uses-append a [] h = omega arith
uses-append a (g ∷ hs) h = omega (arith, uses-append a hs h)

pub uses-set :
    (a : ℕ) (hs : List (Option ℕ)) (i : ℕ) (h v : Option ℕ)
    → get_elem? hs i ≡ some h
    → uses a (set hs i v) + own a h ≡ uses a hs + own a v
unfolding uses
uses-set a [] i h v e = cc
uses-set a (g ∷ hs) zero h v e =
    let same : own a g ≡ own a h = ap (own a) (some-injective e) in omega arith
uses-set a (g ∷ hs) (suc i) h v e = omega (arith, uses-set a hs i h v e)

pub uses_le : (a : ℕ) (hs : List (Option ℕ)) → uses a hs ≤ length hs
unfolding uses
uses_le a [] = omega arith
uses_le a (none ∷ hs) = omega (arith, uses_le a hs)
uses_le a (some b ∷ hs) = ground (arith, uses_le a hs)

-- The counts of each block are those of the variables that point to it.
pub record IsSound (s : Program) : Type 0 where
  pub counted : HeapCounted s.heap (λ a. uses a s.shareds) (λ a. uses a s.weaks)

-- The variables are fewer than an `int` counts.
pub record IsSmall (s : Program) : Type 0 where
  pub few : length s.shareds + length s.weaks + 2 < 2 ^ 31

pub release_at_lem :
    (s : Program) (i : ℕ) (h : Option ℕ)
    → IsSound s
    → IsSmall s
    → get_elem? s.shareds i ≡ some h
    → Returns
        (release_at s i h)
        (λ s'. IsSound s' × (s'.shareds ≡ set s.shareds i none) × (s'.weaks ≡ s.weaks))
unfolding release_at
release_at_lem s i h v small e =
    let (heap, ran, k) =
      release_shared_lem s.heap h (λ a. uses a s.shareds) (λ a. uses a s.weaks)
        (λ a. uses a (set s.shareds i none)) v.counted
        (λ b. omega (arith, uses-set b s.shareds i h none e))
        (λ b. omega (arith, uses_le b s.shareds, uses_le b s.weaks, small.few)) in
    (
      record s { heap = heap; shareds = set s.shareds i none },
      rw ran refl,
      (record { counted = k }, refl, refl),
    )

pub construct_lem :
    (s : Program) (c : Option ℕ)
    → IsSound s
    → IsSmall s
    → ((b : ℕ) → own b c ≤ uses b s.shareds)
    → Returns (construct c s) IsSound
unfolding construct
construct_lem s c v small held =
    let (heap, ran, k) =
      add_shared_lem s.heap c (λ a. uses a s.shareds) (λ a. uses a s.weaks)
        (λ a. uses a (s.shareds ++ (c ∷ []))) v.counted (λ b. uses-append b s.shareds c)
        (λ b.
          omega
            (arith, uses_le b (s.shareds ++ (c ∷ [])), length-append s.shareds (c ∷ []), small.few))
        held in
    (record s { heap = heap; shareds = s.shareds ++ (c ∷ []) }, rw ran refl, record { counted = k })

pub point_at_lem :
    (s : Program) (i : ℕ) (c : Option ℕ)
    → IsSound s
    → IsSmall s
    → get_elem? s.shareds i ≡ some none
    → ((b : ℕ) → own b c ≤ uses b s.shareds)
    → Returns (point_at i c s) IsSound
unfolding point_at
point_at_lem s i c v small e held =
    let (heap, ran, k) =
      add_shared_lem s.heap c (λ a. uses a s.shareds) (λ a. uses a s.weaks)
        (λ a. uses a (set s.shareds i c)) v.counted
        (λ b. omega (arith, uses-set b s.shareds i none c e))
        (λ b. omega (arith, uses_le b (set s.shareds i c), length-set s.shareds i c, small.few))
        held in
    (record s { heap = heap; shareds = set s.shareds i c }, rw ran refl, record { counted = k })

pub release_weak_at_lem :
    (s : Program) (i : ℕ) (h : Option ℕ)
    → IsSound s
    → IsSmall s
    → get_elem? s.weaks i ≡ some h
    → Returns
        (release_weak_at s i h)
        (λ s'. IsSound s' × (s'.weaks ≡ set s.weaks i none) × (s'.shareds ≡ s.shareds))
unfolding release_weak_at
release_weak_at_lem s i h v small e =
    let (heap, ran, k) =
      release_weak_lem s.heap h (λ a. uses a s.shareds) (λ a. uses a s.weaks)
        (λ a. uses a (set s.weaks i none)) v.counted
        (λ b. omega (arith, uses-set b s.weaks i h none e))
        (λ b. omega (arith, uses_le b s.shareds, uses_le b s.weaks, small.few)) in
    (
      record s { heap = heap; weaks = set s.weaks i none },
      rw ran refl,
      (record { counted = k }, refl, refl),
    )

pub construct_weak_lem :
    (s : Program) (c : Option ℕ)
    → IsSound s
    → IsSmall s
    → ((b : ℕ) → own b c ≤ uses b s.shareds + uses b s.weaks)
    → Returns (construct_weak c s) IsSound
unfolding construct_weak
construct_weak_lem s c v small held =
    let (heap, ran, k) =
      add_weak_lem s.heap c (λ a. uses a s.shareds) (λ a. uses a s.weaks)
        (λ a. uses a (s.weaks ++ (c ∷ []))) v.counted (λ b. uses-append b s.weaks c)
        (λ b.
          omega (arith, uses_le b (s.weaks ++ (c ∷ [])), length-append s.weaks (c ∷ []), small.few))
        held in
    (record s { heap = heap; weaks = s.weaks ++ (c ∷ []) }, rw ran refl, record { counted = k })

pub point_weak_at_lem :
    (s : Program) (i : ℕ) (c : Option ℕ)
    → IsSound s
    → IsSmall s
    → get_elem? s.weaks i ≡ some none
    → ((b : ℕ) → own b c ≤ uses b s.weaks)
    → Returns (point_weak_at i c s) IsSound
unfolding point_weak_at
point_weak_at_lem s i c v small e held =
    let (heap, ran, k) =
      add_weak_lem s.heap c (λ a. uses a s.shareds) (λ a. uses a s.weaks)
        (λ a. uses a (set s.weaks i c)) v.counted
        (λ b. omega (arith, uses-set b s.weaks i none c e))
        (λ b. omega (arith, uses_le b (set s.weaks i c), length-set s.weaks i c, small.few))
        (λ b. omega (arith, held b)) in
    (record s { heap = heap; weaks = set s.weaks i c }, rw ran refl, record { counted = k })

pub lock_variable_lem :
    (s : Program) (c : Option ℕ)
    → IsSound s
    → IsSmall s
    → ((b : ℕ) → own b c ≤ uses b s.weaks)
    → Returns
        (lock s.heap c >>= λ (heap, h).
          ok (record s { heap = heap; shareds = s.shareds ++ (h ∷ []) }))
        IsSound
lock_variable_lem s c v small held =
    let ((heap, h), ran, k) =
      lock_lem s.heap c (λ a. uses a s.shareds) (λ a. uses a s.weaks) v.counted held
        (λ b. omega (arith, uses_le b s.shareds, small.few)) in
    (
      record s { heap = heap; shareds = s.shareds ++ (h ∷ []) },
      ap (λ r. r >>= λ (heap, h). ok (record s { heap = heap; shareds = s.shareds ++ (h ∷ []) }))
          ran,
      record {
        counted =
            same_counts heap (λ a. uses a s.shareds + own a h) (λ a. uses a s.weaks)
              (λ a. uses a (s.shareds ++ (h ∷ []))) (λ a. uses a s.weaks) k
              (λ b. uses-append b s.shareds h) (λ b. refl);
      },
    )

-- Only the variables change, and as many of them point to each block as before.
pub recount_lem :
    (s : Program) (shareds : List (Option ℕ))
    → IsSound s
    → ((b : ℕ) → uses b shareds ≡ uses b s.shareds)
    → IsSound (record s { shareds = shareds })
recount_lem s shareds v e = record {
  counted =
      same_counts s.heap (λ a. uses a s.shareds) (λ a. uses a s.weaks) (λ a. uses a shareds)
        (λ a. uses a s.weaks) v.counted e (λ b. refl);
}

module _ {A : Type 0} where
  pub get_elem?-append_last :
      (xs : List A) (x : A) → get_elem? (xs ++ (x ∷ [])) (length xs) ≡ some x
  get_elem?-append_last [] x = refl
  get_elem?-append_last (y ∷ xs) x = get_elem?-append_last xs x

  pub get_elem?-append_other :
      (xs : List A) (x : A) (i : ℕ) → length xs ≢ i → get_elem? (xs ++ (x ∷ [])) i ≡ get_elem? xs i
  get_elem?-append_other [] x zero ne = absurd (ne refl)
  get_elem?-append_other [] x (suc i) ne = refl
  get_elem?-append_other (y ∷ xs) x zero ne = refl
  get_elem?-append_other (y ∷ xs) x (suc i) ne = get_elem?-append_other xs x i (λ e. ne (ap suc e))

  pub get_elem?-length : (xs : List A) → get_elem? xs (length xs) ≡ none
  get_elem?-length [] = refl
  get_elem?-length (x ∷ xs) = get_elem?-length xs
