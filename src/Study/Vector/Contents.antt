-- ===== src/Study/Vector/Contents.antt =====
-- Study/vector.cpp: the elements that a vector stands for, and what each method does to them.
use native.Mathlib.Nat.{mod-eq_of_lt, mul-div_cancel}
use mathlib.Core.List.{append_assoc}
use git_docs_test.Common.{
  subst, ℕ, zero, suc, ◌+◌, ◌-◌, ◌*◌, ◌/◌, ◌^◌, ◌<◌, ◌≡◌, refl, sym, ap, ap₂, ◌∙◌, Option, none,
  some, List, [], ◌∷◌, ◌++◌, map, get_elem?, set, length, length-append, length-map, replicate,
  ◌==◌, true, false, Result, ok, ◌>>=◌, arith,
}
use git_docs_test.Study.Vector.{
  Vector, read, construct, destroy, slots_of, move_up, destroy_up, empty, rebuild, reallocate,
  place, grown, push_back, Argument, outside, referent, remaining, allocated,
}

grows : (n : ℕ) → n < 2 ^ 63 → grown (n + 0) ≡ n + suc (grown (n + 0) - n - 1)
unfolding grown
grows n h = ground arith

room : (n k : ℕ) → (n == n + suc k) ≡ false
room n k = ground arith

full : (n : ℕ) → (n == n + 0) ≡ true
full n = ground arith

-- Where the bytes of the slots do not wrap, the buffer has all of the slots.
pub allocated-fits :
    (size_of capacity : ℕ)
    → 0 < size_of
    → capacity * size_of < 2 ^ 64
    → allocated size_of capacity ≡ capacity
unfolding allocated
allocated-fits size_of capacity sized bytes =
    ap (λ (n : ℕ). n / size_of) (mod-eq_of_lt bytes) ∙ mul-div_cancel capacity sized

module _ {ℓ} {T : Type ℓ} where
  -- the slot behind the slots `before`
  get_elem?-middle :
      (before rest : List (Option T)) (slot : Option T) (i : ℕ)
      → i ≡ length before
      → get_elem? (before ++ (slot ∷ rest)) i ≡ some slot
  get_elem?-middle [] rest slot zero e = refl
  get_elem?-middle [] rest slot (suc i) e = absurd (omega (arith, e))
  get_elem?-middle (s ∷ before) rest slot zero e = absurd (omega (arith, e))
  get_elem?-middle (s ∷ before) rest slot (suc i) e =
      get_elem?-middle before rest slot i (omega (arith, e))

  set-middle :
      (before rest : List (Option T)) (slot slot' : Option T) (i : ℕ)
      → i ≡ length before
      → set (before ++ (slot ∷ rest)) i slot' ≡ before ++ (slot' ∷ rest)
  set-middle [] rest slot slot' zero e = refl
  set-middle [] rest slot slot' (suc i) e = absurd (omega (arith, e))
  set-middle (s ∷ before) rest slot slot' zero e = absurd (omega (arith, e))
  set-middle (s ∷ before) rest slot slot' (suc i) e =
      ap (λ ss. s ∷ ss) (set-middle before rest slot slot' i (omega (arith, e)))

  module _ (before rest : List (Option T)) (x : T) (i : ℕ) (e : i ≡ length before) where
    pub read-middle : read (before ++ (some x ∷ rest)) i ≡ ok x
    unfolding read
    read-middle = rw (get_elem?-middle before rest (some x) i e, read) refl

    construct-middle : construct (before ++ (none ∷ rest)) i x ≡ ok (before ++ (some x ∷ rest))
    unfolding construct
    construct-middle =
        rw (get_elem?-middle before rest none i e, construct)
          (ap ok (set-middle before rest none (some x) i e))

    pub destroy-middle : destroy (before ++ (some x ∷ rest)) i ≡ ok (before ++ (none ∷ rest))
    unfolding destroy
    destroy-middle =
        rw (get_elem?-middle before rest (some x) i e, destroy)
          (ap ok (set-middle before rest (some x) none i e))

  -- the elements `xs` in front of `spare` empty slots
  abbrev pub row : List T → ℕ → List (Option T)
  row xs spare = map some xs ++ replicate spare none

  pub row-snoc :
      (xs : List T) (x : T) (spare : ℕ)
      → row (xs ++ (x ∷ [])) spare ≡ map some xs ++ (some x ∷ replicate spare none)
  row-snoc [] x spare = refl
  row-snoc (y ∷ xs) x spare = ap (λ ss. some y ∷ ss) (row-snoc xs x spare)

  moved :
      (zs : List T) (before fresh rest : List (Option T)) (w k i : ℕ)
      → i ≡ length before
      → i ≡ length fresh
      → w ≡ length zs + k
      → move_up (length zs) i (before ++ (map some zs ++ rest)) (fresh ++ replicate w none)
        ≡ ok (fresh ++ row zs k)
  unfolding move_up
  moved [] before fresh rest w k i e f g =
      ap (λ (n : ℕ). ok (fresh ++ replicate n none)) (omega (arith, g))
  moved (z ∷ zs) before fresh rest zero k i e f g = absurd (omega (arith, g))
  moved (z ∷ zs) before fresh rest (suc w) k i e f g =
      let old = before ++ (some z ∷ (map some zs ++ rest)) in
      let target = fresh ++ (none ∷ replicate w none) in
      ap (λ r. r >>= λ x. construct target i x >>= λ t. move_up (length zs) (i + 1) old t)
        (read-middle before (map some zs ++ rest) z i e)
      ∙ ap (λ r. r >>= λ t. move_up (length zs) (i + 1) old t)
          (construct-middle fresh (replicate w none) z i f)
      ∙ ap₂ (λ o t. move_up (length zs) (i + 1) o t)
          (sym (append_assoc before (some z ∷ []) (map some zs ++ rest)))
          (sym (append_assoc fresh (some z ∷ []) (replicate w none)))
      ∙ moved zs (before ++ (some z ∷ [])) (fresh ++ (some z ∷ [])) rest w k (i + 1)
          (omega (arith, e, length-append before (some z ∷ [])))
          (omega (arith, f, length-append fresh (some z ∷ []))) (omega (arith, g))
      ∙ ap ok (append_assoc fresh (some z ∷ []) (row zs k))

  pub destroyed :
      (zs : List T) (before rest : List (Option T)) (i : ℕ)
      → i ≡ length before
      → destroy_up (length zs) i (before ++ (map some zs ++ rest))
        ≡ ok (before ++ (replicate (length zs) none ++ rest))
  unfolding destroy_up
  destroyed [] before rest i e = refl
  destroyed (z ∷ zs) before rest i e =
      ap (λ r. r >>= λ t. destroy_up (length zs) (i + 1) t)
        (destroy-middle before (map some zs ++ rest) z i e)
      ∙ ap (destroy_up (length zs) (i + 1))
          (sym (append_assoc before (none ∷ []) (map some zs ++ rest)))
      ∙ destroyed zs (before ++ (none ∷ [])) rest (i + 1)
          (omega (arith, e, length-append before (none ∷ [])))
      ∙ ap ok (append_assoc before (none ∷ []) (replicate (length zs) none ++ rest))

  -- a vector with a buffer, that holds `xs` and has room for `spare` more
  abbrev pub form : List T → ℕ → Vector T
  form xs spare = record {
    size = length xs;
    capacity = length xs + spare;
    buffer = some (row xs spare);
  }

  rebuild-form :
      (size_of : ℕ) (xs : List T) (spare capacity k : ℕ)
      → 0 < size_of
      → capacity * size_of < 2 ^ 64
      → capacity ≡ length xs + k
      → rebuild size_of capacity (form xs spare) ≡ ok (form xs k)
  unfolding rebuild
  rebuild-form size_of xs spare capacity k sized bytes e =
      ap
        (λ r. r >>= λ fresh. destroy_up (length xs) 0 (row xs spare) >>= λ emptied.
          ok (record (form xs spare) { capacity = capacity; buffer = some fresh }))
        (moved xs [] [] (replicate spare none) (allocated size_of capacity) k 0 refl refl
          (allocated-fits size_of capacity sized bytes ∙ e))
      ∙ ap
          (λ r. r >>= λ emptied.
            ok (record (form xs spare) { capacity = capacity; buffer = some (row xs k) }))
          (destroyed xs [] (replicate spare none) 0 refl)
      ∙ ap (λ (c : ℕ). ok (record (form xs k) { capacity = c })) e

  abbrev pub Same : Result (Vector T) → Result (Vector T) → Type ℓ
  Same r s = r ≡ s

  pub vec_eq :
      {n n' c c' : ℕ} {ss ss' : List (Option T)}
      → n ≡ n'
      → c ≡ c'
      → ss ≡ ss'
      → Same
          (ok (record { size = n; capacity = c; buffer = some ss }))
          (ok (record { size = n'; capacity = c'; buffer = some ss' }))
  vec_eq p q r = λ i. ok (record { size = p i; capacity = q i; buffer = some (r i) })

  place-form :
      (xs : List T) (x : T) (spare : ℕ)
      → place x (form xs (suc spare)) ≡ ok (form (xs ++ (x ∷ [])) spare)
  unfolding place slots_of
  place-form xs x spare =
      ap
        (λ r.
          r >>= λ t. ok (record (form xs (suc spare)) { size = length xs + 1; buffer = some t }))
        (construct-middle (map some xs) (replicate spare none) x (length xs)
          (sym (length-map xs some)))
      ∙ vec_eq (omega (arith, length-append xs (x ∷ []))) (omega (arith, length-append xs (x ∷ [])))
          (sym (row-snoc xs x spare))

  -- What a vector holds: nothing with a null buffer, or the elements in its buffer, whose bytes a
  -- `size_t` counts.
  pub data Holds (size_of : ℕ) : Vector T → List T → Type ℓ where
    null : {v : Vector T} {xs : List T} → v ≡ empty → xs ≡ [] → Holds size_of v xs
    buffered :
        {v : Vector T} {xs : List T} (spare : ℕ)
        → (length xs + spare) * size_of < 2 ^ 64
        → v ≡ form xs spare
        → Holds size_of v xs

  pub spare_grown : List T → ℕ
  spare_grown xs = grown (length xs + 0) - length xs - 1

  pub grown-length :
      (xs : List T) → length xs < 2 ^ 63 → grown (length xs) ≡ length xs + suc (spare_grown xs)
  unfolding spare_grown
  grown-length xs h =
      ap grown {x = length xs} {y = length xs + 0} (omega arith) ∙ grows (length xs) h

  reallocate-full :
      (size_of : ℕ) (xs : List T)
      → 0 < size_of
      → length xs < 2 ^ 63
      → grown (length xs) * size_of < 2 ^ 64
      → reallocate size_of 0 (form xs 0) ≡ ok (form xs (suc (spare_grown xs)))
  unfolding reallocate spare_grown
  reallocate-full size_of xs sized h bytes =
      rebuild-form size_of xs 0 (grown (length xs + 0)) (suc (spare_grown xs)) sized
        (subst (λ (n : ℕ). grown n * size_of < 2 ^ 64) {x = length xs} {y = length xs + 0}
          (omega arith) bytes)
        (grows (length xs) h)

  pub push-full :
      (size_of : ℕ) (xs : List T) (x : T)
      → 0 < size_of
      → length xs < 2 ^ 63
      → grown (length xs) * size_of < 2 ^ 64
      → push_back size_of (form xs 0) (outside x) ≡ ok (form (xs ++ (x ∷ [])) (spare_grown xs))
  unfolding push_back remaining
  push-full size_of xs x sized h bytes = rw (full (length xs)) (
      ap (λ r. r >>= λ w. remaining (outside x) >>= λ value. place value w)
        (reallocate-full size_of xs sized h bytes)
      ∙ place-form xs x (spare_grown xs))

  pub push-room :
      (size_of : ℕ) (xs : List T) (x : T) (argument : Argument T) (k : ℕ)
      → referent (form xs (suc k)) argument ≡ ok x
      → push_back size_of (form xs (suc k)) argument ≡ ok (form (xs ++ (x ∷ [])) k)
  unfolding push_back
  push-room size_of xs x argument k e =
      rw (room (length xs) k)
        (ap (λ r. r >>= λ value. place value (form xs (suc k))) e ∙ place-form xs x k)

  pub push-null :
      (size_of : ℕ) (x : T)
      → 0 < size_of
      → grown 0 * size_of < 2 ^ 64
      → push_back size_of empty (outside x) ≡ ok (form (x ∷ []) 0)
  unfolding push_back reallocate rebuild place construct slots_of empty remaining grown
  push-null size_of x sized bytes =
      ap (λ (n : ℕ). place x (record { size = 0; capacity = 1; buffer = some (replicate n none) }))
        (allocated-fits size_of 1 sized bytes)
