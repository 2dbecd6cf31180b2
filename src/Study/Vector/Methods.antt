-- ===== src/Study/Vector/Methods.antt =====
-- Study/vector.cpp: pushes, pops and reads against the list of the elements.
use git_docs_test.Common.{
  ℕ, zero, suc, ◌+◌, ◌-◌, ◌*◌, ◌^◌, ◌<◌, ◌≤◌, ◌≡◌, refl, sym, ap, subst, ◌∙◌, Option, none, some,
  List, [], ◌∷◌, ◌++◌, map, get_elem?, length, length-append, length-map, replicate, ltb, lt→ltb,
  ◌==◌, some-injective, false, ok, throws, out_of_bounds, ◌>>=◌, Returns, arith,
}
use git_docs_test.Study.Vector.{
  Vector, read, destroy, slots_of, empty, grown, push_back, Argument, outside, inside, referent,
  emplace_back, pop_back, at,
}
use git_docs_test.Study.Vector.Contents.{
  row, row-snoc, form, Holds, null, buffered, read-middle, destroy-middle, push-full, push-room,
  spare_grown, grown-length, push-null,
}

nonempty : (n : ℕ) → (n + 1 == 0) ≡ false
nonempty n = ground arith

not_below : (a b : ℕ) → b ≤ a → ltb a b ≡ false
not_below a b h = ground arith

module _ {ℓ} {T : Type ℓ} where
  at-form :
      (xs : List T) (x : T) (spare i : ℕ)
      → get_elem? xs i ≡ some x
      → get_elem? (row xs spare) i ≡ some (some x)
  at-form [] x spare i h = cc h
  at-form (y ∷ xs) x spare zero h = ap (λ o. elim o [ some z ↦ some (some z) | none ↦ none ]) h
  at-form (y ∷ xs) x spare (suc i) h = at-form xs x spare i h

  get_elem?-lt : (xs : List T) (x : T) (i : ℕ) → get_elem? xs i ≡ some x → i < length xs
  get_elem?-lt [] x i h = cc h
  get_elem?-lt (y ∷ xs) x zero h = omega arith
  get_elem?-lt (y ∷ xs) x (suc i) h = omega (arith, get_elem?-lt xs x i h)

  read-row :
      (xs : List T) (x : T) (spare i : ℕ) → get_elem? xs i ≡ some x → read (row xs spare) i ≡ ok x
  unfolding read
  read-row xs x spare i h = rw (at-form xs x spare i h, read) refl

  -- what the argument refers to, in a vector of the elements `xs`
  abbrev pub meant : List T → Argument T → Option T
  meant xs (outside x) = some x
  meant xs (inside i) = get_elem? xs i

  -- The argument still stands when it is copied: it is not in a buffer that is full.
  abbrev pub Stands : Vector T → Argument T → Type 0
  Stands v (outside x) = Unit {0}
  Stands v (inside i) = v.size < v.capacity

  pub referent-form :
      (xs : List T) (x : T) (argument : Argument T) (spare : ℕ)
      → meant xs argument ≡ some x
      → referent (form xs spare) argument ≡ ok x
  unfolding referent slots_of
  referent-form xs x (outside y) spare e = ap ok (some-injective e)
  referent-form xs x (inside i) spare e = read-row xs x spare i e

  -- a vector of one element more
  fits_more :
      (size_of : ℕ) (xs : List T) (x : T) (n k : ℕ)
      → n ≡ length xs + suc k
      → n * size_of < 2 ^ 64
      → (length (xs ++ (x ∷ [])) + k) * size_of < 2 ^ 64
  fits_more size_of xs x n k e bytes =
      subst (λ (m : ℕ). m * size_of < 2 ^ 64) {x = n} {y = length (xs ++ (x ∷ [])) + k}
        (omega (arith, length-append xs (x ∷ []))) bytes

  push-form :
      (size_of : ℕ) (xs : List T) (x : T) (argument : Argument T) (spare : ℕ)
      → 0 < size_of
      → (length xs + spare) * size_of < 2 ^ 64
      → meant xs argument ≡ some x
      → Stands (form xs spare) argument
      → length xs < 2 ^ 63
      → grown (length xs) * size_of < 2 ^ 64
      → Returns (push_back size_of (form xs spare) argument) λ w. Holds size_of w (xs ++ (x ∷ []))
  push-form size_of xs x (outside y) zero sized fit e s h bytes = (
    _,
    ap (λ z. push_back size_of (form xs 0) (outside z)) (some-injective e)
        ∙ push-full size_of xs x sized h bytes,
    buffered (spare_grown xs)
        (fits_more size_of xs x (grown (length xs)) (spare_grown xs) (grown-length xs h) bytes)
        refl,
  )
  push-form size_of xs x (inside i) zero sized fit e s h bytes = absurd (omega arith)
  push-form size_of xs x argument (suc spare) sized fit e s h bytes = (
    _,
    push-room size_of xs x argument spare (referent-form xs x argument (suc spare) e),
    buffered spare (fits_more size_of xs x (length xs + suc spare) spare refl fit) refl,
  )

  push-empty :
      (size_of : ℕ) (x : T) (argument : Argument T)
      → 0 < size_of
      → grown 0 * size_of < 2 ^ 64
      → meant [] argument ≡ some x
      → push_back size_of empty argument ≡ ok (form (x ∷ []) 0)
  push-empty size_of x (outside y) sized bytes e =
      ap (λ z. push_back size_of empty (outside z)) (some-injective e)
      ∙ push-null size_of x sized bytes
  push-empty size_of x (inside i) sized bytes e = cc e

  push-null_vector :
      (size_of : ℕ) (x : T) (argument : Argument T)
      → 0 < size_of
      → grown 0 * size_of < 2 ^ 64
      → meant [] argument ≡ some x
      → Returns (push_back size_of empty argument) λ w. Holds size_of w (x ∷ [])
  unfolding grown
  push-null_vector size_of x argument sized bytes e =
      (form (x ∷ []) 0, push-empty size_of x argument sized bytes e, buffered 0 bytes refl)

  -- A push of an element, which grows a full buffer, adds it behind the elements. The argument refers
  -- to an object outside the vector, or to an element of a vector that is not full; the elements are
  -- fewer than 2^63, and a `size_t` counts the bytes of the buffer after a growth.
  pub push_back_lem :
      (size_of : ℕ) {v : Vector T} {xs : List T} (x : T) (argument : Argument T)
      → 0 < size_of
      → Holds size_of v xs
      → meant xs argument ≡ some x
      → Stands v argument
      → length xs < 2 ^ 63
      → grown (length xs) * size_of < 2 ^ 64
      → Returns (push_back size_of v argument) λ w. Holds size_of w (xs ++ (x ∷ []))
  push_back_lem size_of {v} {xs} x argument sized (null e f) a s h bytes =
      subst (λ v. Returns (push_back size_of v argument) λ w. Holds size_of w (xs ++ (x ∷ [])))
        (sym e)
        (subst
          (λ ys. Returns (push_back size_of empty argument) λ w. Holds size_of w (ys ++ (x ∷ [])))
          (sym f)
          (push-null_vector size_of x argument sized
            (subst (λ ys. grown (length ys) * size_of < 2 ^ 64) f bytes)
            (ap (λ ys. meant ys argument) (sym f) ∙ a)))
  push_back_lem size_of {v} {xs} x argument sized (buffered spare fit e) a s h bytes =
      subst (λ v. Returns (push_back size_of v argument) λ w. Holds size_of w (xs ++ (x ∷ [])))
        (sym e)
        (push-form size_of xs x argument spare sized fit a (subst (λ v. Stands v argument) e s) h
          bytes)

  pub emplace-push :
      (size_of : ℕ) (v : Vector T) (argument : Argument T)
      → emplace_back size_of v argument ≡ push_back size_of v argument
  unfolding emplace_back push_back
  emplace-push size_of v argument = refl

  -- the form of a vector with its last element apart
  last_apart : List T → T → ℕ → Vector T
  last_apart xs x spare = record {
    size = length xs + 1;
    capacity = length xs + suc spare;
    buffer = some (map some xs ++ (some x ∷ replicate spare none));
  }

  form-snoc :
      (xs : List T) (x : T) (spare : ℕ) → form (xs ++ (x ∷ [])) spare ≡ last_apart xs x spare
  unfolding last_apart
  form-snoc xs x spare =
      let counted = length-append xs (x ∷ []) in
      let sized : length (xs ++ (x ∷ [])) + spare ≡ length xs + suc spare =
        omega (arith, counted) in
      λ i. record { size = counted i; capacity = sized i; buffer = some (row-snoc xs x spare i) }

  pop-apart :
      (xs : List T) (x : T) (spare : ℕ)
      → pop_back (last_apart xs x spare) ≡ ok (x, form xs (suc spare))
  unfolding pop_back slots_of last_apart
  pop-apart xs x spare =
      let n = length xs in
      let ss = map some xs ++ (some x ∷ replicate spare none) in
      let at_last : n + 1 - 1 ≡ length (map some xs) = omega (arith, length-map xs some) in
      let shrunk : List (Option T) → ℕ → Vector T =
        λ ts k. record { size = k; capacity = n + suc spare; buffer = some ts } in
      rw (nonempty n) (
        ap (λ r. r >>= λ v. destroy ss (n + 1 - 1) >>= λ ts. ok (v, shrunk ts (n + 1 - 1)))
          (read-middle (map some xs) (replicate spare none) x (n + 1 - 1) at_last)
        ∙ ap (λ r. r >>= λ ts. ok (x, shrunk ts (n + 1 - 1)))
            (destroy-middle (map some xs) (replicate spare none) x (n + 1 - 1) at_last)
        ∙ ap (λ (k : ℕ). ok (x, shrunk (row xs (suc spare)) k)) (omega arith))

  pop-form :
      (xs : List T) (x : T) (spare : ℕ)
      → pop_back (form (xs ++ (x ∷ [])) spare) ≡ ok (x, form xs (suc spare))
  pop-form xs x spare = ap pop_back (form-snoc xs x spare) ∙ pop-apart xs x spare

  -- A pop returns the last element and leaves the others.
  pub pop_back_lem :
      {size_of : ℕ} {v : Vector T} (xs : List T) (x : T)
      → Holds size_of v (xs ++ (x ∷ []))
      → Returns (pop_back v) λ r. (r.0 ≡ x) × Holds size_of r.1 xs
  pop_back_lem {size_of} xs x (null e f) =
      absurd (omega (arith, ap length f, length-append xs (x ∷ [])))
  pop_back_lem {size_of} xs x (buffered spare fit e) = (
    (x, form xs (suc spare)),
    ap pop_back e ∙ pop-form xs x spare,
    (
      refl,
      buffered (suc spare)
          (subst (λ (n : ℕ). n * size_of < 2 ^ 64) {x = length (xs ++ (x ∷ [])) + spare}
            {y = length xs + suc spare} (omega (arith, length-append xs (x ∷ []))) fit)
          refl,
    ),
  )

  -- `operator[]` returns the element at an index.
  pub at_lem :
      {size_of : ℕ} {v : Vector T} {xs : List T} {x : T} (i : ℕ)
      → Holds size_of v xs
      → get_elem? xs i ≡ some x
      → at v i ≡ ok x
  unfolding at slots_of
  at_lem {v = v} {xs = xs} {x = x} i (null e f) h =
      absurd (omega (arith, get_elem?-lt xs x i h, ap length f))
  at_lem {v = v} {xs = xs} {x = x} i (buffered spare fit e) h =
      ap (λ u. at u i) e
      ∙ rw (lt→ltb i (length xs) (get_elem?-lt xs x i h)) (read-row xs x spare i h)

  -- `operator[]` throws "Index out of bounds" behind the elements.
  pub at_outside :
      {size_of : ℕ} {v : Vector T} {xs : List T} (i : ℕ)
      → Holds size_of v xs
      → length xs ≤ i
      → at v i ≡ throws out_of_bounds
  unfolding at empty
  at_outside i (null e f) h = ap (λ u. at u i) e ∙ rw (not_below i 0 (omega arith)) refl
  at_outside {v = v} {xs = xs} i (buffered spare fit e) h =
      ap (λ u. at u i) e ∙ rw (not_below i (length xs) h) refl
