-- ===== src/Study/Vector/Copies.antt =====
-- Study/vector.cpp: copies, moves and the destructor against the list of the elements.
use mathlib.Core.List.{append_assoc, append-nil}
use git_docs_test.Common.{
  ℕ, zero, suc, ◌+◌, ◌*◌, ◌^◌, ◌<◌, ◌≡◌, refl, sym, ap, subst, ◌∙◌, Option, none, some, List, [],
  ◌∷◌, ◌++◌, get_elem?, length, length-append, replicate, ltb, true, ok, ◌>>=◌, Returns, arith,
}
use git_docs_test.Study.Vector.{
  Vector, living, empty, rebuild, reallocate, reserve, emplace_back, copy_up, copy, move_assign,
  destructor, outside,
}
use git_docs_test.Study.Vector.Contents.{
  row, form, Holds, null, buffered, vec_eq, destroyed, push-room, allocated-fits,
}
use git_docs_test.Study.Vector.Methods.{referent-form, emplace-push, at_lem}

positive : (n : ℕ) → ltb 0 (suc n) ≡ true
positive n = ground arith

living-none {ℓ} : (T : Type ℓ) (n : ℕ) → living (replicate {A = Option T} n none) ≡ 0
unfolding living
living-none T zero = refl
living-none T (suc n) = living-none T n

living-cleared {ℓ} :
    (T : Type ℓ) (n m : ℕ) → living (replicate {A = Option T} n none ++ replicate m none) ≡ 0
unfolding living
living-cleared T zero m = living-none T m
living-cleared T (suc n) m = living-cleared T n m

module _ {ℓ} {T : Type ℓ} where
  get_elem?-end :
      (ys : List T) (z : T) (zs : List T) → get_elem? (ys ++ (z ∷ zs)) (length ys) ≡ some z
  get_elem?-end [] z zs = refl
  get_elem?-end (y ∷ ys) z zs = get_elem?-end ys z zs

  copied :
      (size_of : ℕ) {other : Vector T} (zs ys : List T) (k room : ℕ)
      → Holds size_of other (ys ++ zs)
      → room ≡ length zs + k
      → copy_up size_of (length zs) (length ys) other (form ys room) ≡ ok (form (ys ++ zs) k)
  unfolding copy_up
  copied size_of [] ys k room o e =
      ap (λ (n : ℕ). ok (form ys n)) {x = room} {y = k} (omega (arith, e))
      ∙ ap (λ l. ok (form l k)) (sym (append-nil ys))
  copied size_of (z ∷ zs) ys k zero o e = absurd (omega (arith, e))
  copied size_of {other} (z ∷ zs) ys k (suc room) o e =
      let i = length ys in
      let v = form ys (suc room) in
      let regroup = append_assoc ys (z ∷ []) zs in
      ap
        (λ r. r >>= λ x.
          emplace_back size_of v (outside x) >>= λ v'. copy_up size_of (length zs) (i + 1) other v')
        (at_lem i o (get_elem?-end ys z zs))
      ∙ ap (λ r. r >>= λ v'. copy_up size_of (length zs) (i + 1) other v')
          (emplace-push size_of v (outside z)
            ∙ push-room size_of ys z (outside z) room
                (referent-form ys z (outside z) (suc room) refl))
      ∙ ap (λ (n : ℕ). copy_up size_of (length zs) n other (form (ys ++ (z ∷ [])) room))
          (sym (length-append ys (z ∷ [])))
      ∙ copied size_of zs (ys ++ (z ∷ [])) k room (subst (Holds size_of other) (sym regroup) o)
          (omega (arith, e))
      ∙ ap (λ l. ok (form l k)) regroup

  reserved :
      (size_of n : ℕ)
      → 0 < size_of
      → suc n * size_of < 2 ^ 64
      → reserve size_of (suc n) (empty {T = T}) ≡ ok (form [] (suc n))
  unfolding reserve reallocate rebuild empty
  reserved size_of n sized bytes = rw (positive n) (
      vec_eq refl (omega arith)
        (ap (λ k. replicate k none) (allocated-fits size_of (suc n) sized bytes)))

  copied_null :
      (size_of : ℕ)
      → (reserve size_of 0 (empty {T = T}) >>= λ v. copy_up size_of 0 0 (empty {T = T}) v)
        ≡ ok empty
  unfolding reserve copy_up empty
  copied_null size_of = refl

  copied_form :
      (size_of : ℕ) (xs : List T) (spare capacity : ℕ)
      → 0 < size_of
      → (length xs + spare) * size_of < 2 ^ 64
      → capacity ≡ length xs + spare
      → Returns
          (reserve size_of capacity empty >>= λ v. copy_up size_of (length xs) 0 (form xs spare) v)
          λ w. Holds size_of w xs
  unfolding reserve copy_up empty
  copied_form size_of [] spare zero sized fit e = (empty, refl, null refl refl)
  copied_form size_of (x ∷ xs) spare zero sized fit e = absurd (omega (arith, e))
  copied_form size_of xs spare (suc n) sized fit e = (
    form xs spare,
    ap (λ r. r >>= λ v. copy_up size_of (length xs) 0 (form xs spare) v)
          (reserved size_of n sized (subst (λ (c : ℕ). c * size_of < 2 ^ 64) (sym e) fit))
        ∙ copied size_of xs [] spare (suc n) (buffered spare fit refl) e,
    buffered spare fit refl,
  )

  -- The copy of a vector, the bytes of whose buffer a `size_t` counts, holds the same elements.
  pub copy_lem :
      (size_of : ℕ) {v : Vector T} {xs : List T}
      → 0 < size_of
      → Holds size_of v xs
      → Returns (copy size_of v) λ w. Holds size_of w xs
  unfolding copy empty
  copy_lem size_of {v} {xs} sized (null e f) =
      subst (λ u. Returns (copy size_of u) λ w. Holds size_of w xs) (sym e)
        (empty, copied_null size_of, null refl f)
  copy_lem size_of {v} {xs} sized (buffered spare fit e) =
      subst (λ u. Returns (copy size_of u) λ w. Holds size_of w xs) (sym e)
        (copied_form size_of xs spare (length xs + spare) sized fit refl)

  living-row : (xs : List T) (spare : ℕ) → living (row xs spare) ≡ length xs
  unfolding living
  living-row [] spare = living-none T spare
  living-row (x ∷ xs) spare = omega (arith, living-row xs spare)

  -- The move assignment, for vectors the bytes of whose buffers a `size_t` counts, hands the elements
  -- over, leaves an empty vector, and deletes the old buffer with all the old elements
  -- still living in it.
  pub move_assign_leaks :
      {size_of : ℕ} {v other : Vector T} {xs ys : List T}
      → Holds size_of v xs
      → Holds size_of other ys
      → Holds size_of (move_assign v other).0 ys
        × Holds size_of (move_assign v other).1 []
        × ((move_assign v other).2 ≡ length xs)
  unfolding move_assign empty
  move_assign_leaks {v = v} {other = other} (null e f) o =
      (o, null refl refl, ap (λ u. (move_assign u other).2) e ∙ sym (ap length f))
  move_assign_leaks {v = v} {other = other} {xs = xs} (buffered spare fit e) o =
      (o, null refl refl, ap (λ u. (move_assign u other).2) e ∙ living-row xs spare)

  -- The destructor destroys every element.
  pub destructor_lem :
      {size_of : ℕ} {v : Vector T} {xs : List T} → Holds size_of v xs → destructor v ≡ ok 0
  unfolding destructor empty
  destructor_lem (null e f) = ap destructor e
  destructor_lem {xs = xs} (buffered spare fit e) =
      ap destructor e
      ∙ ap (λ r. r >>= λ t. ok (living t)) (destroyed xs [] (replicate spare none) 0 refl)
      ∙ ap ok (living-cleared T (length xs) spare)
