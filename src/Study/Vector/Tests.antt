-- ===== src/Study/Vector/Tests.antt =====
-- Study/vector.cpp on a few numbers.
use git_docs_test.Common.{
  ℕ, ◌*◌, ◌^◌, ◌<◌, ◌≡◌, refl, false, none, some, [], ◌∷◌, ◌++◌, ok, throws, undefined,
  empty_vector, out_of_bounds, Returns, arith,
}
use git_docs_test.Study.Vector
use git_docs_test.Study.Vector.{Vector}
use git_docs_test.Study.Vector.Contents.{Holds, buffered}
use git_docs_test.Study.Vector.Methods.{push_back_lem}
use git_docs_test.Study.Vector.Copies.{copy_lem, move_assign_leaks}

abbrev two : Vector ℕ
two = record { size = 2; capacity = 2; buffer = some (some 5 ∷ some 6 ∷ []) }

abbrev three : Vector ℕ
three = record { size = 3; capacity = 4; buffer = some (some 5 ∷ some 6 ∷ some 7 ∷ none ∷ []) }

grown : Vector.push_back 4 two (Vector.outside 7) ≡ ok three
unfolding Vector.push_back
grown = refl

pop_empty : Vector.pop_back (Vector.empty {T = ℕ}) ≡ throws empty_vector
unfolding Vector.pop_back Vector.empty
pop_empty = refl

outside : Vector.at three 3 ≡ throws out_of_bounds
unfolding Vector.at
outside = refl

copied : Vector.copy 4 two ≡ ok two
unfolding Vector.copy
copied = refl

assigned :
    Vector.copy_assign 4 three two
    ≡ ok (record three { size = 2; buffer = some (some 5 ∷ some 6 ∷ none ∷ none ∷ []) })
unfolding Vector.copy_assign
assigned = refl

filled_raw : Vector.filled {T = ℕ} 4 false 2 5 ≡ undefined
unfolding Vector.filled
filled_raw = refl

two-Holds : Holds 4 two (5 ∷ 6 ∷ [])
two-Holds = buffered 0 (omega arith) refl

three-Holds : Holds 4 three ((5 ∷ 6 ∷ []) ++ (7 ∷ []))
three-Holds = buffered 1 (omega arith) refl

-- A vector that is full deletes the element that is to be copied.
own_element : Vector.push_back 4 two (Vector.inside 0) ≡ undefined
unfolding Vector.push_back
own_element = refl

grown_bytes : Vector.grown 3 * 4 < 2 ^ 64
unfolding Vector.grown
grown_bytes = omega arith

-- The bytes of 2^62 numbers of four bytes wrap to none.
wrapped_buffer :
    Vector.push_back 4 (Vector.with_capacity {T = ℕ} 4 (2 ^ 62)) (Vector.outside 5) ≡ undefined
unfolding Vector.push_back Vector.with_capacity
wrapped_buffer = refl

push_back_lem_example :
    Returns
      (Vector.push_back 4 three (Vector.inside 1))
      λ w. Holds 4 w ((5 ∷ 6 ∷ 7 ∷ []) ++ (6 ∷ []))
push_back_lem_example =
    push_back_lem 4 {xs = 5 ∷ 6 ∷ 7 ∷ []} 6 (Vector.inside 1) (omega arith)
      (buffered 1 (omega arith) refl) refl (omega arith) (omega arith) grown_bytes

copy_lem_example : Returns (Vector.copy 4 two) λ w. Holds 4 w (5 ∷ 6 ∷ [])
copy_lem_example = copy_lem 4 (omega arith) two-Holds

move_assign_leaks_example :
    Holds 4 (Vector.move_assign two three).0 (5 ∷ 6 ∷ 7 ∷ [])
    × Holds 4 (Vector.move_assign two three).1 []
    × ((Vector.move_assign two three).2 ≡ 2)
move_assign_leaks_example = move_assign_leaks two-Holds three-Holds
