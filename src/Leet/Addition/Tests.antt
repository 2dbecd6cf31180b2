-- ===== src/Leet/Addition/Tests.antt =====
-- Leet/leetx.cpp: 342 + 465, and 99 + 1 with a last carry.
use git_docs_test.Common.{◌+◌, ◌≡◌, refl, [], ◌∷◌, ok, Returns, arith}
use git_docs_test.Leet.Addition.{add_two_numbers, add_two_numbers_in_loop}
use git_docs_test.Leet.Addition.Sums.{value, Digits, add_two_numbers_lem, loop_recursion}

hundred : add_two_numbers_in_loop (9 ∷ 9 ∷ []) (1 ∷ []) ≡ ok (0 ∷ 0 ∷ 1 ∷ [])
unfolding add_two_numbers_in_loop
hundred = refl

add_two_numbers_lem_example :
    Returns
      (add_two_numbers (2 ∷ 4 ∷ 3 ∷ []) (5 ∷ 6 ∷ 4 ∷ []))
      (λ r. (value r ≡ value (2 ∷ 4 ∷ 3 ∷ []) + value (5 ∷ 6 ∷ 4 ∷ [])) × Digits r)
add_two_numbers_lem_example =
    add_two_numbers_lem (2 ∷ 4 ∷ 3 ∷ []) (5 ∷ 6 ∷ 4 ∷ [])
      (omega arith, (omega arith, (omega arith, tt)))
      (omega arith, (omega arith, (omega arith, tt)))

loop_recursion_example :
    Returns
      (add_two_numbers (100000 ∷ 9 ∷ []) (1 ∷ []))
      (λ r. add_two_numbers_in_loop (100000 ∷ 9 ∷ []) (1 ∷ []) ≡ ok r)
loop_recursion_example =
    loop_recursion (100000 ∷ 9 ∷ []) (1 ∷ []) (omega arith, (omega arith, tt)) (omega arith, tt)
