-- ===== src/Leet/Addition.antt =====
-- Leet/leetx.cpp, addTwoNumbers of Solution and Solution2. A `ListNode*` is the list of the values
-- behind it, which are not negative. A sum that no `int` can hold is undefined.
pub mod Calls
pub mod Sums
mod Tests
use git_docs_test.Common.{
  ℕ, zero, suc, ◌+◌, ◌/◌, ◌%◌, ◌^◌, ltb, Bool, true, false, ◌&&◌, ◌||◌, not, List, [], ◌∷◌, ◌++◌,
  length, ◌==◌, if◌then◌else◌, Result, ok, undefined, ◌>>=◌,
}

unfoldable pub is_null : List ℕ → Bool
is_null [] = true
is_null (x ∷ xs) = false

-- `l->val` and `l->next` where `l` is not null, else nothing is added and null is passed on.
unfoldable pub val_or_zero : List ℕ → ℕ
val_or_zero [] = 0
val_or_zero (x ∷ xs) = x

unfoldable pub next_or_null : List ℕ → List ℕ
next_or_null [] = []
next_or_null (x ∷ xs) = xs

-- `__addTwoNumbers` of Solution, on fuel for its depth
unfoldable pub add_from : ℕ → List ℕ → List ℕ → ℕ → Result (List ℕ)
unfolding is_null val_or_zero next_or_null
add_from zero l₁ l₂ forward = undefined
add_from (suc fuel) l₁ l₂ forward =
    let vl₃ = forward + val_or_zero l₁ + val_or_zero l₂ in
    let rest = add_from fuel (next_or_null l₁) (next_or_null l₂) (vl₃ / 10) in
    if is_null l₁ && is_null l₂ && (forward == 0)
    then ok []
    else (if ltb vl₃ (2 ^ 31) then (rest >>= λ next. ok (vl₃ % 10 ∷ next)) else undefined)

-- The fuel is above its depth: both lists, and ten digits of a carry.
unfoldable pub add_two_numbers : List ℕ → List ℕ → Result (List ℕ)
unfolding add_from
add_two_numbers l₁ l₂ = add_from (length l₁ + length l₂ + 12) l₁ l₂ 0

-- The loop of Solution2, on fuel for its rounds; `made` is the list from `dummy.next` to `tail`.
unfoldable pub add_while : ℕ → List ℕ → List ℕ → ℕ → List ℕ → Result (List ℕ)
unfolding is_null val_or_zero next_or_null
add_while zero l₁ l₂ carry made = undefined
add_while (suc fuel) l₁ l₂ carry made =
    let sum = carry + val_or_zero l₁ + val_or_zero l₂ in
    let rest =
      add_while fuel (next_or_null l₁) (next_or_null l₂) (sum / 10) (made ++ (sum % 10 ∷ [])) in
    if not (is_null l₁) || not (is_null l₂) || not (carry == 0)
    then (if ltb sum (2 ^ 31) then rest else undefined)
    else ok made

unfoldable pub add_two_numbers_in_loop : List ℕ → List ℕ → Result (List ℕ)
unfolding add_while
add_two_numbers_in_loop l₁ l₂ = add_while (length l₁ + length l₂ + 12) l₁ l₂ 0 []
