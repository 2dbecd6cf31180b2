-- ===== src/Leet/Addition/Sums.antt =====
-- Leet/leetx.cpp: the result has the digits of the sum, and the two solutions agree.
use mathlib.Core.List.{append_assoc, append-nil}
use git_docs_test.Common.{
  ℕ, zero, suc, ◌+◌, ◌*◌, ◌^◌, ltb, ◌/◌, ◌%◌, ◌<◌, ◌≤◌, ◌≡◌, refl, sym, ap, ◌∙◌, Bool, true, false,
  ◌&&◌, ◌||◌, not, List, [], ◌∷◌, ◌++◌, length, ◌==◌, if◌then◌else◌, Result, ok, throws, undefined,
  ◌>>=◌, Returns, arith,
}
use git_docs_test.Leet.Addition.Calls.{add_from_run, Moderate, add_from-Ends}
use git_docs_test.Leet.Addition.{
  is_null, val_or_zero, next_or_null, add_from, add_two_numbers, add_while, add_two_numbers_in_loop,
}

-- the number with these digits, the lowest first
abbrev pub value : List ℕ → ℕ
value [] = 0
value (d ∷ ds) = d + 10 * value ds

abbrev pub Digits : List ℕ → Type 0
Digits [] = Unit {0}
Digits (d ∷ ds) = (d < 10) × Digits ds

abbrev IsSum : ℕ → List ℕ → Type 0
IsSum n r = (value r ≡ n) × Digits r

Digits-next : (l : List ℕ) → Digits l → Digits (next_or_null l)
unfolding next_or_null
Digits-next [] h = tt
Digits-next (d ∷ ds) h = h.1

val_small : (l : List ℕ) → Digits l → val_or_zero l < 10
unfolding val_or_zero
val_small [] h = omega arith
val_small (d ∷ ds) h = h.0

value-split : (l : List ℕ) → value l ≡ val_or_zero l + 10 * value (next_or_null l)
unfolding val_or_zero next_or_null
value-split [] = refl
value-split (d ∷ ds) = refl

room-next : (l : List ℕ) (n : ℕ) → length l + 2 ≤ suc n → 2 ≤ n → length (next_or_null l) + 2 ≤ n
unfolding next_or_null
room-next [] n h h' = omega arith
room-next (d ∷ ds) n h h' = omega arith

-- One digit, in front of the sum of what follows.
step :
    (fuel : ℕ) (l₁ l₂ : List ℕ) (forward : ℕ)
    → (is_null l₁ && is_null l₂ && (forward == 0)) ≡ false
    → forward ≤ 1
    → Digits l₁
    → Digits l₂
    → Returns
        (add_from fuel
          (next_or_null l₁)
          (next_or_null l₂)
          ((forward + val_or_zero l₁ + val_or_zero l₂) / 10))
        (IsSum (
          (forward + val_or_zero l₁ + val_or_zero l₂) / 10
          + value (next_or_null l₁)
          + value (next_or_null l₂)))
    → Returns (add_from (suc fuel) l₁ l₂ forward) (IsSum (forward + value l₁ + value l₂))
step fuel l₁ l₂ forward more small d₁ d₂ (r, e, (v, d)) = (
  (forward + val_or_zero l₁ + val_or_zero l₂) % 10 ∷ r,
  add_from_run fuel l₁ l₂ forward r more (omega (arith, val_small l₁ d₁, val_small l₂ d₂)) e,
  (omega (arith, v, value-split l₁, value-split l₂), (omega arith, d)),
)

-- only a carry is left
add_carry :
    (fuel forward : ℕ)
    → forward ≤ 1
    → Returns (add_from (suc (suc fuel)) [] [] forward) (IsSum (forward + 0 + 0))
unfolding add_from
add_carry fuel zero h = ([], refl, (refl, tt))
add_carry fuel (suc zero) h = (1 ∷ [], refl, (refl, (omega arith, tt)))
add_carry fuel (suc (suc n)) h = absurd (omega arith)

-- The round for two lists that are not both empty, with the sum of what follows it.
add_from_sum :
    (fuel : ℕ) (l₁ l₂ : List ℕ) (forward : ℕ)
    → length l₁ + 2 ≤ fuel
    → length l₂ + 2 ≤ fuel
    → Digits l₁
    → Digits l₂
    → forward ≤ 1
    → Returns (add_from fuel l₁ l₂ forward) (IsSum (forward + value l₁ + value l₂))
unfolding is_null
add_from_sum zero l₁ l₂ forward f₁ f₂ d₁ d₂ h = absurd (omega arith)
add_from_sum (suc zero) l₁ l₂ forward f₁ f₂ d₁ d₂ h = absurd (omega arith)
add_from_sum (suc (suc fuel)) [] [] forward f₁ f₂ d₁ d₂ h = add_carry fuel forward h
add_from_sum (suc (suc fuel)) [] (y ∷ ys) forward f₁ f₂ d₁ d₂ h =
    step (suc fuel) [] (y ∷ ys) forward refl h d₁ d₂ (
      add_from_sum (suc fuel) (next_or_null []) (next_or_null (y ∷ ys))
        ((forward + val_or_zero [] + val_or_zero (y ∷ ys)) / 10)
        (room-next [] (suc fuel) f₁ (omega arith)) (room-next (y ∷ ys) (suc fuel) f₂ (omega arith))
        (Digits-next [] d₁) (Digits-next (y ∷ ys) d₂)
        (omega (arith, val_small [] d₁, val_small (y ∷ ys) d₂)))
add_from_sum (suc (suc fuel)) (x ∷ xs) l₂ forward f₁ f₂ d₁ d₂ h =
    step (suc fuel) (x ∷ xs) l₂ forward refl h d₁ d₂ (
      add_from_sum (suc fuel) (next_or_null (x ∷ xs)) (next_or_null l₂)
        ((forward + val_or_zero (x ∷ xs) + val_or_zero l₂) / 10)
        (room-next (x ∷ xs) (suc fuel) f₁ (omega arith)) (room-next l₂ (suc fuel) f₂ (omega arith))
        (Digits-next (x ∷ xs) d₁) (Digits-next l₂ d₂)
        (omega (arith, val_small (x ∷ xs) d₁, val_small l₂ d₂)))

-- For two lists of digits, addTwoNumbers of Solution returns a list of digits whose number is the
-- sum of theirs.
pub add_two_numbers_lem :
    (l₁ l₂ : List ℕ)
    → Digits l₁
    → Digits l₂
    → Returns (add_two_numbers l₁ l₂) (λ r. (value r ≡ value l₁ + value l₂) × Digits r)
unfolding add_two_numbers
add_two_numbers_lem l₁ l₂ d₁ d₂ =
    let (r, e, (v, d)) =
      add_from_sum (length l₁ + length l₂ + 12) l₁ l₂ 0 (omega arith) (omega arith) d₁ d₂
        (omega arith) in
    (r, e, (omega (arith, v), d))

pushed :
    (rest : Result (List ℕ)) (made : List ℕ) (d : ℕ)
    → (rest >>= λ r. ok ((made ++ (d ∷ [])) ++ r))
      ≡ ((rest >>= λ next. ok (d ∷ next)) >>= λ r. ok (made ++ r))
pushed undefined made d = refl
pushed (throws error) made d = refl
pushed (ok r) made d = ap (λ (l : List ℕ). ok l) (append_assoc made (d ∷ []) r)

under_bound :
    (small : Bool) (loop rest : Result (List ℕ)) (made : List ℕ) (d : ℕ)
    → loop ≡ (rest >>= λ r. ok ((made ++ (d ∷ [])) ++ r))
    → (if small then loop else undefined)
      ≡ ((if small then (rest >>= λ next. ok (d ∷ next)) else undefined) >>= λ r. ok (made ++ r))
under_bound true loop rest made d e = e ∙ pushed rest made d
under_bound false loop rest made d e = refl

-- One round of the loop and one call of the recursion, under the same three tests.
round_call :
    (a b c small : Bool) (loop rest : Result (List ℕ)) (made : List ℕ) (d : ℕ)
    → loop ≡ (rest >>= λ r. ok ((made ++ (d ∷ [])) ++ r))
    → (if not a || not b || not c then (if small then loop else undefined) else ok made) ≡ (
        (if a && b && c
          then ok []
          else (if small then (rest >>= λ next. ok (d ∷ next)) else undefined))
        >>= λ r. ok (made ++ r))
round_call true true true small loop rest made d e =
    ap (λ (l : List ℕ). ok l) (sym (append-nil made))
round_call true true false small loop rest made d e = under_bound small loop rest made d e
round_call true false c small loop rest made d e = under_bound small loop rest made d e
round_call false b c small loop rest made d e = under_bound small loop rest made d e

add_while-add_from :
    (fuel : ℕ) (l₁ l₂ : List ℕ) (carry : ℕ) (made : List ℕ)
    → add_while fuel l₁ l₂ carry made ≡ (add_from fuel l₁ l₂ carry >>= λ r. ok (made ++ r))
unfolding add_while add_from
add_while-add_from zero l₁ l₂ carry made = refl
add_while-add_from (suc fuel) l₁ l₂ carry made =
    let sum = carry + val_or_zero l₁ + val_or_zero l₂ in
    round_call (is_null l₁) (is_null l₂) (carry == 0) (ltb sum (2 ^ 31))
      (add_while fuel (next_or_null l₁) (next_or_null l₂) (sum / 10) (made ++ (sum % 10 ∷ [])))
      (add_from fuel (next_or_null l₁) (next_or_null l₂) (sum / 10)) made (sum % 10)
      (add_while-add_from fuel (next_or_null l₁) (next_or_null l₂) (sum / 10)
        (made ++ (sum % 10 ∷ [])))

-- For two lists of values below 2^29, the recursion of Solution returns, and the loop of Solution2
-- returns the same list.
pub loop_recursion :
    (l₁ l₂ : List ℕ)
    → Moderate l₁
    → Moderate l₂
    → Returns (add_two_numbers l₁ l₂) (λ r. add_two_numbers_in_loop l₁ l₂ ≡ ok r)
unfolding add_two_numbers_in_loop add_two_numbers
loop_recursion l₁ l₂ s₁ s₂ =
    let fuel = length l₁ + length l₂ + 12 in
    let (r, e, _) = add_from-Ends fuel l₁ l₂ 0 s₁ s₂ (omega arith) (omega arith) in
    (r, e, add_while-add_from fuel l₁ l₂ 0 [] ∙ ap (λ c. c >>= λ r. ok r) e)
