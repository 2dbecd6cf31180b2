-- ===== src/Leet/Addition/Calls.antt =====
-- Leet/leetx.cpp: one call of the recursion, and that the recursion ends.
use native.Mathlib.Nat.{pow-suc}
use git_docs_test.Common.{
  ℕ, zero, suc, ◌+◌, ◌^◌, ltb, ◌/◌, ◌%◌, ◌<◌, ◌≤◌, ◌≡◌, refl, true, false, ◌&&◌, List, [], ◌∷◌,
  length, ◌==◌, Result, ok, Returns, arith,
}
use git_docs_test.Leet.Addition.{is_null, val_or_zero, next_or_null, add_from}

below : (a b : ℕ) → a < b → ltb a b ≡ true
below a b h = ground arith

-- One call that is not the last.
pub add_from_run :
    (fuel : ℕ) (l₁ l₂ : List ℕ) (forward : ℕ) (r : List ℕ)
    → (is_null l₁ && is_null l₂ && (forward == 0)) ≡ false
    → forward + val_or_zero l₁ + val_or_zero l₂ < 2 ^ 31
    → add_from fuel
        (next_or_null l₁)
        (next_or_null l₂)
        ((forward + val_or_zero l₁ + val_or_zero l₂) / 10)
      ≡ ok r
    → add_from (suc fuel) l₁ l₂ forward ≡ ok ((forward + val_or_zero l₁ + val_or_zero l₂) % 10 ∷ r)
unfolding add_from
add_from_run fuel l₁ l₂ forward r more small e =
    rw (more, below (forward + val_or_zero l₁ + val_or_zero l₂) (2 ^ 31) small, e) refl

-- values of which two and a carry are an `int`
abbrev pub Moderate : List ℕ → Type 0
Moderate [] = Unit {0}
Moderate (d ∷ ds) = (d < 2 ^ 29) × Moderate ds

Moderate-next : (l : List ℕ) → Moderate l → Moderate (next_or_null l)
unfolding next_or_null
Moderate-next [] h = tt
Moderate-next (d ∷ ds) h = h.1

val-Moderate : (l : List ℕ) → Moderate l → val_or_zero l < 2 ^ 29
unfolding val_or_zero
val-Moderate [] h = omega arith
val-Moderate (d ∷ ds) h = h.0

abbrev pub Ends : Result (List ℕ) → Type 0
Ends call = Returns call (λ r. Unit {0})

add_from_end : (fuel : ℕ) → add_from (suc fuel) [] [] 0 ≡ ok []
unfolding add_from
add_from_end fuel = refl

not_zero : (c : ℕ) → (suc c == 0) ≡ false
not_zero c = ground arith

-- The digits of a carry end.
carry-Ends :
    (k fuel carry : ℕ)
    → carry < 10 ^ k
    → carry < 2 ^ 30
    → k < fuel
    → Ends (add_from fuel [] [] carry)
unfolding is_null val_or_zero next_or_null
carry-Ends k zero carry h h' f = absurd (omega arith)
carry-Ends k (suc fuel) zero h h' f = ([], add_from_end fuel, tt)
carry-Ends zero (suc fuel) (suc c) h h' f = absurd (omega arith)
carry-Ends (suc k) (suc fuel) (suc c) h h' f =
    let (r, e, _) =
      carry-Ends k fuel ((suc c + val_or_zero [] + val_or_zero []) / 10)
        (omega (arith, pow-suc 10 k)) (omega arith) (omega arith) in
    (
      (suc c + val_or_zero [] + val_or_zero []) % 10 ∷ r,
      add_from_run fuel [] [] (suc c) r (not_zero c) (omega arith) e,
      tt,
    )

-- one call for lists that are not both empty
call-Ends :
    (fuel : ℕ) (l₁ l₂ : List ℕ) (carry : ℕ)
    → (is_null l₁ && is_null l₂ && (carry == 0)) ≡ false
    → Moderate l₁
    → Moderate l₂
    → carry < 2 ^ 30
    → Ends (
        add_from fuel
          (next_or_null l₁)
          (next_or_null l₂)
          ((carry + val_or_zero l₁ + val_or_zero l₂) / 10))
    → Ends (add_from (suc fuel) l₁ l₂ carry)
call-Ends fuel l₁ l₂ carry more s₁ s₂ h (r, e, _) = (
  (carry + val_or_zero l₁ + val_or_zero l₂) % 10 ∷ r,
  add_from_run fuel l₁ l₂ carry r more (omega (arith, val-Moderate l₁ s₁, val-Moderate l₂ s₂)) e,
  tt,
)

pub add_from-Ends :
    (fuel : ℕ) (l₁ l₂ : List ℕ) (carry : ℕ)
    → Moderate l₁
    → Moderate l₂
    → carry < 2 ^ 30
    → length l₁ + length l₂ + 11 ≤ fuel
    → Ends (add_from fuel l₁ l₂ carry)
unfolding is_null next_or_null
add_from-Ends zero l₁ l₂ carry s₁ s₂ h f = absurd (omega arith)
add_from-Ends (suc fuel) [] [] carry s₁ s₂ h f =
    carry-Ends 10 (suc fuel) carry (omega arith) h (omega arith)
add_from-Ends (suc fuel) [] (y ∷ ys) carry s₁ s₂ h f =
    call-Ends fuel [] (y ∷ ys) carry refl s₁ s₂ h (
      add_from-Ends fuel [] ys ((carry + val_or_zero [] + val_or_zero (y ∷ ys)) / 10) tt s₂.1
        (omega (arith, val-Moderate [] s₁, val-Moderate (y ∷ ys) s₂)) (omega arith))
add_from-Ends (suc fuel) (x ∷ xs) [] carry s₁ s₂ h f =
    call-Ends fuel (x ∷ xs) [] carry refl s₁ s₂ h (
      add_from-Ends fuel xs [] ((carry + val_or_zero (x ∷ xs) + val_or_zero []) / 10) s₁.1 tt
        (omega (arith, val-Moderate (x ∷ xs) s₁, val-Moderate [] s₂)) (omega arith))
add_from-Ends (suc fuel) (x ∷ xs) (y ∷ ys) carry s₁ s₂ h f =
    call-Ends fuel (x ∷ xs) (y ∷ ys) carry refl s₁ s₂ h (
      add_from-Ends fuel xs ys ((carry + val_or_zero (x ∷ xs) + val_or_zero (y ∷ ys)) / 10) s₁.1
        s₂.1 (omega (arith, val-Moderate (x ∷ xs) s₁, val-Moderate (y ∷ ys) s₂)) (omega arith))
