-- ===== src/Queue/Ring.antt =====
-- The storage that the lock-free queues of HFT/Queue.hpp share: a vector of `capacity` slots, a
-- power of two, addressed by positions that count up modulo 2^64 and are masked on access.
use git_docs_test.Common.{
  ℕ, zero, suc, ◌+◌, ◌-◌, ◌%◌, ◌^◌, ◌≤◌, ◌<◌, ◌≡◌, ◌≢◌, refl, sym, ap, ap₂, ◌∙◌, List, [], ◌∷◌,
  ◌++◌, arith, length, get_or, set,
}
use native.Mathlib.Nat.{mod-eq_of_lt, mod-add-mod, mod-eq-sub-mod, mod-lt}
use native.Mathlib.Decide.{dec_lt}

-- `size_t` subtraction, which wraps
abbrev pub word_sub : ℕ → ℕ → ℕ
word_sub a b = (a + 2 ^ 64 - b) % 2 ^ 64

module _ {ℓ} {A : Type ℓ} (d : A) where
  -- the `n` slots from position `h` on
  unfoldable pub window : List A → ℕ → ℕ → ℕ → List A
  window buf cap h zero = []
  window buf cap h (suc n) = get_or buf (h % cap) d ∷ window buf cap (h + 1) n

  pub length-window : (buf : List A) (cap h n : ℕ) → length (window buf cap h n) ≡ n
  unfolding window
  length-window buf cap h zero = refl
  length-window buf cap h (suc n) = ap suc (length-window buf cap (h + 1) n)

  -- A window depends on its position only modulo the capacity.
  pub window_congr :
      (buf : List A) (cap h g n : ℕ) → h % cap ≡ g % cap → window buf cap h n ≡ window buf cap g n
  unfolding window
  window_congr buf cap h g zero e = refl
  window_congr buf cap h g (suc n) e =
      ap₂ ◌∷◌ (ap (λ i. get_or buf i d) e) (window_congr buf cap (h + 1) (g + 1) n next)
    where
      next : (h + 1) % cap ≡ (g + 1) % cap
      next = sym (mod-add-mod h cap 1) ∙ ap (λ (x : ℕ). (x + 1) % cap) e ∙ mod-add-mod g cap 1

  -- Two positions less than a capacity apart are different slots.
  pub slot-ne : (cap h k : ℕ) → 0 < k → k < cap → (h + k) % cap ≢ h % cap
  slot-ne cap h k pos lt same =
      let start = mod-lt h {m = cap} (omega arith) in
      let sum = mod-add-mod h cap k in
      elim (dec_lt (h % cap + k) cap) [
        | yes p ↦ omega (arith, start, sum, mod-eq_of_lt p)
        | no p ↦ omega (
          arith,
          start,
          sum,
          mod-eq-sub-mod {n = h % cap + k} {m = cap} (omega arith),
          mod-eq_of_lt {n = h % cap + k - cap} {m = cap} (omega (arith, start)),
        )
      ]

  pub get_or-set_ne' :
      (xs : List A) (i j : ℕ) (v : A) → i ≢ j → get_or (set xs i v) j d ≡ get_or xs j d
  get_or-set_ne' [] i j v h = refl
  get_or-set_ne' (x ∷ xs) zero zero v h = absurd (h refl)
  get_or-set_ne' (x ∷ xs) zero (suc j) v h = refl
  get_or-set_ne' (x ∷ xs) (suc i) zero v h = refl
  get_or-set_ne' (x ∷ xs) (suc i) (suc j) v h = get_or-set_ne' xs i j v (λ e. h (ap suc e))

  pub get_or-set_self : (xs : List A) (i : ℕ) (v : A) → i < length xs → get_or (set xs i v) i d ≡ v
  get_or-set_self [] i v h = absurd (omega arith)
  get_or-set_self (x ∷ xs) zero v h = refl
  get_or-set_self (x ∷ xs) (suc i) v h = get_or-set_self xs i v (omega arith)

  -- A write to the slot behind a window extends the window.
  pub window-set :
      (buf : List A) (cap h n : ℕ) (x : A)
      → cap ≤ length buf
      → n < cap
      → window (set buf ((h + n) % cap) x) cap h (suc n) ≡ window buf cap h n ++ (x ∷ [])
  unfolding window
  window-set buf cap h zero x wide lt =
      ap (λ y. y ∷ [])
        (ap (λ i. get_or (set buf i x) (h % cap) d) (ap (λ (i : ℕ). i % cap) (omega arith))
          ∙ get_or-set_self buf (h % cap) x (omega (arith, mod-lt h {m = cap} (omega arith))))
  window-set buf cap h (suc n) x wide lt =
      ap₂ ◌∷◌ (get_or-set_ne' buf _ _ x (slot-ne cap h (suc n) (omega arith) lt)) (
        ap (λ i. window (set buf i x) cap (h + 1) (suc n)) (ap (λ (i : ℕ). i % cap) (omega arith))
        ∙ window-set buf cap (h + 1) n x wide (omega arith))

  pub window_keep :
      (buf : List A) (cap h i m : ℕ) (x : A)
      → ((j : ℕ) → j < m → i ≢ (h + j) % cap)
      → window (set buf i x) cap h m ≡ window buf cap h m
  unfolding window
  window_keep buf cap h i zero x far = refl
  window_keep buf cap h i (suc m) x far =
      ap₂ ◌∷◌ (get_or-set_ne' buf i (h % cap) x head_far)
        (window_keep buf cap (h + 1) i m x tail_far)
    where
      head_far : i ≢ h % cap
      head_far e = far 0 (omega arith) (e ∙ ap (λ (k : ℕ). k % cap) (omega arith))

      tail_far : (j : ℕ) → j < m → i ≢ (h + 1 + j) % cap
      tail_far j lt e = far (suc j) (omega arith) (e ∙ ap (λ (k : ℕ). k % cap) (omega arith))

  -- A write to the slot behind a window leaves the window as it is.
  pub window-set_behind :
      (buf : List A) (cap h n : ℕ) (x : A)
      → n < cap
      → window (set buf ((h + n) % cap) x) cap h n ≡ window buf cap h n
  window-set_behind buf cap h n x lt = window_keep buf cap h ((h + n) % cap) n x (λ j below e.
      slot-ne cap (h + j) (n - j) (omega arith) (omega arith)
        (ap (λ (k : ℕ). k % cap) {x = h + j + (n - j)} {y = h + n} (omega arith) ∙ e))

  -- A window of one more slot ends in that slot.
  pub window-suc :
      (buf : List A) (cap h n : ℕ)
      → window buf cap h (suc n) ≡ window buf cap h n ++ (get_or buf ((h + n) % cap) d ∷ [])
  unfolding window
  window-suc buf cap h zero = ap (λ (i : ℕ). get_or buf (i % cap) d ∷ []) (omega arith)
  window-suc buf cap h (suc n) =
      ap (λ w. get_or buf (h % cap) d ∷ w)
        (window-suc buf cap (h + 1) n
          ∙ ap (λ (i : ℕ). window buf cap (h + 1) n ++ (get_or buf (i % cap) d ∷ [])) (omega arith))
