-- ===== src/Common/Power.antt =====
-- Powers of two: the test `(c & (c - 1)) == 0` of the constructors, and remainders of remainders.
use Prim.Native.Nat.{ℕ, zero, suc, ◌+◌, ◌-◌, ◌*◌, ◌/◌, ◌%◌, ◌^◌, ◌≤◌, ◌<◌, ◌∣◌, bit_and}
use mathlib.Core.Path.{◌≡◌, refl, ap, sym, ◌∙◌, subst}
use mathlib.Core.Logic.{◌⊎◌, inl, inr}
use native.Mathlib.Nat.{pow-suc, one-le-pow, mod-mod_of_dvd, mod_self, add-zero, dvd-mul_right}
use native.Mathlib.Decide.{dec_lt}
use native.Mathlib.Omega.{arith}
use mathlib.Core.Bool.{true, false, ◌||◌, not}
use git_docs_test.Common.Tests.{◌==◌, Bool-cases}
use git_docs_test.Common.Bits.{and_digit, bit_and-mask}

-- `c` is a power of two.
abbrev pub IsPowerOfTwo : ℕ → Type 0
IsPowerOfTwo c = (k : ℕ) × (c ≡ 2 ^ k)

bit_and-self_upto : (n a : ℕ) → a ≤ n → bit_and a a ≡ a
bit_and-self_upto zero a h = ground (arith, and_digit 0 0)
bit_and-self_upto (suc n) zero h = refl
bit_and-self_upto (suc n) (suc a) h =
    omega (arith, and_digit (suc a) (suc a), bit_and-self_upto n (suc a / 2) (omega arith))

parity : (c : ℕ) → (c % 2 ≡ 0) ⊎ (c % 2 ≡ 1)
parity c = omega arith

power_upto : (n c : ℕ) → c ≤ n → 0 < c → bit_and c (c - 1) ≡ 0 → IsPowerOfTwo c
power_upto zero c h pos e = absurd (omega arith)
power_upto (suc n) c h pos e = elim (parity c) [
  | inr odd ↦ (0, odd_one odd)
  | inl even ↦
      let (k, p) = power_upto n (c / 2) (omega arith) (omega arith) (half even) in
      (suc k, omega (arith, pow-suc 2 k))
]
  where
    odd_one : c % 2 ≡ 1 → c ≡ 1
    odd_one odd = ground (
      arith,
      and_digit c (c - 1),
      bit_and-self_upto (c / 2) (c / 2),
      ap (λ (x : ℕ). bit_and (c / 2) x) (same odd),
    )
      where
        same : c % 2 ≡ 1 → (c - 1) / 2 ≡ c / 2
        same q = omega arith

    half : c % 2 ≡ 0 → bit_and (c / 2) (c / 2 - 1) ≡ 0
    half even = ground (arith, and_digit c (c - 1), ap (λ (x : ℕ). bit_and (c / 2) x) (below even))
      where
        below : c % 2 ≡ 0 → (c - 1) / 2 ≡ c / 2 - 1
        below q = omega arith

-- The constructors' test accepts the powers of two and nothing else.
pub power_of_mask : (c : ℕ) → 0 < c → bit_and c (c - 1) ≡ 0 → IsPowerOfTwo c
power_of_mask c pos e = power_upto c c (omega arith) pos e

pub mask_of_power : (c : ℕ) → IsPowerOfTwo c → (0 < c) × (bit_and c (c - 1) ≡ 0)
mask_of_power c (k, e) =
    subst (λ x. (0 < x) × (bit_and x (x - 1) ≡ 0)) (sym e)
      (one-le-pow k 2 (omega arith), bit_and-mask k (2 ^ k) ∙ mod_self (2 ^ k))

pub bit_and-power : (c i : ℕ) → IsPowerOfTwo c → bit_and i (c - 1) ≡ i % c
bit_and-power c i (k, e) = subst (λ x. bit_and i (x - 1) ≡ i % x) (sym e) (bit_and-mask k i)

pow-add : (k j : ℕ) → 2 ^ (k + j) ≡ 2 ^ k * 2 ^ j
pow-add k zero = ground (arith, ap (λ (x : ℕ). 2 ^ x) (add-zero k))
pow-add k (suc j) =
    ap (λ (x : ℕ). 2 ^ x) (shift k j)
    ∙ omega (
      arith,
      pow-suc 2 (k + j),
      pow-suc 2 j,
      pow-add k j,
      ap (λ (x : ℕ). 2 ^ k * x) (pow-suc 2 j),
    )
  where
    shift : (k j : ℕ) → k + suc j ≡ suc (k + j)
    shift k j = omega arith

exponent_small : (k : ℕ) → 2 ^ k < 2 ^ 64 → k < 64
exponent_small k h = elim (dec_lt k 64) [
  | yes p ↦ p
  | no p ↦
      let split : k ≡ 64 + (k - 64) = omega arith in
      absurd (
        omega (
          arith,
          ap (λ (x : ℕ). 2 ^ x) split,
          pow-add 64 (k - 64),
          one-le-pow (k - 64) 2 (omega arith),
        ))
]

-- A power of two below 2^64 divides it.
pub mod_word : (c x : ℕ) → IsPowerOfTwo c → c < 2 ^ 64 → x % 2 ^ 64 % c ≡ x % c
mod_word c x (k, e) h = mod-mod_of_dvd c x (subst (λ d. d ∣ 2 ^ 64) (sym e) divides)
  where
    k-lt : k < 64
    k-lt = exponent_small k (subst (λ d. d < 2 ^ 64) e h)

    divides : 2 ^ k ∣ 2 ^ 64
    divides =
        subst (λ w. 2 ^ k ∣ w)
          (sym (pow-add k (64 - k)) ∙ ap (λ (x : ℕ). 2 ^ x) {y = 64} (omega (arith, k-lt)))
          (dvd-mul_right (2 ^ k) (2 ^ (64 - k)))

pub power_half : (c : ℕ) → IsPowerOfTwo c → c < 2 ^ 64 → c ≤ 2 ^ 63
power_half c (k, e) h =
    let k-lt : k < 64 = exponent_small k (subst (λ d. d < 2 ^ 64) e h) in
    let split : 2 ^ 63 ≡ 2 ^ (k + (63 - k)) = ap (λ (x : ℕ). 2 ^ x) {x = 63} (omega arith) in
    subst (λ w. c ≤ w) (sym (split ∙ pow-add k (63 - k))) (grind (arith, e, one-le-pow (63 - k) 2))

below_word : (c : ℕ) → 0 < c → c < 2 ^ 64 → (c + 2 ^ 64 - 1) % 2 ^ 64 ≡ c - 1
below_word c pos h = omega arith

pub capacity_accepted :
    (c : ℕ)
    → c < 2 ^ 64
    → IsPowerOfTwo c
    → (c == 0 || not (bit_and c ((c + 2 ^ 64 - 1) % 2 ^ 64) == 0)) ≡ false
capacity_accepted c h p =
    let (pos, e) = mask_of_power c p in rw (below_word c pos h, e) (ground arith)

pub capacity_rejected :
    (c : ℕ)
    → c < 2 ^ 64
    → ¬ (IsPowerOfTwo c)
    → (c == 0 || not (bit_and c ((c + 2 ^ 64 - 1) % 2 ^ 64) == 0)) ≡ true
capacity_rejected c h np =
    elim (Bool-cases (c == 0 || not (bit_and c ((c + 2 ^ 64 - 1) % 2 ^ 64) == 0))) [
      | inl t ↦ t
      | inr f ↦ absurd (np (power_of_mask c (ground arith) (ground (arith, below_word c))))
    ]
