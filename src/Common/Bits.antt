-- ===== src/Common/Bits.antt =====
-- Masks and shifts as arithmetic: `x & (2^k - 1)`, and `(hi << k) | lo` for `lo` below `2^k`.
use Prim.Native.Nat.{ℕ, zero, suc, ◌+◌, ◌-◌, ◌*◌, ◌/◌, ◌%◌, ◌^◌, ◌≤◌, ◌<◌, min, max, digits}
use Prim.Native.Nat.{bit_and, bit_or, bit_and-bitwise, bit_or-bitwise}
use mathlib.Core.Path.{◌≡◌, refl, ap, ◌∙◌}
use native.Mathlib.Nat.{
  pow-suc, one-le-pow, mul-add-mod_self_left, mod-add-div, mod-eq_of_lt, mod-lt,
}
use native.Mathlib.Omega.{arith}

-- The digits of `a` do not depend on the fuel, once it is at least `a`.
digits_enough :
    (z : ℕ → ℕ) (f : ℕ → ℕ → ℕ) (a b n m : ℕ) → a ≤ n → a ≤ m → digits z f n a b ≡ digits z f m a b
digits_enough z f zero b zero zero p q = refl
digits_enough z f zero b zero (suc m) p q = refl
digits_enough z f zero b (suc n) zero p q = refl
digits_enough z f zero b (suc n) (suc m) p q = refl
digits_enough z f (suc a) b zero m p q = absurd (omega arith)
digits_enough z f (suc a) b (suc n) zero p q = absurd (omega arith)
digits_enough z f (suc a) b (suc n) (suc m) p q =
    ap (λ (d : ℕ). d * 2 + f (suc a % 2) (b % 2))
      (digits_enough z f (suc a / 2) (b / 2) n m (omega arith) (omega arith))

pub and_digit : (a b : ℕ) → bit_and a b ≡ bit_and (a / 2) (b / 2) * 2 + min (a % 2) (b % 2)
and_digit zero b = omega (arith, bit_and-bitwise 0 b, bit_and-bitwise 0 (b / 2))
and_digit (suc a) b = omega (
  arith,
  bit_and-bitwise (suc a) b,
  bit_and-bitwise (suc a / 2) (b / 2),
  digits_enough (λ y. 0) min (suc a / 2) (b / 2) a (suc a / 2) (omega arith) (omega arith),
)

or_digit : (a b : ℕ) → bit_or a b ≡ bit_or (a / 2) (b / 2) * 2 + max (a % 2) (b % 2)
or_digit zero b = omega (arith, bit_or-bitwise 0 b, bit_or-bitwise 0 (b / 2))
or_digit (suc a) b = omega (
  arith,
  bit_or-bitwise (suc a) b,
  bit_or-bitwise (suc a / 2) (b / 2),
  digits_enough (λ y. y) max (suc a / 2) (b / 2) a (suc a / 2) (omega arith) (omega arith),
)

and_zero_upto : (n a : ℕ) → a ≤ n → bit_and a 0 ≡ 0
and_zero_upto zero zero h = omega (arith, bit_and-bitwise 0 0)
and_zero_upto zero (suc a) h = absurd (omega arith)
and_zero_upto (suc n) zero h = omega (arith, bit_and-bitwise 0 0)
and_zero_upto (suc n) (suc a) h =
    omega (arith, and_digit (suc a) 0, and_zero_upto n (suc a / 2) (omega arith))

or_zero_upto : (n a : ℕ) → a ≤ n → bit_or a 0 ≡ a
or_zero_upto zero zero h = omega (arith, bit_or-bitwise 0 0)
or_zero_upto zero (suc a) h = absurd (omega arith)
or_zero_upto (suc n) zero h = omega (arith, bit_or-bitwise 0 0)
or_zero_upto (suc n) (suc a) h =
    omega (arith, or_digit (suc a) 0, or_zero_upto n (suc a / 2) (omega arith))

-- (2p) divides with remainder as p does, one digit further up
mod_double : (a p : ℕ) → 0 < p → a % (2 * p) ≡ a / 2 % p * 2 + a % 2
mod_double a p h =
    let q = a / 2 / p in
    let r = a / 2 % p * 2 + a % 2 in
    let split : a ≡ 2 * p * q + r = omega (arith, mod-add-div (a / 2) p) in
    ap (λ (x : ℕ). x % (2 * p)) split
    ∙ mul-add-mod_self_left (2 * p) q r
    ∙ mod-eq_of_lt (omega (arith, mod-lt (a / 2) h))

-- A mask of `k` ones is the remainder by `2^k`.
pub bit_and-mask : (k a : ℕ) → bit_and a (2 ^ k - 1) ≡ a % 2 ^ k
bit_and-mask zero a = omega (arith, and_zero_upto a a (omega arith))
bit_and-mask (suc k) a = ground (
  arith,
  and_digit a (2 ^ suc k - 1),
  pow-suc 2 k,
  one-le-pow k 2,
  half_mask,
  bit_and-mask k (a / 2),
  mod_double a (2 ^ k),
)
  where
    half_mask : (2 ^ suc k - 1) / 2 ≡ 2 ^ k - 1
    half_mask = omega (arith, pow-suc 2 k, one-le-pow k 2)

-- A shifted field and a field below it do not overlap.
pub bit_or-fields : (k hi lo : ℕ) → lo < 2 ^ k → bit_or (hi * 2 ^ k) lo ≡ hi * 2 ^ k + lo
bit_or-fields zero hi lo h = ground (arith, or_zero_upto hi hi)
bit_or-fields (suc k) hi lo h = ground (
  arith,
  or_digit (hi * 2 ^ suc k) lo,
  pow-suc 2 k,
  ap (λ (p : ℕ). hi * p) (pow-suc 2 k),
  bit_or-fields k hi (lo / 2),
)
