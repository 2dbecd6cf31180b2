-- ===== src/Common/Outcome.antt =====
-- What a C++ call can do besides returning: throw a `std::runtime_error`, or run into undefined
-- behaviour (an index outside an array, `top()` of an empty stack, a signed overflow).
use mathlib.Core.Path.{◌≡◌, refl, ap, subst}
use mathlib.Core.Logic.{◌≢◌}
use mathlib.Core.Option.{none, some}
use mathlib.Core.Bool.{Bool, true, false}

pub data Error : Type 0 where
  order_pool_full order_not_found no_free_nodes no_free_messages : Error
  null_message pool_overflow unrecoverable_gap invalid_capacity map_full : Error
  request_failed pool_exhausted bad_number out_of_bounds empty_vector : Error

pub data Result {ℓ} (A : Type ℓ) : Type ℓ where
  ok : A → Result A
  throws : Error → Result A
  undefined : Result A

-- What follows a call runs if the call returned.
infixl 5 ◌>>=◌ ◌>>◌
abbrev pub ◌>>=◌ {ℓ κ} : {B : Type κ} {A : Type ℓ} → Result A → (A → Result B) → Result B
undefined >>= next = undefined
throws error >>= next = throws error
ok value >>= next = next value

-- `if (!test) throw error;`
abbrev pub expect : Bool → Error → Result (Unit {0})
expect false error = throws error
expect true error = ok tt

abbrev pub ◌>>◌ {ℓ} : {B : Type ℓ} → Result (Unit {0}) → Result B → Result B
first >> next = first >>= λ _. next

-- The call returns, with a value that satisfies `P`.
abbrev pub Returns {ℓ κ} : {A : Type ℓ} → Result A → (A → Type κ) → Type (ℓ ⊔ κ)
Returns {A} call P = (value : A) × (call ≡ ok value) × P value

module _ {ℓ} {A : Type ℓ} where
  pub ok-injective : {a b : A} → ok a ≡ ok b → a ≡ b
  ok-injective {a} e = ap (λ r. elim r [ ok v ↦ v | _ ↦ a ]) e

  pub ok-ne-undefined : {a : A} → ok a ≢ undefined
  ok-ne-undefined e = cc

  pub some-injective : {a b : A} → some a ≡ some b → a ≡ b
  some-injective {a} e = ap (λ o. elim o [ some v ↦ v | none ↦ a ]) e

-- A chain that returned went through its first call.
pub bind_ok {ℓ κ} :
    {B : Type κ} {final : B} {A : Type ℓ} (first : Result A) (next : A → Result B)
    → (first >>= next) ≡ ok final
    → (value : A) × (first ≡ ok value) × (next value ≡ ok final)
bind_ok undefined next e = cc
bind_ok (throws error) next e = cc
bind_ok (ok value) next e = (value, refl, e)

-- If the call returns, it returns a value that satisfies `P`.
pub record Ensures {ℓ κ} {A : Type ℓ} (call : Result A) (P : A → Type κ) : Type (ℓ ⊔ κ) where
  pub holds : (value : A) → call ≡ ok value → P value

pub Ensures-bind {ℓ μ κ} :
    {A : Type ℓ} {B : Type μ} {P : B → Type κ} (first : Result A) {next : A → Result B}
    → ((value : A) → first ≡ ok value → Ensures (next value) P)
    → Ensures (first >>= next) P
Ensures-bind first {next = next} h = record {
  holds = λ v e. let (a, before, rest) = bind_ok first next e in (h a before).holds v rest;
}

pub Ensures-ok {ℓ κ} : {A : Type ℓ} {P : A → Type κ} {value : A} → P value → Ensures (ok value) P
Ensures-ok {P = P} p = record { holds = λ v e. subst P (ok-injective e) p }

pub Ensures-undefined {ℓ κ} : {A : Type ℓ} {P : A → Type κ} → Ensures {A = A} undefined P
Ensures-undefined = record { holds = λ v e. cc }

pub Ensures-throws {ℓ κ} :
    {A : Type ℓ} {P : A → Type κ} {error : Error} → Ensures {A = A} (throws error) P
Ensures-throws = record { holds = λ v e. cc }
