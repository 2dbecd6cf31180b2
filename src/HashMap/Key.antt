-- ===== src/HashMap/Key.antt =====
-- What the maps of HFT/HashMap.hpp use of their template parameter `Key`: its `==`, which decides
-- equality, and `std::hash`, of which nothing is asked but that it is a function.
use git_docs_test.Common.{ℕ, Bool, true, ◌≡◌, ◌↔◌, arith}

pub record Key (K : Type 0) : Type 0 where
  pub equal : K → K → Bool
  pub equal_iff : (a b : K) → (equal a b ≡ true) ↔ (a ≡ b)
  pub hash : K → ℕ

module _ {K : Type 0} ⦃key : Key K⦄ where
  infix 50 ◌=?◌
  abbrev pub ◌=?◌ : K → K → Bool
  a =? b = key.equal a b

  pub =?_refl : (a : K) → (a =? a) ≡ true
  =?_refl a = (key.equal_iff a a).1 (λ i. a)

  pub =?_comm : (a b : K) → (a =? b) ≡ (b =? a)
  =?_comm a b = ground (arith, key.equal_iff a b, key.equal_iff b a)
