-- ===== src/Pool/Owners.antt =====
-- HFT/MemoryPool.hpp: who has which message of a pool, over all the sequences of calls in which a
-- message is only given back by one who has it. This is about any pool of the contract.
use git_docs_test.Common.{
  ok-injective, some-injective, ℕ, zero, suc, ◌+◌, ◌<◌, ◌≡◌, refl, sym, ap, subst, ◌∙◌, Option,
  some, List, [], ◌∷◌, ◌++◌, length, length-append, ltb, ◌==◌, if◌then◌else◌, ok, Returns, arith,
}
use git_docs_test.Pool.Contract.{MessagePool, IsAbsent, countdown}

-- how often the message is in the list
abbrev pub copies : ℕ → List ℕ → ℕ
copies a [] = 0
copies a (m ∷ ms) = copies a ms + (if a == m then 1 else 0)

-- The messages that were handed out and not given back, the last one first.
pub data Step {n : ℕ} (pool : MessagePool n)
    : pool.State × List ℕ → pool.State × List ℕ → Type 1 where
  allocated :
      {p p' : pool.State} {x : ℕ} {held : List ℕ}
      → pool.allocate p ≡ ok (some x, p')
      → Step pool (p, held) (p', x ∷ held)
  deallocated :
      {p p' : pool.State} (x : ℕ) (before after : List ℕ)
      → pool.deallocate p (some x) ≡ ok p'
      → Step pool (p, before ++ x ∷ after) (p', before ++ after)

pub data Reaches {n : ℕ} (pool : MessagePool n) : pool.State × List ℕ → Type 1 where
  start : Reaches pool (pool.new, [])
  and_then : {s s' : pool.State × List ℕ} → Reaches pool s → Step pool s s' → Reaches pool s'

-- Each of the `n` messages is free or with one owner, and not both.
pub record IsShared {n : ℕ} (pool : MessagePool n) (s : pool.State × List ℕ) : Type 0 where
  pub free : List ℕ
  pub has_free : pool.HasFree s.0 free
  pub once : (a : ℕ) → copies a free + copies a s.1 ≡ (if ltb a n then 1 else 0)
  pub all : length free + length s.1 ≡ n

copies-append : (a : ℕ) (ms rest : List ℕ) → copies a (ms ++ rest) ≡ copies a rest + copies a ms
copies-append a [] rest = omega arith
copies-append a (m ∷ ms) rest = omega (arith, copies-append a ms rest)

copies-IsAbsent : (a : ℕ) (xs : List ℕ) → copies a xs ≡ 0 → IsAbsent a xs
copies-IsAbsent a [] h = tt
copies-IsAbsent a (x ∷ xs) h = (λ e. ground (arith, e), copies-IsAbsent a xs (omega arith))

copies-countdown : (a n : ℕ) → copies a (countdown n) ≡ (if ltb a n then 1 else 0)
copies-countdown a zero = ground arith
copies-countdown a (suc n) = ground (arith, copies-countdown a n)

length-countdown : (n : ℕ) → length (countdown n) ≡ n
length-countdown zero = refl
length-countdown (suc n) = ap suc (length-countdown n)

length_zero : (xs : List ℕ) → length xs ≡ 0 → xs ≡ []
length_zero [] h = refl
length_zero (x ∷ xs) h = absurd (omega arith)

-- A message that is held once is not free, and is one of the pool's.
held_once :
    (x n : ℕ) (free before after : List ℕ)
    → copies x free + copies x (before ++ x ∷ after) ≡ (if ltb x n then 1 else 0)
    → (copies x free ≡ 0) × (x < n)
held_once x n free before after h = ground (arith, copies-append x before (x ∷ after))

taken_from :
    {y n : ℕ} {ys free : List ℕ} (held : List ℕ)
    → copies y free + copies y held ≡ (if ltb y n then 1 else 0)
    → free ≡ y ∷ ys
    → (y < n) × (copies y held ≡ 0)
taken_from {y} {ys} held h same = ground (arith, ap (copies y) same)

module _ {n : ℕ} (pool : MessagePool n) where
  new-IsShared : IsShared pool (pool.new, [])
  new-IsShared = record {
    free = countdown n;
    has_free = pool.new-HasFree;
    once = λ a. omega (arith, copies-countdown a n);
    all = omega (arith, length-countdown n);
  }

  allocated_from :
      (free : List ℕ) {x : ℕ} {p p' : pool.State} {held : List ℕ}
      → (s : IsShared pool (p, held)) → pool.HasFree p free
      → s.free ≡ free
      → pool.allocate p ≡ ok (some x, p')
      → IsShared pool (p', x ∷ held)
  allocated_from [] {x} {p} {p'} s h same e = absurd (pool.allocate_none_free p p' x h e)
  allocated_from (y ∷ ys) {x} {p} {p'} s h same e =
      let (r, returned, (took, rest)) = pool.allocate_pops p y ys h in
      let result : r ≡ (some x, p') = ok-injective (sym returned ∙ e) in
      let y-x : y ≡ x = some-injective (sym took ∙ ap (λ q. q.0) result) in
      let weight : (a : ℕ) → copies a (y ∷ []) ≡ copies a (x ∷ []) =
        λ a. ap (λ (z : ℕ). copies a (z ∷ [])) y-x in
      record {
        free = ys;
        has_free = subst (λ (q : Option ℕ × pool.State). pool.HasFree q.1 ys) result rest;
        once = λ a. omega (arith, s.once a, ap (copies a) same, weight a);
        all = omega (arith, s.all, ap length same);
      }

  deallocated-IsShared :
      {p p' : pool.State} (x : ℕ) (before after : List ℕ)
      → IsShared pool (p, before ++ x ∷ after)
      → pool.deallocate p (some x) ≡ ok p'
      → IsShared pool (p', before ++ after)
  deallocated-IsShared {p} {p'} x before after s e =
      let (not_free, one_of) = held_once x n s.free before after (s.once x) in
      let absent : IsAbsent x s.free = copies-IsAbsent x s.free not_free in
      let room : length s.free < n = omega (arith, s.all, length-append before (x ∷ after)) in
      let (r, returned, pushed) = pool.deallocate_pushes p x s.free s.has_free one_of absent room in
      let p'-r : r ≡ p' = ok-injective (sym returned ∙ e) in
      record {
        free = x ∷ s.free;
        has_free = subst (λ (q : pool.State). pool.HasFree q (x ∷ s.free)) p'-r pushed;
        once = λ a.
            omega
              (arith, s.once a, copies-append a before after, copies-append a before (x ∷ after));
        all = omega (arith, s.all, length-append before (x ∷ after), length-append before after);
      }

  pub reached-IsShared : {s : pool.State × List ℕ} → Reaches pool s → IsShared pool s
  reached-IsShared start = new-IsShared
  reached-IsShared (and_then r (allocated e)) =
      let shared = reached-IsShared r in allocated_from shared.free shared shared.has_free refl e
  reached-IsShared (and_then r (deallocated x before after e)) =
      deallocated-IsShared x before after (reached-IsShared r) e

  fresh_from :
      {s : pool.State × List ℕ} (free : List ℕ)
      → (shared : IsShared pool s) → pool.HasFree s.0 free
      → shared.free ≡ free
      → length s.1 < n
      → Returns (pool.allocate s.0) λ r. (x : ℕ) × (r.0 ≡ some x) × (x < n) × (copies x s.1 ≡ 0)
  fresh_from [] shared h same few = absurd (omega (arith, shared.all, ap length same))
  fresh_from {s} (y ∷ ys) shared h same few =
      let (r, returned, (took, _)) = pool.allocate_pops s.0 y ys h in
      let (one_of, not_held) = taken_from s.1 (shared.once y) same in
      (r, returned, (y, took, one_of, not_held))

  pub allocate_fresh :
      {s : pool.State × List ℕ}
      → Reaches pool s
      → length s.1 < n
      → Returns (pool.allocate s.0) λ r. (x : ℕ) × (r.0 ≡ some x) × (x < n) × (copies x s.1 ≡ 0)
  allocate_fresh r few =
      let shared = reached-IsShared r in fresh_from shared.free shared shared.has_free refl few

  -- When all messages are held, none is free.
  pub all_held : {s : pool.State × List ℕ} → Reaches pool s → length s.1 ≡ n → pool.HasFree s.0 []
  all_held {s} r full =
      let shared = reached-IsShared r in
      subst (pool.HasFree s.0) (length_zero shared.free (omega (arith, shared.all))) shared.has_free
