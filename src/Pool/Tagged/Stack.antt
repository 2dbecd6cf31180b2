-- ===== src/Pool/Tagged/Stack.antt =====
-- HFT/MemoryPool.hpp, LockFreeThreadSafePool: the free list as a stack of message indices.
use Prim.Native.Nat.{bit_and, bit_or}
use git_docs_test.Common.{
  ℕ, zero, suc, ◌+◌, ◌-◌, ◌*◌, ◌/◌, ◌%◌, ◌^◌, ◌≤◌, ◌<◌, ◌≡◌, ◌≢◌, refl, sym, ap, ◌∙◌, true, false,
  some, List, [], ◌∷◌, get_or, get_or-set, set, length, length-set, ◌==◌, lt→ltb, ok, undefined,
  Returns, arith, bit_and-mask, bit_or-fields, ap₂, subst,
}
use git_docs_test.Pool.Contract.{IsAbsent, countdown}
use git_docs_test.Pool.Tagged.{
  Tagged, size_max, pack, unpack, links, new, read, next_tag, allocate, deallocate,
}

-- `unpack` undoes `pack`, for a tag of 32 bits and the low 32 bits of the index.
pub unpack-pack : (index tag : ℕ) → tag < 2 ^ 32 → unpack (pack index tag) ≡ (index % 2 ^ 32, tag)
unfolding unpack pack
unpack-pack index tag h =
    let low = index % 2 ^ 32 in
    let word : pack index tag ≡ tag * 2 ^ 32 + low =
      ap (λ (hi : ℕ). bit_or hi low) (omega arith) ∙ bit_or-fields 32 tag low (omega arith) in
    let index_field : bit_and (pack index tag) (2 ^ 32 - 1) ≡ low =
      omega (arith, bit_and-mask 32 (pack index tag), word) in
    let tag_field : pack index tag / 2 ^ 32 % 2 ^ 32 ≡ tag = omega (arith, word) in
    ap₂ (λ i t. (i, t)) index_field tag_field

-- the index at the head of the free list of these messages, as the 32 bits of the head hold it
abbrev pub first : List ℕ → ℕ
first [] = 2 ^ 32 - 1
first (x ∷ xs) = x

-- The links lead through these messages.
abbrev pub Linked : List ℕ → List ℕ → Type 0
Linked next [] = Unit {0}
Linked next (x ∷ xs) = (x < length next) × (get_or next x 0 % 2 ^ 32 ≡ first xs) × Linked next xs

-- The free messages, the next one to be allocated first.
pub record HasFree (p : Tagged) (xs : List ℕ) : Type 0 where
  pub few : length p.next_free < 2 ^ 32
  pub top : (unpack p.head).0 ≡ first xs
  pub tag : (unpack p.head).1 < 2 ^ 32
  pub linked : Linked p.next_free xs

read-ok : (xs : List ℕ) (i : ℕ) → i < length xs → read xs i ≡ ok (get_or xs i 0)
unfolding read
read-ok [] i h = absurd (omega arith)
read-ok (x ∷ xs) zero h = refl
read-ok (x ∷ xs) (suc i) h = read-ok xs i (omega arith)

read-undefined : (xs : List ℕ) (i : ℕ) → length xs ≤ i → read xs i ≡ undefined
unfolding read
read-undefined [] i h = refl
read-undefined (x ∷ xs) zero h = absurd (omega arith)
read-undefined (x ∷ xs) (suc i) h = read-undefined xs i (omega arith)

first-lt : (next xs : List ℕ) → length next < 2 ^ 32 → Linked next xs → first xs < 2 ^ 32
first-lt next [] h l = omega arith
first-lt next (x ∷ xs) h l = omega (arith, l.0)

next_tag-lt : (tag : ℕ) → next_tag tag < 2 ^ 32
unfolding next_tag
next_tag-lt tag = omega arith

-- An index of 32 bits is never `size_t(-1)`.
in_32_bits : (i : ℕ) → i < 2 ^ 32 → (i == size_max) ≡ false
in_32_bits i h = ground arith

-- When the free list starts with a message, `allocate` returns that message and leaves the rest
-- of the list, and the pool keeps its size.
pub allocate_pops :
    {p : Tagged} (x : ℕ) (xs : List ℕ)
    → HasFree p (x ∷ xs)
    → Returns
        (allocate p)
        λ r. (r.0 ≡ some x) × HasFree r.1 xs × (length r.1.next_free ≡ length p.next_free)
unfolding allocate
allocate_pops {p} x xs h =
    let next = get_or p.next_free x 0 in
    let (index, tag) = unpack p.head in
    let repacked = unpack-pack next (next_tag tag) (next_tag-lt tag) in
    let popped : Tagged = record p { head = pack next (next_tag tag) } in
    let left : HasFree popped xs = record {
      few = h.few;
      top = ap (λ f. f.0) repacked ∙ h.linked.1;
      tag = subst (λ f. f.1 < 2 ^ 32) (sym repacked) (next_tag-lt tag);
      linked = h.linked.2;
    } in
    let first_index : index < 2 ^ 32 = omega (arith, h.top, h.few, h.linked.0) in
    let next_read : read p.next_free index ≡ ok next =
      rw h.top (read-ok p.next_free x h.linked.0) in
    (
      (some x, popped),
      rw (in_32_bits index first_index) (rw next_read (rw h.top refl)),
      (refl, left, refl),
    )

ne→==_false : {a b : ℕ} → a ≢ b → (a == b) ≡ false
ne→==_false h = ground arith

eqb_self : (a : ℕ) → (a == a) ≡ true
eqb_self a = ground arith

-- A write to the link of a message that is not free leaves the list of the free ones.
Linked-set :
    (next : List ℕ) (x v : ℕ) (xs : List ℕ)
    → x < length next
    → IsAbsent x xs
    → Linked next xs
    → Linked (set next x v) xs
Linked-set next x v [] inside absent l = tt
Linked-set next x v (y ∷ ys) inside absent l =
    let same : get_or (set next x v) y 0 ≡ get_or next y 0 =
      get_or-set next x y v 0 inside ∙ rw (ne→==_false absent.0) in
    (
      omega (arith, l.0, length-set next x v),
      ap (λ (i : ℕ). i % 2 ^ 32) same ∙ l.1,
      Linked-set next x v ys inside absent.1 l.2,
    )

-- A message of the pool that is not on the free list is put at its front by `deallocate`, and the
-- pool keeps its size.
pub deallocate_pushes :
    {p : Tagged} (x : ℕ) (xs : List ℕ)
    → HasFree p xs
    → x < length p.next_free
    → IsAbsent x xs
    → Returns
        (deallocate p (some x))
        λ p'. HasFree p' (x ∷ xs) × (length p'.next_free ≡ length p.next_free)
unfolding deallocate
deallocate_pushes {p} x xs h inside absent =
    let (index, tag) = unpack p.head in
    let repacked = unpack-pack x (next_tag tag) (next_tag-lt tag) in
    let pushed : Tagged = record {
      next_free = set p.next_free x index;
      head = pack x (next_tag tag);
    } in
    let index_lt : index < 2 ^ 32 = omega (arith, h.top, first-lt p.next_free xs h.few h.linked) in
    let written : get_or (set p.next_free x index) x 0 ≡ index =
      get_or-set p.next_free x x index 0 inside ∙ rw (eqb_self x) in
    let on_top : HasFree pushed (x ∷ xs) = record {
      few = omega (arith, h.few, length-set p.next_free x index);
      top = ap (λ f. f.0) repacked ∙ omega (arith, inside, h.few);
      tag = subst (λ f. f.1 < 2 ^ 32) (sym repacked) (next_tag-lt tag);
      linked = (
        omega (arith, inside, length-set p.next_free x index),
        ap (λ (i : ℕ). i % 2 ^ 32) written ∙ omega (arith, index_lt, h.top),
        Linked-set p.next_free x index xs inside absent h.linked,
      );
    } in
    (pushed, rw (lt→ltb x (length p.next_free) inside), (on_top, length-set p.next_free x index))

-- Without a free message `allocate` reads behind the end of `nextFree_`: the end of the list is
-- the low half of `size_t(-1)`, and is compared with all of it.
pub allocate_exhausted : {p : Tagged} → HasFree p [] → allocate p ≡ undefined
unfolding allocate
allocate_exhausted {p} h =
    rw (in_32_bits (unpack p.head).0 (omega (arith, h.top)))
      (rw h.top (rw (read-undefined p.next_free (2 ^ 32 - 1) (omega (arith, h.few))) refl))

pub length-links : (n i : ℕ) → length (links n i) ≡ n
unfolding links
length-links zero i = refl
length-links (suc n) i = ap suc (length-links n (i + 1))

get_or-links : (n i j : ℕ) → j < n → get_or (links n i) j 0 ≡ (i + j + 2 ^ 64 - 1) % 2 ^ 64
unfolding links
get_or-links zero i j h = absurd (omega arith)
get_or-links (suc n) i zero h = omega arith
get_or-links (suc n) i (suc j) h = omega (arith, get_or-links n (i + 1) j (omega arith))

links-Linked : (n k : ℕ) → n < 2 ^ 32 → k ≤ n → Linked (links n 0) (countdown k)
links-Linked n zero h le = tt
links-Linked n (suc zero) h le =
    (omega (arith, length-links n 0), omega (arith, get_or-links n 0 0 (omega arith)), tt)
links-Linked n (suc (suc k)) h le = (
  omega (arith, length-links n 0),
  omega (arith, get_or-links n 0 (suc k) (omega arith)),
  links-Linked n (suc k) h (omega arith),
)

first-countdown : (n : ℕ) → n < 2 ^ 32 → (n + 2 ^ 64 - 1) % 2 ^ 64 % 2 ^ 32 ≡ first (countdown n)
first-countdown zero h = refl
first-countdown (suc n) h = omega arith

pub new-HasFree : (n : ℕ) → n < 2 ^ 32 → HasFree (new n) (countdown n)
unfolding new
new-HasFree n h =
    let packed = unpack-pack ((n + 2 ^ 64 - 1) % 2 ^ 64) 0 (omega arith) in
    record {
      few = omega (arith, length-links n 0);
      top = ap (λ f. f.0) packed ∙ first-countdown n h;
      tag = subst (λ f. f.1 < 2 ^ 32) (sym packed) (omega arith);
      linked = links-Linked n n h (omega arith);
    }
