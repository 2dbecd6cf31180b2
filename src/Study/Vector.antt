-- ===== src/Study/Vector.antt =====
-- Study/vector.cpp, class zam::vector. The buffer is `none` for a null pointer, else its slots; a
-- slot is `none` where no object lives. Reading, destroying or moving from an empty slot, building
-- over an object and a write outside the buffer are undefined. Objects are copied as they are; the
-- state that a move leaves in them is not modelled, and memory does not run out. `size_of` is
-- `sizeof(T)`.
pub mod Contents
pub mod Methods
pub mod Copies
mod Tests
use git_docs_test.Common.{
  ℕ, zero, suc, ◌+◌, ◌-◌, ◌*◌, ◌%◌, ◌/◌, ◌^◌, ◌&&◌, Option, none, some, List, [], ◌∷◌, get_elem?,
  set, length, replicate, ltb, ◌==◌, if◌then◌else◌, Bool, Result, ok, throws, undefined,
  out_of_bounds, empty_vector, ◌>>=◌,
}

pub record Vector {ℓ} (T : Type ℓ) : Type ℓ where
  pub size : ℕ
  pub capacity : ℕ
  pub buffer : Option (List (Option T))

-- The argument of `push_back`, a reference: to an object outside the vector's buffer, or to the slot
-- of the buffer with this index.
pub data Argument {ℓ} (T : Type ℓ) : Type ℓ where
  outside : T → Argument T
  inside : ℕ → Argument T

-- the next capacity of a full vector
unfoldable pub grown : ℕ → ℕ
grown capacity = if capacity == 0 then 1 else capacity * 2 % 2 ^ 64

-- the slots of `operator new[](capacity * sizeof(T))`, whose argument is a `size_t`
unfoldable pub allocated : ℕ → ℕ → ℕ
allocated size_of capacity = capacity * size_of % 2 ^ 64 / size_of

module _ {ℓ} {T : Type ℓ} where
  -- `data_[i]`, `new (data_ + i) T(value)` and `data_[i].~T()`
  unfoldable pub read : List (Option T) → ℕ → Result T
  read slots i = elim (get_elem? slots i) [
    | none ↦ undefined
    | some slot ↦ elim slot [ none ↦ undefined | some value ↦ ok value ]
  ]

  unfoldable pub construct : List (Option T) → ℕ → T → Result (List (Option T))
  construct slots i value = elim (get_elem? slots i) [
    | none ↦ undefined
    | some slot ↦ elim slot [ none ↦ ok (set slots i (some value)) | some _ ↦ undefined ]
  ]

  unfoldable pub destroy : List (Option T) → ℕ → Result (List (Option T))
  destroy slots i = elim (get_elem? slots i) [
    | none ↦ undefined
    | some slot ↦ elim slot [ none ↦ undefined | some _ ↦ ok (set slots i none) ]
  ]

  -- the slots behind `data_`
  unfoldable pub slots_of : Option (List (Option T)) → Result (List (Option T))
  slots_of none = undefined
  slots_of (some slots) = ok slots

  -- The loops over the slots, for `n` rounds from `i` on: `new (data_ + i) T(std::move(old_data[i]))`,
  -- and `data_[i].~T()`.
  unfoldable pub move_up : ℕ → ℕ → List (Option T) → List (Option T) → Result (List (Option T))
  unfolding read construct
  move_up zero i old fresh = ok fresh
  move_up (suc n) i old fresh = do
    value ← read old i
    fresh' ← construct fresh i value
    move_up n (i + 1) old fresh'

  unfoldable pub destroy_up : ℕ → ℕ → List (Option T) → Result (List (Option T))
  unfolding destroy
  destroy_up zero i slots = ok slots
  destroy_up (suc n) i slots = destroy slots i >>= λ slots'. destroy_up n (i + 1) slots'

  -- the objects that live in the slots
  unfoldable pub living : List (Option T) → ℕ
  living [] = 0
  living (none ∷ slots) = living slots
  living (some value ∷ slots) = 1 + living slots

  unfoldable pub empty : Vector T
  empty = record { size = 0; capacity = 0; buffer = none }

  -- `vector(size_t size)`
  unfoldable pub with_capacity : ℕ → ℕ → Vector T
  unfolding allocated
  with_capacity size_of n = record {
    size = 0;
    capacity = n;
    buffer = some (replicate (allocated size_of n) none);
  }

  -- `vector(size_t size, const T& val)`. `std::fill` assigns to slots in which no object lives, which
  -- is defined for trivial types only, and for slots of the buffer.
  unfoldable pub filled : ℕ → Bool → ℕ → T → Result (Vector T)
  unfolding allocated
  filled size_of is_trivial n value =
      if is_trivial && (allocated size_of n == n)
      then ok (record { size = n; capacity = n; buffer = some (replicate n (some value)) })
      else if n == 0
      then ok (record { size = n; capacity = n; buffer = some [] })
      else undefined

  -- the part of `reallocate` behind the choice of the capacity; a null buffer has no elements to move
  unfoldable pub rebuild : ℕ → ℕ → Vector T → Result (Vector T)
  unfolding move_up destroy_up allocated
  rebuild size_of capacity v = elim v.buffer [
    | none ↦
        if v.size == 0
        then ok (record v {
          capacity = capacity;
          buffer = some (replicate (allocated size_of capacity) none);
        })
        else undefined
    | some old ↦ do
      fresh ← move_up v.size 0 old (replicate (allocated size_of capacity) none)
      emptied ← destroy_up v.size 0 old
      ok (record v { capacity = capacity; buffer = some fresh })
  ]

  unfoldable pub reallocate : ℕ → ℕ → Vector T → Result (Vector T)
  unfolding rebuild grown
  reallocate size_of new_capacity v =
      if ltb 0 new_capacity
      then rebuild size_of new_capacity v
      else rebuild size_of (grown v.capacity) v

  unfoldable pub reserve : ℕ → ℕ → Vector T → Result (Vector T)
  unfolding reallocate
  reserve size_of capacity v =
      if ltb v.capacity capacity then reallocate size_of capacity v else ok v

  -- the end of `push_back` and `emplace_back`
  unfoldable pub place : T → Vector T → Result (Vector T)
  unfolding slots_of construct
  place value v = do
    slots ← slots_of v.buffer
    slots' ← construct slots v.size value
    ok (record v { size = v.size + 1; buffer = some slots' })

  -- what the argument refers to, and behind a `reallocate`, which deleted the buffer
  unfoldable pub referent : Vector T → Argument T → Result T
  unfolding slots_of read
  referent v (outside value) = ok value
  referent v (inside i) = slots_of v.buffer >>= (λ slots. read slots i)

  unfoldable pub remaining : Argument T → Result T
  remaining (outside value) = ok value
  remaining (inside i) = undefined

  unfoldable pub push_back : ℕ → Vector T → Argument T → Result (Vector T)
  unfolding reallocate referent remaining place
  push_back size_of v argument =
      if v.size == v.capacity
      then reallocate size_of 0 v >>= (λ w. remaining argument >>= (λ value. place value w))
      else referent v argument >>= (λ value. place value v)

  -- `emplace_back` with one argument of the element's type
  unfoldable pub emplace_back : ℕ → Vector T → Argument T → Result (Vector T)
  unfolding reallocate referent remaining place
  emplace_back size_of v argument =
      if v.size == v.capacity
      then reallocate size_of 0 v >>= (λ w. remaining argument >>= (λ value. place value w))
      else referent v argument >>= (λ value. place value v)

  unfoldable pub pop_back : Vector T → Result (T × Vector T)
  unfolding slots_of read destroy
  pop_back v = if v.size == 0 then throws empty_vector else do
    slots ← slots_of v.buffer
    value ← read slots (v.size - 1)
    slots' ← destroy slots (v.size - 1)
    ok (value, record v { size = v.size - 1; buffer = some slots' })

  -- `operator[]`
  unfoldable pub at : Vector T → ℕ → Result T
  unfolding slots_of read
  at v index =
      if ltb index v.size
      then slots_of v.buffer >>= (λ slots. read slots index)
      else throws out_of_bounds

  -- `emplace_back(other[i])` for `n` indices from `i` on, where `other` is another vector
  unfoldable pub copy_up : ℕ → ℕ → ℕ → Vector T → Vector T → Result (Vector T)
  unfolding at emplace_back
  copy_up size_of zero i other v = ok v
  copy_up size_of (suc n) i other v = do
    value ← at other i
    v' ← emplace_back size_of v (outside value)
    copy_up size_of n (i + 1) other v'

  -- The copy constructor.
  unfoldable pub copy : ℕ → Vector T → Result (Vector T)
  unfolding reserve copy_up empty
  copy size_of other =
      reserve size_of other.capacity empty >>= λ v. copy_up size_of other.size 0 other v

  -- The copy assignment from another vector.
  unfoldable pub copy_assign : ℕ → Vector T → Vector T → Result (Vector T)
  unfolding slots_of destroy_up reserve copy_up
  copy_assign size_of v other = do
    emptied ← elim v.buffer [
      | none ↦ if v.size == 0 then ok none else undefined
      | some slots ↦ destroy_up v.size 0 slots >>= (λ slots'. ok (some slots'))
    ]
    v' ← reserve size_of other.capacity (record v { size = 0; buffer = emptied })
    copy_up size_of other.size 0 other v'

  -- The move constructor: the new vector and the one moved from.
  unfoldable pub move : Vector T → Vector T × Vector T
  unfolding empty
  move other = (other, empty)

  -- The move assignment from another vector: both vectors behind it, and the number of objects that
  -- still lived in the buffer that was deleted.
  unfoldable pub move_assign : Vector T → Vector T → Vector T × Vector T × ℕ
  unfolding empty living
  move_assign v other = (other, empty, elim v.buffer [ none ↦ 0 | some slots ↦ living slots ])

  -- The destructor: the number of objects that still lived in the buffer that was deleted.
  unfoldable pub destructor : Vector T → Result ℕ
  unfolding destroy_up living
  destructor v = elim v.buffer [
    | none ↦ ok 0
    | some slots ↦ destroy_up v.size 0 slots >>= (λ slots'. ok (living slots'))
  ]
