-- ===== src/HashMap/Open/Tests.antt =====
-- HFT/HashMap.hpp, class OpenAddressingHashMap on tables of two and four slots.
use git_docs_test.Common.{
  ℕ, ◌+◌, ◌*◌, ◌^◌, ◌<◌, ◌≡◌, refl, true, false, some, length, ◌==◌, if◌then◌else◌, ok, Returns,
  arith, ◌>>=◌,
}
use git_docs_test.HashMap.Sample.{id_key, seventy, blank}
use git_docs_test.HashMap.Probe.Room.{copies}
use git_docs_test.HashMap.Open.Rehash.{last_value}
use git_docs_test.HashMap.Open.Defs.{Open, new, insert, erase, find, contains}
use git_docs_test.HashMap.Open.Laws.{IsValid}
use git_docs_test.HashMap.Open.Rehash.{made-IsValid}
use git_docs_test.HashMap.Open.Inserts.{insert-IsValid, erase-IsValid}

abbrev start : Open ℕ ℕ
start = new seventy blank 2

start-IsValid : IsValid seventy blank start
unfolding new
start-IsValid = made-IsValid seventy blank 2 (1, refl) (omega arith)

-- The second key makes the table of two slots too small.
grown :
    (insert seventy blank start 4 40 >>= λ m.
    insert seventy blank m 8 80 >>= λ m'. ok (length m'.table))
    ≡ ok 4
unfolding insert new
grown = refl

-- Keys 0 and 4 share their first slot of four. Behind the slot of the erased 0 key 4 is inserted a
-- second time; the erased 4 is then still there.
ghost :
    (insert seventy blank (new seventy blank 4) 0 10 >>= λ a. insert seventy blank a 4 20 >>= λ b.
    erase seventy blank b 0 >>= λ c. insert seventy blank c.1 4 21 >>= λ d.
    erase seventy blank d 4 >>= λ e. find seventy blank e.1 4)
    ≡ ok (some 20)
unfolding insert new erase find
ghost = refl

-- a map with the key 4
abbrev with_four : (m : Open ℕ ℕ) × (length m.table ≡ 2) × IsValid seventy blank m
unfolding new
with_four =
    let (m, e, (valid, slots, _, _, _)) =
      insert-IsValid seventy blank start 4 40 start-IsValid (omega arith) in
    (m, slots, valid)

small : length with_four.0.table * 2 < 2 ^ 64
small = omega (arith, with_four.1)

-- The second key doubles the table.
insert-IsValid_example : Returns (insert seventy blank with_four.0 8 80) (λ m'.
    IsValid seventy blank m'
    × (length m'.table ≡ (
        if seventy.exceeds (with_four.0.size + 1) (length with_four.0.table)
        then 2 * length with_four.0.table
        else length with_four.0.table))
    × ((q : ℕ)
        → (8 == q) ≡ false
        → find seventy blank m' q ≡ (
            if seventy.exceeds (with_four.0.size + 1) (length with_four.0.table)
            then ok (last_value q with_four.0.table)
            else find seventy blank with_four.0 q))
    × (find seventy blank m' 8 ≡ ok (some 80))
    × ((q : ℕ)
        → contains seventy blank m' q
          ≡ (if 8 == q then ok true else contains seventy blank with_four.0 q)))
insert-IsValid_example = insert-IsValid seventy blank with_four.0 8 80 with_four.2 small

erase-IsValid_example : Returns (erase seventy blank with_four.0 4) (λ (b, m').
    IsValid seventy blank m'
    × (contains seventy blank with_four.0 4 ≡ ok b)
    × (copies 4 m'.table + (if b then 1 else 0) ≡ copies 4 with_four.0.table)
    × (m'.size + (if b then 1 else 0) ≡ with_four.0.size)
    × ((q : ℕ) → (4 == q) ≡ false → find seventy blank m' q ≡ find seventy blank with_four.0 q))
erase-IsValid_example = erase-IsValid seventy blank with_four.0 4 with_four.2
