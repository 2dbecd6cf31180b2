-- ===== src/HashMap/OpenTable/Tests.antt =====
-- c++20/HashTables.cpp, class OpenAddressingHashTable on tables of two and of no slots.
use git_docs_test.Common.{ℕ, ◌≡◌, refl, inr, ok, some, undefined, ◌>>=◌, arith}
use git_docs_test.HashMap.Sample.{id_key, seventy, blank}
use git_docs_test.HashMap.Open.Defs
use git_docs_test.HashMap.OpenTable.{OpenTable, new, insert, find, remove, contains}
use git_docs_test.HashMap.OpenTable.Alike.{to_map, answer, IsSized}
use git_docs_test.HashMap.OpenTable.Agrees.{open_table_map}

abbrev start : OpenTable ℕ ℕ
start = new seventy blank 2

start-IsSized : IsSized start
unfolding new
start-IsSized = record { sized = inr ((1, refl), omega arith) }

-- The second key makes the table of two slots too small.
grown :
    (insert seventy blank start 4 40 >>= λ t.
    insert seventy blank t 8 80 >>= λ t'. find seventy blank t' 4)
    ≡ ok (some 40)
unfolding insert new find
grown = refl

no_slots : find seventy blank (new seventy blank 0) 4 ≡ undefined
unfolding new find
no_slots = refl

open_table_map_example :
    (Defs.insert seventy blank (to_map start) 4 40
      ≡ (insert seventy blank start 4 40 >>= λ t'. ok (to_map t')))
    × (Defs.erase seventy blank (to_map start) 4
        ≡ (remove seventy blank start 4 >>= λ r. ok (answer r)))
    × (Defs.find seventy blank (to_map start) 4 ≡ find seventy blank start 4)
    × (Defs.contains seventy blank (to_map start) 4 ≡ contains seventy blank start 4)
open_table_map_example = open_table_map seventy blank start 4 40 start-IsSized
