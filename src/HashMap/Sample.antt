-- ===== src/HashMap/Sample.antt =====
-- Keys that are hashed by their own value, and a load test on whole numbers, for the runs and tests of
-- the maps.
use git_docs_test.Common.{ℕ, ◌*◌, ◌≤◌, ◌≡◌, Bool, false, ltb, arith, ◌==◌, ==_iff}
use git_docs_test.HashMap.Key.{Key}
use git_docs_test.HashMap.Load.{Load}
use git_docs_test.HashMap.Probe.{empty, Slot}

instance abbrev pub id_key : Key ℕ
id_key = record { equal = ◌==◌; equal_iff = ==_iff; hash = λ k. k }

abbrev pub test : ℕ → ℕ → Bool
test size capacity = ltb (capacity * 7) (size * 10)

pub passes : (size capacity : ℕ) → test size capacity ≡ false → size ≤ capacity
passes size capacity h = ground arith

pub doubles : (size capacity : ℕ) → size ≤ capacity → test size (2 * capacity) ≡ false
doubles size capacity h = ground arith

-- seven elements for ten slots
abbrev pub seventy : Load
seventy = record { exceeds = test; fits = passes; doubled = doubles }

abbrev pub blank : Slot ℕ ℕ
blank = record { key = 0; value = 0; status = empty }
