-- ===== src/Study/SharedPtr/Tests.antt =====
-- Study/weak_ptr_impl.cpp: the program of its `main`, and the theorems on it.
use git_docs_test.Common.{
  ℕ, zero, suc, ◌≡◌, refl, none, some, [], ◌∷◌, get_elem?, ok, Returns, ◌>>=◌, ◌+ℤ◌, ◌-ℤ◌, pos,
  arith,
}
use git_docs_test.Study.SharedPtr.{
  expired, lock, from_weak, make_block, add_shared, add_weak, release_shared,
}
use git_docs_test.Study.SharedPtr.Cells.{CellCounted}
use git_docs_test.Study.SharedPtr.Program.{
  Program, make_shared, watch, lock_weak, destroy_shared, step,
}
use git_docs_test.Study.SharedPtr.Uses.{uses, IsSound}
use git_docs_test.Study.SharedPtr.Sound.{step-IsSound}

-- one object, with a SharedPtr and a WeakPtr to it
abbrev watched : Program
watched = record {
  heap = record {
    blocks = some (record { ptr = some 7; shared_count = pos 1; weak_count = pos 2 }) ∷ [];
    deleted = [];
  };
  shareds = some 0 ∷ [];
  weaks = some 0 ∷ [];
}

made_and_watched :
    (step
        (make_shared (some 7))
        (record { heap = record { blocks = []; deleted = [] }; shareds = []; weaks = [] })
      >>= step (watch 0))
    ≡ ok watched
unfolding step add_weak make_block ◌+ℤ◌
made_and_watched = refl

-- The object goes with the two SharedPtrs, the control block stays for the WeakPtr.
gone :
    (step (lock_weak 0) watched >>= step (destroy_shared 1) >>= step (destroy_shared 0))
    ≡ ok (record {
      heap = record {
        blocks = some (record { ptr = none; shared_count = pos 0; weak_count = pos 1 }) ∷ [];
        deleted = 7 ∷ [];
      };
      shareds = none ∷ none ∷ [];
      weaks = some 0 ∷ [];
    })
unfolding step lock expired from_weak add_shared release_shared ◌+ℤ◌ ◌-ℤ◌
gone = refl

watched-CellCounted :
    (a : ℕ)
    → CellCounted (get_elem? watched.heap.blocks a) (uses a watched.shareds) (uses a watched.weaks)
unfolding uses
watched-CellCounted zero = record { shared = refl; weak = refl; used = omega arith }
watched-CellCounted (suc a) = (ground arith, ground arith)

watched-IsSound : IsSound watched
watched-IsSound = record { counted = record { cells = watched-CellCounted } }

step-IsSound_example : Returns (step (lock_weak 0) watched) IsSound
step-IsSound_example =
    step-IsSound (lock_weak 0) watched watched-IsSound (record { few = omega arith })

abbrev nothing : Program
nothing = record { heap = record { blocks = []; deleted = [] }; shareds = []; weaks = [] }

abbrev one_pointer : Program
one_pointer = record {
  heap = record {
    blocks = some (record { ptr = some 7; shared_count = pos 1; weak_count = pos 1 }) ∷ [];
    deleted = [];
  };
  shareds = some 0 ∷ [];
  weaks = [];
}

abbrev left : Program
left = record {
  heap = record { blocks = none ∷ []; deleted = 7 ∷ [] };
  shareds = none ∷ [];
  weaks = [];
}
