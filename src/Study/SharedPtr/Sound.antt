-- ===== src/Study/SharedPtr/Sound.antt =====
-- Study/weak_ptr_impl.cpp: every call leaves the counts right, and what follows when no variable is
-- left.
use git_docs_test.Common.{
  sym, ℕ, ◌≤◌, ◌≡◌, ◌≢◌, refl, ap, ◌∙◌, subst, true, Option, none, some, List, [], ◌∷◌, ◌++◌,
  get_elem?, get_elem?-set_self, get_elem?-set_ne, set, length, length-set, ◌==◌, if◌then◌else◌,
  Result, ok, ◌>>=◌, Returns, arith, Option-cases, Bool-cases, inl, inr, ok-injective, pos,
}
use git_docs_test.Study.SharedPtr.{Block, make_block}
use git_docs_test.Study.SharedPtr.Cells.{
  same_counts, CellCounted, own, own_self, own_other, IsCounted, in_range,
}
use git_docs_test.Study.SharedPtr.Program.{
  Program, Call, empty_shared, empty_weak, make_shared, copy_shared, move_shared, destroy_shared,
  assign_shared, move_assign_shared, watch, copy_weak, destroy_weak, lock_weak, assign_weak, given,
  release_at, release_weak_at, point_at, point_weak_at, hand_over, step,
}
use git_docs_test.Study.SharedPtr.Uses.{
  uses, uses-append, uses-set, IsSound, IsSmall, release_at_lem, construct_lem, point_at_lem,
  release_weak_at_lem, construct_weak_lem, point_weak_at_lem, lock_variable_lem, recount_lem,
  get_elem?-append_last, get_elem?-append_other, get_elem?-length,
}

-- A variable counts among those that point to its block.
own_le_uses :
    (b : ℕ) (hs : List (Option ℕ)) (i : ℕ) (h : Option ℕ)
    → get_elem? hs i ≡ some h
    → own b h ≤ uses b hs
own_le_uses b hs i h e = omega (arith, uses-set b hs i h none e)

CellCounted-none :
    (m w : ℕ) (cell : Option (Option Block))
    → cell ≡ none
    → CellCounted cell m w
    → (m ≡ 0) × (w ≡ 0)
CellCounted-none m w cell e c = subst (λ x. CellCounted x m w) e c

made : (s : Program) (ptr : Option ℕ) → IsSound s → Returns (step (make_shared ptr) s) IsSound
unfolding step make_block
made s ptr v =
    let n = length s.heap.blocks in
    let block : Block = record { ptr = ptr; shared_count = pos 1; weak_count = pos 1 } in
    let (no_shared, no_weak) =
      CellCounted-none (uses n s.shareds) (uses n s.weaks) (get_elem? s.heap.blocks n)
        (get_elem?-length s.heap.blocks) (v.counted.cells n) in
    let one : uses n (s.shareds ++ (some n ∷ [])) ≡ 1 =
      omega (arith, uses-append n s.shareds (some n), own_self n) in
    let zero_left : uses n s.weaks ≡ 0 = no_weak in
    let fresh : IsCounted block 1 0 = record { shared = refl; weak = refl; used = omega arith } in
    (
      record s {
        heap = record s.heap { blocks = s.heap.blocks ++ (some block ∷ []) };
        shareds = s.shareds ++ (some n ∷ []);
      },
      refl,
      record {
        counted = record {
          cells = λ b. elim (Bool-cases (n == b)) [
            | inl same ↦
                let here : n ≡ b = ground arith in
                subst
                  (λ x.
                    CellCounted (get_elem? (s.heap.blocks ++ (some block ∷ [])) x)
                      (uses x (s.shareds ++ (some n ∷ []))) (uses x s.weaks))
                  here (rw (get_elem?-append_last s.heap.blocks (some block), one, zero_left) fresh)
            | inr other ↦
                let apart : n ≢ b = λ eq. let hit : (n == b) ≡ true = ground arith in cc in
                let same : uses b (s.shareds ++ (some n ∷ [])) ≡ uses b s.shareds =
                  omega (arith, uses-append b s.shareds (some n), own_other n b apart) in
                rw (get_elem?-append_other s.heap.blocks (some block) b apart, same)
                  (v.counted.cells b)
          ];
        };
      },
    )

moved :
    (s : Program) (j : ℕ) (c : Option ℕ)
    → IsSound s
    → get_elem? s.shareds j ≡ some c
    → IsSound (record s { shareds = set s.shareds j none ++ (c ∷ []) })
moved s j c v e =
    recount_lem s _ v
      (λ b. omega (arith, uses-append b (set s.shareds j none) c, uses-set b s.shareds j c none e))

assigned :
    (s : Program) (i j : ℕ) (h c : Option ℕ)
    → IsSound s
    → IsSmall s
    → get_elem? s.shareds i ≡ some h
    → get_elem? s.shareds j ≡ some c
    → i ≢ j
    → Returns (release_at s i h >>= point_at i c) IsSound
assigned s i j h c v small e e' apart =
    let (s', ran, (v', hs, ws)) = release_at_lem s i h v small e in
    let there : get_elem? s'.shareds j ≡ some c =
      ap (λ xs. get_elem? xs j) hs ∙ get_elem?-set_ne s.shareds none apart ∙ e' in
    let freed : get_elem? s'.shareds i ≡ some none =
      ap (λ xs. get_elem? xs i) hs
      ∙ get_elem?-set_self s.shareds i none (in_range s.shareds i h e) in
    let small' : IsSmall s' = record {
      few = omega (arith, ap length hs, ap length ws, length-set s.shareds i none, small.few);
    } in
    let (s'', ran', v'') =
      point_at_lem s' i c v' small' freed (λ b. own_le_uses b s'.shareds j c there) in
    (s'', ap (λ r. r >>= point_at i c) ran ∙ ran', v'')

move_assigned :
    (s : Program) (i j : ℕ) (h c : Option ℕ)
    → IsSound s
    → IsSmall s
    → get_elem? s.shareds i ≡ some h
    → get_elem? s.shareds j ≡ some c
    → i ≢ j
    → Returns (release_at s i h >>= hand_over i j c) IsSound
unfolding hand_over
move_assigned s i j h c v small e e' apart =
    let (s', ran, (v', hs, ws)) = release_at_lem s i h v small e in
    let there : get_elem? s'.shareds j ≡ some c =
      ap (λ xs. get_elem? xs j) hs ∙ get_elem?-set_ne s.shareds none apart ∙ e' in
    let freed : get_elem? s'.shareds i ≡ some none =
      ap (λ xs. get_elem? xs i) hs
      ∙ get_elem?-set_self s.shareds i none (in_range s.shareds i h e) in
    let still : get_elem? (set s'.shareds i c) j ≡ some c =
      get_elem?-set_ne s'.shareds c apart ∙ there in
    (
      record s' { shareds = set (set s'.shareds i c) j none },
      ap (λ r. r >>= hand_over i j c) ran,
      recount_lem s' _ v' (λ b. omega (
        arith,
        uses-set b (set s'.shareds i c) j c none still,
        uses-set b s'.shareds i none c freed,
      )),
    )

weak_assigned :
    (s : Program) (i j : ℕ) (h c : Option ℕ)
    → IsSound s
    → IsSmall s
    → get_elem? s.weaks i ≡ some h
    → get_elem? s.weaks j ≡ some c
    → i ≢ j
    → Returns (release_weak_at s i h >>= point_weak_at i c) IsSound
weak_assigned s i j h c v small e e' apart =
    let (s', ran, (v', hs, ws)) = release_weak_at_lem s i h v small e in
    let there : get_elem? s'.weaks j ≡ some c =
      ap (λ xs. get_elem? xs j) hs ∙ get_elem?-set_ne s.weaks none apart ∙ e' in
    let freed : get_elem? s'.weaks i ≡ some none =
      ap (λ xs. get_elem? xs i) hs ∙ get_elem?-set_self s.weaks i none (in_range s.weaks i h e) in
    let small' : IsSmall s' = record {
      few = omega (arith, ap length hs, ap length ws, length-set s.weaks i none, small.few);
    } in
    let (s'', ran', v'') =
      point_weak_at_lem s' i c v' small' freed (λ b. own_le_uses b s'.weaks j c there) in
    (s'', ap (λ r. r >>= point_weak_at i c) ran ∙ ran', v'')

-- A call on one variable, which may not be there, and on two.
on_one :
    (s : Program) (hs : List (Option ℕ)) (i : ℕ) (f : Option ℕ → Result Program)
    → IsSound s
    → ((h : Option ℕ) → get_elem? hs i ≡ some h → Returns (f h) IsSound)
    → Returns (given hs i (ok s) f) IsSound
on_one s hs i f v k = elim (Option-cases (get_elem? hs i)) [
  | inl missing ↦ rw (missing, given) (s, refl, v)
  | inr (h, e) ↦ rw (e, given) (k h e)
]

on_two :
    (s : Program) (i j : ℕ) (r : Result Program)
    → IsSound s
    → (i ≢ j → Returns r IsSound)
    → Returns (if i == j then ok s else r) IsSound
on_two s i j r v k = elim (Bool-cases (i == j)) [
  | inl e ↦ rw e (s, refl, v)
  | inr e ↦ rw e (k (λ eq. let hit : (i == j) ≡ true = ground arith in cc))
]

-- Every call, in a program whose counts are right and whose variables are fewer than an `int` counts,
-- returns and leaves the counts right: it reads no block that was deleted, and deletes none twice.
pub step-IsSound :
    (call : Call) (s : Program) → IsSound s → IsSmall s → Returns (step call s) IsSound
unfolding step
step-IsSound empty_shared s v small = (
  record s { shareds = s.shareds ++ (none ∷ []) },
  refl,
  recount_lem s (s.shareds ++ (none ∷ [])) v (λ b. omega (arith, uses-append b s.shareds none)),
)
step-IsSound empty_weak s v small = (
  record s { weaks = s.weaks ++ (none ∷ []) },
  refl,
  record {
    counted =
        same_counts s.heap (λ a. uses a s.shareds) (λ a. uses a s.weaks) (λ a. uses a s.shareds)
          (λ a. uses a (s.weaks ++ (none ∷ []))) v.counted (λ b. refl)
          (λ b. omega (arith, uses-append b s.weaks none));
  },
)
step-IsSound (make_shared ptr) s v small = made s ptr v
step-IsSound (copy_shared j) s v small =
    on_one s s.shareds j _ v (λ c e. construct_lem s c v small (λ b. own_le_uses b s.shareds j c e))
step-IsSound (move_shared j) s v small =
    on_one s s.shareds j _ v
      (λ c e. (record s { shareds = set s.shareds j none ++ (c ∷ []) }, refl, moved s j c v e))
step-IsSound (destroy_shared i) s v small =
    on_one s s.shareds i _ v
      (λ h e. let (s', ran, (v', hs, ws)) = release_at_lem s i h v small e in (s', ran, v'))
step-IsSound (assign_shared i j) s v small =
    on_one s s.shareds i _ v
      (λ h e. on_one s s.shareds j _ v (λ c e'. on_two s i j _ v (assigned s i j h c v small e e')))
step-IsSound (move_assign_shared i j) s v small = on_one s s.shareds i _ v (λ h e.
    on_one s s.shareds j _ v (λ c e'. on_two s i j _ v (move_assigned s i j h c v small e e')))
step-IsSound (watch j) s v small =
    on_one s s.shareds j _ v
      (λ c e. construct_weak_lem s c v small (λ b. omega (arith, own_le_uses b s.shareds j c e)))
step-IsSound (copy_weak j) s v small =
    on_one s s.weaks j _ v
      (λ c e. construct_weak_lem s c v small (λ b. omega (arith, own_le_uses b s.weaks j c e)))
step-IsSound (destroy_weak i) s v small =
    on_one s s.weaks i _ v
      (λ h e. let (s', ran, (v', hs, ws)) = release_weak_at_lem s i h v small e in (s', ran, v'))
step-IsSound (assign_weak i j) s v small = on_one s s.weaks i _ v (λ h e.
    on_one s s.weaks j _ v (λ c e'. on_two s i j _ v (weak_assigned s i j h c v small e e')))
step-IsSound (lock_weak j) s v small =
    on_one s s.weaks j _ v (λ c e. lock_variable_lem s c v small (λ b. own_le_uses b s.weaks j c e))

-- The states that calls reach from a program without variables.
pub data Reached : Program → Type 0 where
  begun : Reached (record { heap = record { blocks = []; deleted = [] }; shareds = []; weaks = [] })
  called : {s s' : Program} (call : Call) → Reached s → IsSmall s → step call s ≡ ok s' → Reached s'

pub Reached-IsSound : {s : Program} → Reached s → IsSound s
unfolding uses
Reached-IsSound begun = record { counted = record { cells = λ a. (refl, refl) } }
Reached-IsSound (called {s} {s'} call r small e) =
    let (t, ran, v) = step-IsSound call s (Reached-IsSound r) small in
    subst IsSound (ok-injective (sym ran ∙ e)) v
