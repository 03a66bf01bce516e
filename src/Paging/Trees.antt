-- ===== src/Paging/Trees.antt =====
-- When the frames reachable from a top-level table form a tree. `role` is a ghost map that gives
-- each table frame the indices that lead to it, the last first.
use myria.Base.{ℕ, ◌%◌, ◌<◌, ◌≡◌, true, Option, some, List, [], ◌∷◌, length}
use myria.Memory.{Memory, entry}
use myria.Paging.{is_present, pte_to_phys}

abbrev pub Role : Type 0
Role = ℕ → Option (List ℕ)

-- The top-level entries that belong to the tree; below the top all do.
abbrev pub Within : (ℕ → Type 0) → List ℕ → ℕ → Type 0
Within slot [] i = slot i
Within slot (k ∷ p) i = Unit {0}

-- A path of indices from a table whose role is `p` that stays in the tree.
abbrev pub IsPath : (ℕ → Type 0) → List ℕ → List ℕ → Type 0
IsPath slot p [] = Unit {0}
IsPath slot p (i ∷ is) = (i < 512) × Within slot p i × IsPath slot (i ∷ p) is

-- No two entries point to one table, none of the tables is a free frame, and every present entry
-- above the last level leads to a table, also one with the bit of a large page.
pub record Tree (slot : ℕ → Type 0) (root : ℕ) (Free : ℕ → Type 0) (role : Role) (m : Memory)
    : Type 0 where
  pub rooted : role root ≡ some []
  pub aligned : (f : ℕ) (p : List ℕ) → role f ≡ some p → f % 4096 ≡ 0
  pub taken : (f : ℕ) (p : List ℕ) → role f ≡ some p → ¬ Free f
  pub child :
      (f : ℕ) (p : List ℕ) (i : ℕ)
      → role f ≡ some p
      → length p < 3
      → i < 512
      → Within slot p i
      → is_present (entry m f i) ≡ true
      → role (pte_to_phys (entry m f i)) ≡ some (i ∷ p)
