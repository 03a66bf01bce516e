-- ===== src/Pmm/Stack.antt =====
-- The live part of `free_pages` as a list, the top first, and lists of frames.
use mathlib.Core.List.{Nodup, perm_middle}
use mathlib.Core.List.Perm
use myria.Base.{
  ℕ, zero, suc, ◌+◌, ◌-◌, ◌≤◌, ◌<◌, ◌≡◌, refl, ◌↔◌, List, [], ◌∷◌, ◌++◌, arith, update, update_ne,
  update_self,
}

unfoldable pub stack : (ℕ → ℕ) → ℕ → List ℕ
stack pages zero = []
stack pages (suc n) = pages n ∷ stack pages n

-- A write at or above the top leaves the live part alone.
pub stack-update : (pages : ℕ → ℕ) (n i v : ℕ) → n ≤ i → stack (update pages i v) n ≡ stack pages n
unfolding stack
stack-update pages zero i v h = refl
stack-update pages (suc n) i v h =
    ground (arith, stack-update pages n i v, update_ne pages i n v (omega arith))

pub stack_push : (pages : ℕ → ℕ) (n v : ℕ) → stack (update pages n v) (n + 1) ≡ v ∷ stack pages n
stack_push pages n v = pushed (n + 1) (omega arith)
  where
    pushed : (m : ℕ) → m ≡ suc n → stack (update pages n v) m ≡ v ∷ stack pages n
    pushed m e =
        rw e (unfold stack in ground (arith, stack-update pages n n v, update_self pages n v))

pub stack_pop :
    (pages : ℕ → ℕ) (n : ℕ) → 0 < n → stack pages n ≡ pages (n - 1) ∷ stack pages (n - 1)
unfolding stack
stack_pop pages zero h = absurd (omega arith)
stack_pop pages (suc n) h = let e : suc n - 1 ≡ n = omega arith in rw e

abbrev pub All : (ℕ → Type 0) → List ℕ → Type 0
All P [] = Unit {0}
All P (x ∷ xs) = P x × All P xs

pub All-map : {P Q : ℕ → Type 0} (xs : List ℕ) → ((x : ℕ) → P x → Q x) → All P xs → All Q xs
All-map [] f h = tt
All-map (x ∷ xs) f h = (f x h.0, All-map xs f h.1)

-- A frame may move between two lists that have no frame twice.
pub Nodup-move : (x : ℕ) (xs ys : List ℕ) → Nodup (xs ++ x ∷ ys) ↔ Nodup (x ∷ (xs ++ ys))
Nodup-move x xs ys = (Perm.nodup (perm_middle xs ys), Perm.nodup (Perm.symm (perm_middle xs ys)))
