-- ===== src/Vmm/Refusal.antt =====
-- Why a walk that makes tables stops, and that it stops for no other reason.
use myria.Base.{ℕ, ◌≡◌, ◌⊎◌, inl, inr, refl, true, Option, none, some}
use myria.Frames.{FrameAllocator}
use myria.Paging.Machine.{Machine}
use myria.Vmm.{and_then}
use myria.Vmm.Refine.{write_leaf}

module _ (A : FrameAllocator) where
  open A use {State, alloc}

  -- The frame allocator has just refused a frame.
  pub record RanOut (after : State) : Type 0 where
    pub before : State
    pub refused : (alloc before).0 ≡ 0
    pub then_left : after ≡ (alloc before).1

  -- A walk found a table; or it stopped, and `Large` holds or no frame was left.
  pub data Explained (Large : Type 0) : Option ℕ × Machine State → Type 0 where
    found : (c : ℕ) (h' : Machine State) → Explained Large (some c, h')
    large : (h' : Machine State) → Large → Explained Large (none, h')
    ran_out : (h' : Machine State) → RanOut h'.pmm → Explained Large (none, h')

  -- After the walk, the entry is written or nothing is.
  pub write_leaf-Explained :
      (Large : Type 0) (va e : ℕ) (r : Option ℕ × Machine State)
      → Explained Large r
      → ((write_leaf A va e r).0 ≡ true) ⊎ Large ⊎ RanOut (write_leaf A va e r).1.pmm
  write_leaf-Explained Large va e _ (found c h') = inl refl
  write_leaf-Explained Large va e _ (large h' why) = inr (inl why)
  write_leaf-Explained Large va e _ (ran_out h' out) = inr (inr out)

  -- A step that may stop, and then the rest.
  pub and_then-Explained :
      {Large : Type 0} {r : Option ℕ × Machine State}
      (rest : ℕ → Machine State → Option ℕ × Machine State)
      → Explained Large r
      → ((c : ℕ) (h' : Machine State) → Explained Large (rest c h'))
      → Explained Large (and_then A r rest)
  and_then-Explained rest (found c h') go = go c h'
  and_then-Explained rest (large h' why) go = large h' why
  and_then-Explained rest (ran_out h' out) go = ran_out h' out
