-- ===== src/Pmm/Tests.antt =====
-- The frame allocator's theorems at concrete states.
use mathlib.Core.List.{Nodup-cons, Nodup-nil, not-mem-nil}
use myria.Base.{ℕ, ◌+◌, ◌≡◌, refl, some, true, arith, [], ◌∷◌, ◌++◌}
use myria.Pmm.{Pmm, pmm_init, pmm_alloc_page, pmm_free_page, pmm_alloc_pages, pmm_get_stats}
use myria.Pmm.Stack.{stack}
use myria.Pmm.Invariant.{Inv, Granted, pmm_init-Inv, pmm_alloc_page-Granted, pmm_free_page-Inv}
use myria.Pmm.Balance.{pool_pages, pmm_get_stats-balance}
use myria.Pmm.Runs.{run, pmm_alloc_pages-run}
use myria.Frames.{Allocated}
use myria.Frames.Simple.{IsOk, IsFree, pmm_alloc_page-Allocated}

abbrev boot : Pmm
boot = record {
  free_pages = λ _. 0;
  free_page_count = 7;
  next_page_addr = 0;
  total_pages = 0;
  allocated_pages = 9;
  freed_pages = 9;
}

abbrev fresh : Pmm
fresh = pmm_init boot

abbrev one : Pmm
one = (pmm_alloc_page fresh).1

abbrev two : Pmm
two = (pmm_alloc_pages one 2).1

abbrev freed : Pmm
freed = pmm_free_page two 0x201000

pmm_alloc_page-Granted_example : Granted [] fresh (pmm_alloc_page fresh)
pmm_alloc_page-Granted_example = pmm_alloc_page-Granted (pmm_init-Inv boot)

one-Inv : Inv (0x200000 ∷ []) one
unfolding pmm_init pmm_alloc_page stack
one-Inv = record {
  count_le = omega arith;
  next_aligned = omega arith;
  next_le = omega arith;
  accounted = omega arith;
  counted = refl;
  total = refl;
  held_frames = (record { aligned = omega arith; above = omega arith; below = omega arith }, tt);
  free_frames = tt;
  distinct = Nodup-cons.1 (not-mem-nil, Nodup-nil);
}

pmm_free_page-Inv_example : Inv [] (pmm_free_page one 0x200000)
unfolding pmm_init pmm_alloc_page
pmm_free_page-Inv_example = (pmm_free_page-Inv [] one 0x200000 one-Inv).0 (omega arith)

pmm_get_stats-balance_example :
    (f : ℕ) × (pmm_get_stats one true true true
      ≡ record { total = some pool_pages; free = some f; used = some 1 })
    × (f + 1 ≡ pool_pages)
pmm_get_stats-balance_example = pmm_get_stats-balance (0x200000 ∷ []) one one-Inv

pmm_alloc_pages-run_example :
    (t : Pmm) × (pmm_alloc_pages one 2 ≡ (0x201000, t)) × Inv (run 0x201000 2 ++ 0x200000 ∷ []) t
unfolding pmm_init pmm_alloc_page
pmm_alloc_pages-run_example =
    (pmm_alloc_pages-run (0x200000 ∷ []) one 2 (omega arith) one-Inv).2 (omega arith) (omega arith)

pmm_alloc_page-Allocated_example : Allocated IsOk IsFree one (pmm_alloc_page one)
pmm_alloc_page-Allocated_example = pmm_alloc_page-Allocated one (0x200000 ∷ [], one-Inv)
