-- ===== src/Pmm/Session.antt =====
-- Clients of the allocator over time: any sequence of its calls, each freeing only frames that
-- are held.
use mathlib.Core.List.{Nodup}
use mathlib.Core.List.Nodup
use myria.Base.{ℕ, ◌+◌, ◌≤◌, ◌<◌, ◌^◌, ◌≡◌, ◌≢◌, List, [], ◌∷◌, ◌++◌}
use myria.Pmm.{
  Pmm, max_free_pages, pmm_init, pmm_alloc_page, pmm_alloc_pages, pmm_free_page, pmm_free_pages,
}
use myria.Pmm.Runs.{run}

pub data Step : List ℕ → Pmm → List ℕ → Pmm → Type 0 where
  allocs :
      {held : List ℕ} {s t : Pmm} (p : ℕ)
      → pmm_alloc_page s ≡ (p, t)
      → p ≢ 0
      → Step held s (p ∷ held) t
  alloc_fails : {held : List ℕ} {s t : Pmm} → pmm_alloc_page s ≡ (0, t) → Step held s held t
  allocs_run :
      {held : List ℕ} {s t : Pmm} (p count : ℕ)
      → 0 < count
      → count < 2 ^ 51
      → pmm_alloc_pages s count ≡ (p, t)
      → p ≢ 0
      → Step held s (run p count ++ held) t
  frees :
      (xs ys : List ℕ) {s : Pmm} (p : ℕ)
      → s.free_page_count < max_free_pages
      → Step (xs ++ p ∷ ys) s (xs ++ ys) (pmm_free_page s p)
  -- The frame of a call that found the stack full is never handed out again.
  free_is_lost :
      (xs ys : List ℕ) {s : Pmm} (p : ℕ)
      → max_free_pages ≤ s.free_page_count
      → Step (xs ++ p ∷ ys) s (xs ++ p ∷ ys) (pmm_free_page s p)
  frees_run :
      {held : List ℕ} {s : Pmm} (p count : ℕ)
      → s.free_page_count + count ≤ max_free_pages
      → Step (run p count ++ held) s held (pmm_free_pages s p count)

pub data Reach (boot : Pmm) : List ℕ → Pmm → Type 0 where
  booted : Reach boot [] (pmm_init boot)
  later :
      {held after : List ℕ} {s t : Pmm}
      → Reach boot held s
      → Step held s after t
      → Reach boot after t
