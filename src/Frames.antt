-- ===== src/Frames.antt =====
-- What the paging code relies on from the page frame allocator (`pmm_alloc_page` of kapi.h), as
-- an interface: the paging modules take one as a parameter.
pub mod Simple
pub mod Blank
use myria.Base.{ℕ, ◌%◌, ◌^◌, ◌<◌, ◌≡◌, ◌≢◌}

-- `r` is the result of an allocation in state `s`: frames never become free by it, and an address
-- other than 0 is that of a page-aligned frame that was free and no longer is.
pub record Allocated {S : Type 0} (Ok : S → Type 0) (Free : S → ℕ → Type 0) (s : S) (r : ℕ × S)
    : Type 0 where
  pub stays_ok : Ok r.1
  pub shrinks : (q : ℕ) → Free r.1 q → Free s q
  pub aligned : r.0 ≢ 0 → r.0 % 4096 ≡ 0
  pub in_range : r.0 ≢ 0 → r.0 < 2 ^ 52
  pub was_free : r.0 ≢ 0 → Free s r.0
  pub is_taken : r.0 ≢ 0 → ¬ Free r.1 r.0

pub record FrameAllocator : Type 1 where
  pub State : Type 0
  pub alloc : State → ℕ × State
  pub Ok : State → Type 0
  pub Free : State → ℕ → Type 0
  pub alloc_lem : (s : State) → Ok s → Allocated Ok Free s (alloc s)
