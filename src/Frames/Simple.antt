-- ===== src/Frames/Simple.antt =====
-- pmm_simple.c as a frame allocator.
use mathlib.Core.List.{Mem, Nodup-cons, List, mem-cons_of_mem, mem-cons_self}
use mathlib.Core.List.Nodup
use native.Mathlib.Decide.{dec_lt}
use myria.Base.{
  ℕ, ◌∷◌, ◌+◌, ◌-◌, ◌%◌, ◌≤◌, ◌<◌, ◌≡◌, ◌≢◌, ◌⊎◌, inl, inr, refl, arith, lt→ltb, le→ltb_false, u64,
}
use myria.Pmm.{Pmm, pmm_alloc_page, pmm_end_addr, page_size}
use myria.Pmm.Stack.{stack, stack_pop, All}
use myria.Pmm.Invariant.{
  Inv, IsFrame, Granted, refused, granted, pmm_alloc_page-Granted, not-mem-limit,
}
use myria.Frames.{FrameAllocator, Allocated}

abbrev pub IsOk : Pmm → Type 0
IsOk s = (held : List ℕ) × Inv held s

-- On the free stack, or not yet reached by the bump pointer.
abbrev pub IsFree : Pmm → ℕ → Type 0
IsFree s q = Mem q (stack s.free_pages s.free_page_count) ⊎ (s.next_page_addr ≤ q)

Granted-frame :
    {held : List ℕ} {s : Pmm} {r : ℕ × Pmm}
    → Granted held s r
    → r.0 ≢ 0
    → (r.0 % 4096 ≡ 0) × (r.0 < pmm_end_addr)
Granted-frame (refused e f) h = absurd (h refl)
Granted-frame (granted p t f n v) h = (f.aligned, f.below)

Granted-IsOk : {held : List ℕ} {s : Pmm} {r : ℕ × Pmm} → Inv held s → Granted held s r → IsOk r.1
Granted-IsOk {held} v (refused e f) = (held, v)
Granted-IsOk {held} v (granted p t f n w) = (p ∷ held, w)

abbrev Moves : Pmm → ℕ × Pmm → Type 0
Moves s r = ((q : ℕ) → IsFree r.1 q → IsFree s q) × (r.0 ≢ 0 → IsFree s r.0 × (¬ IsFree r.1 r.0))

module _ {held : List ℕ} {s : Pmm} (v : Inv held s) where
  pop-Moves : 0 < s.free_page_count → Moves s (pmm_alloc_page s)
  unfolding pmm_alloc_page
  pop-Moves h =
      rw (lt→ltb _ _ h)
        ((λ q f. weaker q f), λ _. (inl (rw (stack_pop _ _ h) mem-cons_self), λ f. taken f))
    where
      top : ℕ
      top = s.free_pages (s.free_page_count - 1)

      rest : List ℕ
      rest = stack s.free_pages (s.free_page_count - 1)

      weaker : (q : ℕ) → Mem q rest ⊎ (s.next_page_addr ≤ q) → IsFree s q
      weaker q (inl m) = inl (rw (stack_pop s.free_pages s.free_page_count h) (mem-cons_of_mem _ m))
      weaker q (inr l) = inr l

      taken : Mem top rest ⊎ (s.next_page_addr ≤ top) → ⊥
      taken (inl m) =
          (Nodup-cons.0 (
              rw (stack_pop s.free_pages s.free_page_count h) at
                (Nodup.of_append_right held v.distinct))).0
            m
      taken (inr l) =
          let fs : All (IsFrame s.next_page_addr) (top ∷ rest) =
            rw (stack_pop s.free_pages s.free_page_count h) at v.free_frames in
          let b = fs.0.below in absurd (omega arith)

  fresh-Moves : s.free_page_count ≤ 0 → s.next_page_addr < pmm_end_addr → Moves s (pmm_alloc_page s)
  unfolding pmm_alloc_page
  fresh-Moves e h =
      rw (le→ltb_false _ _ e, lt→ltb _ _ h, u64_next)
        ((λ q f. weaker q f), λ _. (inr (omega arith), λ f. taken f))
    where
      u64_next : u64 (s.next_page_addr + page_size) ≡ s.next_page_addr + page_size
      u64_next = omega arith

      weaker :
          (q : ℕ)
          → Mem q (stack s.free_pages s.free_page_count) ⊎ (s.next_page_addr + page_size ≤ q)
          → IsFree s q
      weaker q (inl m) = inl m
      weaker q (inr l) = inr (omega arith)

      taken :
          Mem s.next_page_addr (stack s.free_pages s.free_page_count)
            ⊎ (s.next_page_addr + page_size ≤ s.next_page_addr)
          → ⊥
      taken (inl m) = not-mem-limit s.next_page_addr _ v.free_frames m
      taken (inr l) = absurd (omega arith)

  fail-Moves : s.free_page_count ≤ 0 → pmm_end_addr ≤ s.next_page_addr → Moves s (pmm_alloc_page s)
  unfolding pmm_alloc_page
  fail-Moves e h = rw (le→ltb_false _ _ e, le→ltb_false _ _ h) ((λ q f. f), λ z. absurd (z refl))

  alloc-Moves : Moves s (pmm_alloc_page s)
  alloc-Moves = elim (dec_lt 0 s.free_page_count) [
    | yes some_free ↦ pop-Moves some_free
    | no none_free ↦ elim (dec_lt s.next_page_addr pmm_end_addr) [
      | yes fresh ↦ fresh-Moves (omega arith) fresh
      | no used_up ↦ fail-Moves (omega arith) (omega arith)
    ]
  ]

-- The allocator that the build links keeps every promise of the interface.
pub pmm_alloc_page-Allocated : (s : Pmm) → IsOk s → Allocated IsOk IsFree s (pmm_alloc_page s)
pmm_alloc_page-Allocated s (held, v) = record {
  stays_ok = Granted-IsOk v (pmm_alloc_page-Granted v);
  shrinks = (alloc-Moves v).0;
  aligned = λ z. (Granted-frame (pmm_alloc_page-Granted v) z).0;
  in_range = λ z. let b = (Granted-frame (pmm_alloc_page-Granted v) z).1 in omega arith;
  was_free = λ z. ((alloc-Moves v).1 z).0;
  is_taken = λ z. ((alloc-Moves v).1 z).1;
}

abbrev pub simple : FrameAllocator
simple = record {
  State = Pmm;
  alloc = pmm_alloc_page;
  Ok = IsOk;
  Free = IsFree;
  alloc_lem = pmm_alloc_page-Allocated;
}
