-- ===== src/Pmm/Invariant.antt =====
-- What the allocator's state means beside the frames that its clients hold.
use mathlib.Core.List.{Mem, Nodup, Nodup-cons, Nodup-nil, mem-cons, mem-append_left, not-mem-nil}
use mathlib.Core.Logic.Or
use mathlib.Core.HLevel.{⊥_prop}
use native.Mathlib.Decide.{dec_lt}
use myria.Base.{
  ℕ, ◌+◌, ◌-◌, ◌*◌, ◌/◌, ◌%◌, ◌≤◌, ◌<◌, ◌≡◌, refl, List, [], ◌∷◌, ◌++◌, arith, ltb, lt→ltb,
  le→ltb_false, lt→leb_false, leb, u32, u64, false,
}
use myria.Pmm.{
  Pmm, page_size, max_free_pages, pmm_start_addr, pmm_end_addr, pmm_init, pmm_alloc_page,
  pmm_free_page,
}
use myria.Pmm.Stack.{stack, stack_push, stack_pop, All, All-map, Nodup-move}
use myria.Base.{length}

-- A frame of the pool that lies below `limit`.
pub record IsFrame (limit p : ℕ) : Type 0 where
  pub aligned : p % page_size ≡ 0
  pub above : pmm_start_addr ≤ p
  pub below : p < limit

-- `held` are the frames that clients have been given and have not freed.
pub record Inv (held : List ℕ) (s : Pmm) : Type 0 where
  pub count_le : s.free_page_count ≤ max_free_pages
  pub next_aligned : s.next_page_addr % page_size ≡ 0
  pub next_le : s.next_page_addr ≤ pmm_end_addr
  pub accounted :
      pmm_start_addr + (s.allocated_pages + s.free_page_count) * page_size ≡ s.next_page_addr
  pub counted : length held ≡ s.allocated_pages
  pub total : s.total_pages ≡ (pmm_end_addr - pmm_start_addr) / page_size
  pub held_frames : All (IsFrame s.next_page_addr) held
  pub free_frames : All (IsFrame s.next_page_addr) (stack s.free_pages s.free_page_count)
  pub distinct : Nodup (held ++ stack s.free_pages s.free_page_count)

-- Initialisation starts with every frame free, whatever the memory held before.
pub pmm_init-Inv : (s : Pmm) → Inv [] (pmm_init s)
unfolding pmm_init stack
pmm_init-Inv s = record {
  count_le = omega arith;
  next_aligned = omega arith;
  next_le = omega arith;
  accounted = omega arith;
  counted = refl;
  total = refl;
  held_frames = tt;
  free_frames = tt;
  distinct = Nodup-nil;
}

-- What an allocation may do: refuse, changing nothing, or hand out a frame nobody holds.
pub data Granted (held : List ℕ) (s : Pmm) : ℕ × Pmm → Type 0 where
  refused : s.free_page_count ≡ 0 → s.next_page_addr ≡ pmm_end_addr → Granted held s (0, s)
  granted :
      (p : ℕ) (t : Pmm)
      → IsFrame pmm_end_addr p
      → ¬ Mem p held
      → Inv (p ∷ held) t
      → Granted held s (p, t)

pub IsFrame-below : {m n p : ℕ} → m ≤ n → IsFrame m p → IsFrame n p
IsFrame-below h f = record { aligned = f.aligned; above = f.above; below = omega arith }

-- Frames below a limit do not include it.
pub not-mem-limit : (n : ℕ) (xs : List ℕ) → All (IsFrame n) xs → ¬ Mem n xs
not-mem-limit n [] h m = not-mem-nil m
not-mem-limit n (x ∷ xs) h m = Or.elim ⊥_prop (mem-cons.0 m) (λ e. n≢x e) (not-mem-limit n xs h.1)
  where
    n≢x : n ≡ x → ⊥
    n≢x e = let lt = h.0.below in absurd (omega arith)

frames_append :
    (n : ℕ) (xs ys : List ℕ) → All (IsFrame n) xs → All (IsFrame n) ys → All (IsFrame n) (xs ++ ys)
frames_append n [] ys h k = k
frames_append n (x ∷ xs) ys h k = (h.0, frames_append n xs ys h.1 k)

module _ {held : List ℕ} {s : Pmm} (v : Inv held s) where
  take_from_stack : 0 < s.free_page_count → Granted held s (pmm_alloc_page s)
  unfolding pmm_alloc_page
  take_from_stack h = rw (lt→ltb _ _ h) (
      granted top _ (IsFrame-below v.next_le frames.0)
        (λ m. (Nodup-cons.0 moved).0 (mem-append_left _ m))
        (record {
          count_le = let le = v.count_le in omega arith;
          next_aligned = v.next_aligned;
          next_le = v.next_le;
          accounted = let e = v.accounted in let le = v.next_le in omega arith;
          counted = let e = v.accounted in let le = v.next_le in let c = v.counted in omega arith;
          total = v.total;
          held_frames = (frames.0, v.held_frames);
          free_frames = frames.1;
          distinct = moved;
        }))
    where
      top : ℕ
      top = s.free_pages (s.free_page_count - 1)

      rest : List ℕ
      rest = stack s.free_pages (s.free_page_count - 1)

      frames : All (IsFrame s.next_page_addr) (top ∷ rest)
      frames = rw (stack_pop s.free_pages s.free_page_count h) at v.free_frames

      moved : Nodup (top ∷ (held ++ rest))
      moved =
          (Nodup-move top held rest).0
            (rw (stack_pop s.free_pages s.free_page_count h) at v.distinct)

  pub start_le_next : pmm_start_addr ≤ s.next_page_addr
  start_le_next = let a = v.accounted in omega arith

  pub bump_one-Inv :
      s.next_page_addr < pmm_end_addr
      → Inv (s.next_page_addr ∷ held) (record s {
        next_page_addr = s.next_page_addr + page_size;
        allocated_pages = s.allocated_pages + 1;
      })
  bump_one-Inv h = record {
    count_le = let le = v.count_le in omega arith;
    next_aligned = let a = v.next_aligned in omega arith;
    next_le = let a = v.next_aligned in omega arith;
    accounted = let a = v.accounted in omega arith;
    counted = let c = v.counted in omega arith;
    total = v.total;
    held_frames = (
      record { aligned = v.next_aligned; above = start_le_next; below = omega arith },
      All-map held (λ x f. IsFrame-below (omega arith) f) v.held_frames,
    );
    free_frames = All-map _ (λ x f. IsFrame-below (omega arith) f) v.free_frames;
    distinct = Nodup-cons.1 (
      not-mem-limit s.next_page_addr _
          (frames_append s.next_page_addr held _ v.held_frames v.free_frames),
      v.distinct,
    );
  }

  take_fresh :
      s.free_page_count ≡ 0 → s.next_page_addr < pmm_end_addr → Granted held s (pmm_alloc_page s)
  unfolding pmm_alloc_page
  take_fresh e h =
      rw (le→ltb_false 0 s.free_page_count (omega arith), lt→ltb _ _ h, u64_next, u64_used)
        (granted s.next_page_addr _
          (record { aligned = v.next_aligned; above = start_le_next; below = h })
          (not-mem-limit s.next_page_addr held v.held_frames) (bump_one-Inv h))
    where
      u64_next : u64 (s.next_page_addr + page_size) ≡ s.next_page_addr + page_size
      u64_next = omega arith

      u64_used : u64 (s.allocated_pages + 1) ≡ s.allocated_pages + 1
      u64_used = let a = v.accounted in omega arith

  out_of_memory :
      s.free_page_count ≡ 0 → pmm_end_addr ≤ s.next_page_addr → Granted held s (pmm_alloc_page s)
  unfolding pmm_alloc_page
  out_of_memory e h =
      rw (le→ltb_false 0 s.free_page_count (omega arith), le→ltb_false _ _ h)
        (refused e (let le = v.next_le in omega arith))

  -- An allocation refuses only when the free stack is empty and the pool used up. Otherwise it
  -- hands out a page-aligned frame of the pool that no client holds, and keeps the invariant.
  pub pmm_alloc_page-Granted : Granted held s (pmm_alloc_page s)
  pmm_alloc_page-Granted = elim (dec_lt 0 s.free_page_count) [
    | yes some_free ↦ take_from_stack some_free
    | no none_free ↦ elim (dec_lt s.next_page_addr pmm_end_addr) [
      | yes fresh ↦ take_fresh (omega arith) fresh
      | no used_up ↦ out_of_memory (omega arith) (omega arith)
    ]
  ]

module _ {held : List ℕ} {s : Pmm} (p : ℕ) (v : Inv (p ∷ held) s) where
  in_pool : (ltb p pmm_start_addr ≡ false) × (leb pmm_end_addr p ≡ false)
  in_pool =
      let f = v.held_frames.0 in
      let a = f.above in
      let b = f.below in let le = v.next_le in (le→ltb_false _ _ a, lt→leb_false _ _ (omega arith))

  freed_room : s.free_page_count < max_free_pages → Inv held (pmm_free_page s p)
  unfolding pmm_free_page
  freed_room room =
      rw (in_pool.0, in_pool.1, lt→ltb _ _ room, lt→ltb _ _ some_used, u32_count)
        (record {
          count_le = omega arith;
          next_aligned = v.next_aligned;
          next_le = v.next_le;
          accounted = let a = v.accounted in let c = v.counted in omega arith;
          counted = let c = v.counted in omega arith;
          total = v.total;
          held_frames = v.held_frames.1;
          free_frames =
              rw (stack_push s.free_pages s.free_page_count p) (v.held_frames.0, v.free_frames);
          distinct =
              rw (stack_push s.free_pages s.free_page_count p) ((Nodup-move p held _).1 v.distinct);
        })
    where
      some_used : 0 < s.allocated_pages
      some_used = let c = v.counted in omega arith

      u32_count : u32 (s.free_page_count + 1) ≡ s.free_page_count + 1
      u32_count = omega arith

  freed_full : max_free_pages ≤ s.free_page_count → pmm_free_page s p ≡ s
  unfolding pmm_free_page
  freed_full full = rw (in_pool.0, in_pool.1, le→ltb_false _ _ full)

-- Freeing a held frame returns it to the free stack if the stack has room; when 1024 frames are
-- on it already the call changes nothing, so the frame stays lost to the pool.
pub pmm_free_page-Inv :
    (held : List ℕ) (s : Pmm) (p : ℕ)
    → Inv (p ∷ held) s
    → (s.free_page_count < max_free_pages → Inv held (pmm_free_page s p))
      × (max_free_pages ≤ s.free_page_count → pmm_free_page s p ≡ s)
pmm_free_page-Inv held s p v = (freed_room p v, freed_full p v)
