-- ===== src/Pmm/Runs.antt =====
-- Runs of frames: `pmm_alloc_pages` and `pmm_free_pages`.
use mathlib.Core.List.{append_assoc}
use myria.Base.{
  ℕ, zero, suc, ◌+◌, ◌*◌, ◌^◌, ◌≤◌, ◌<◌, ◌≡◌, refl, List, [], ◌∷◌, ◌++◌, arith, sym, u64,
}
use myria.Pmm.{
  Pmm, page_size, max_free_pages, pmm_end_addr, pmm_alloc_pages, pmm_free_page, pmm_free_pages,
  free_pages_from,
}
use myria.Pmm.Stack.{stack, All, Nodup-move}
use myria.Base.{length}
use myria.Pmm.Invariant.{Inv, IsFrame, bump_one-Inv, pmm_free_page-Inv}

-- The `n` frames from `p` upwards.
abbrev pub run : ℕ → ℕ → List ℕ
run p zero = []
run p (suc n) = p ∷ run (p + page_size) n

length-front : (x : ℕ) (xs ys : List ℕ) → length (xs ++ x ∷ ys) ≡ length (x ∷ (xs ++ ys))
length-front x [] ys = refl
length-front x (y ∷ xs) ys = omega (arith, length-front x xs ys)

All-front :
    (P : ℕ → Type 0) (x : ℕ) (xs ys : List ℕ) → All P (xs ++ x ∷ ys) → All P (x ∷ (xs ++ ys))
All-front P x [] ys h = h
All-front P x (y ∷ xs) ys h = let r = All-front P x xs ys h.1 in (r.0, (h.0, r.1))

-- The order in which frames are listed does not matter.
pub Inv-front : (x : ℕ) (xs ys : List ℕ) (s : Pmm) → Inv (xs ++ x ∷ ys) s → Inv (x ∷ (xs ++ ys)) s
Inv-front x xs ys s v = record {
  count_le = v.count_le;
  next_aligned = v.next_aligned;
  next_le = v.next_le;
  accounted = v.accounted;
  counted = let c = v.counted in omega (arith, length-front x xs ys);
  total = v.total;
  held_frames = All-front (IsFrame s.next_page_addr) x xs ys v.held_frames;
  free_frames = v.free_frames;
  distinct =
      let free = stack s.free_pages s.free_page_count in
      rw (append_assoc xs ys free)
        ((Nodup-move x xs (ys ++ free)).0 (rw (append_assoc xs (x ∷ ys) free) at v.distinct));
}

abbrev bump : Pmm → ℕ → Pmm
bump s n = record s {
  next_page_addr = s.next_page_addr + n * page_size;
  allocated_pages = s.allocated_pages + n;
}

bump-zero : (s : Pmm) → bump s 0 ≡ s
bump-zero s = ground arith

bump-suc : (s : Pmm) (n : ℕ) → bump (bump s 1) n ≡ bump s (suc n)
bump-suc s n = ground arith

bump-Inv :
    (n : ℕ) (held : List ℕ) (s : Pmm)
    → s.next_page_addr + n * page_size ≤ pmm_end_addr
    → Inv held s
    → Inv (run s.next_page_addr n ++ held) (bump s n)
bump-Inv zero held s h v = rw (bump-zero s) v
bump-Inv (suc n) held s h v = rw (sym (bump-suc s n)) (
    Inv-front s.next_page_addr (run (s.next_page_addr + page_size) n) held (bump (bump s 1) n) (
      bump-Inv n (s.next_page_addr ∷ held) (bump s 1) (omega arith) (bump_one-Inv v (omega arith))))

-- Allocating `count` frames at once: nothing for a count of 0 or where the pool is too short;
-- otherwise a run of fresh frames from the bump pointer, all of them held afterwards.
pub pmm_alloc_pages-run :
    (held : List ℕ) (s : Pmm) (count : ℕ)
    → count < 2 ^ 51
    → Inv held s
    → (count ≡ 0 → pmm_alloc_pages s count ≡ (0, s))
      × (pmm_end_addr < s.next_page_addr + count * page_size → pmm_alloc_pages s count ≡ (0, s))
      × (0 < count
          → s.next_page_addr + count * page_size ≤ pmm_end_addr
          → (t : Pmm) × (pmm_alloc_pages s count ≡ (s.next_page_addr, t))
            × Inv (run s.next_page_addr count ++ held) t)
unfolding pmm_alloc_pages
pmm_alloc_pages-run held s count small v = (
  (λ e. rw e),
  (λ short. let le = v.next_le in ground arith),
  (λ pos fits. let a = v.accounted in (bump s count, ground arith, bump-Inv count held s fits v)),
)

count-pmm_free_page :
    (s : Pmm) (p : ℕ) → (pmm_free_page s p).free_page_count ≤ s.free_page_count + 1
unfolding pmm_free_page
count-pmm_free_page s p = ground arith

free_pages_from-Inv :
    (left i p : ℕ) (held : List ℕ) (s : Pmm)
    → s.free_page_count + left ≤ max_free_pages
    → Inv (run (p + i * page_size) left ++ held) s
    → Inv held (free_pages_from s p i left)
unfolding free_pages_from
free_pages_from-Inv zero i p held s room v = v
free_pages_from-Inv (suc left) i p held s room v = rw here (
    free_pages_from-Inv left (i + 1) p held (pmm_free_page s (p + i * page_size))
      (omega (arith, count-pmm_free_page s (p + i * page_size)))
      (rw next ((pmm_free_page-Inv _ s (p + i * page_size) v).0 (omega arith))))
  where
    here : u64 (p + u64 (i * page_size)) ≡ p + i * page_size
    here = let b = v.held_frames.0.below in let le = v.next_le in omega arith

    next : p + (i + 1) * page_size ≡ p + i * page_size + page_size
    next = omega arith

-- Freeing, frame by frame, a run that is held returns all of it if the free stack has the room.
pub pmm_free_pages-Inv :
    (held : List ℕ) (s : Pmm) (p count : ℕ)
    → s.free_page_count + count ≤ max_free_pages
    → Inv (run p count ++ held) s
    → Inv held (pmm_free_pages s p count)
unfolding pmm_free_pages
pmm_free_pages-Inv held s p count room v =
    free_pages_from-Inv count 0 p held s room
      (let e : p + 0 * page_size ≡ p = omega arith in rw e v)
