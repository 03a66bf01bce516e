-- ===== src/Heap/Wrap.antt =====
-- Requests whose size makes the arithmetic of `kmalloc` wrap at 64 bits.
use myria.Base.{
  refl, ℕ, ◌+◌, ◌-◌, ◌%◌, ◌^◌, ◌≤◌, ◌<◌, ◌≡◌, ◌≢◌, arith, u64, ne→==_false, lt→leb_false,
}
use myria.Heap.{Heap, kernel_heap_start, kernel_heap_end, align_up8, ready, kmalloc}
use myria.Heap.Layout.{IsOk, align_up8_lem, ready_set}

module _ {h : Heap} (size : ℕ) (v : IsOk h) where
  top : (kernel_heap_start ≤ ready h) × (ready h < kernel_heap_end) × (ready h % 8 ≡ 0)
  top = let s = v.starts in let b = v.below in let a = v.aligned in ground arith

  grants :
      (next : ℕ)
      → size ≢ 0
      → u64 (ready h + align_up8 size) ≡ next
      → next < kernel_heap_end
      → kmalloc h size ≡ (ready h, record { simple_heap_ptr = next })
  unfolding kmalloc
  grants next pos e lt = rw (ne→==_false size 0 pos, e, lt→leb_false _ _ lt)

-- A request within 7 bytes of 2^64 is rounded up to 0: it is granted, but reserves nothing, and
-- the next request of at most 8 bytes is granted the same address if the window has 16 bytes left.
pub kmalloc_reserves_nothing :
    {h : Heap} (size again : ℕ)
    → IsOk h
    → 2 ^ 64 - 8 < size
    → size < 2 ^ 64
    → 0 < again
    → again ≤ 8
    → ready h + 16 < kernel_heap_end
    → ((kmalloc h size).0 ≡ ready h) × ((kmalloc (kmalloc h size).1 again).0 ≡ ready h)
kmalloc_reserves_nothing {h} size again v big fits pos small room =
    let t = top size v in
    let w : IsOk (record { simple_heap_ptr = ready h }) = record {
      starts = λ z. t.0;
      below = t.1;
      aligned = t.2;
    } in
    let same : ready (record { simple_heap_ptr = ready h }) ≡ ready h =
      ready_set (ready h) (λ z. absurd (omega arith)) in
    let second =
      grants again w (ready h + 8) (λ z. absurd (omega arith))
        (rw same (omega (arith, align_up8_lem again))) (omega arith) in
    rw (grants size v (ready h) (λ z. absurd (omega arith)) (omega (arith, align_up8_lem size)) t.1)
      (refl, (rw (second) same))

-- A request that ends exactly at 2^64 passes the limit test, since the sum wraps to 0; the next
-- request of at most 8 bytes is then served from the start of the heap again.
pub kmalloc_starts_over :
    {h : Heap} (size again : ℕ)
    → IsOk h
    → ready h + size ≡ 2 ^ 64
    → 0 < again
    → again ≤ 8
    → ((kmalloc h size).0 ≡ ready h) × ((kmalloc (kmalloc h size).1 again).0 ≡ kernel_heap_start)
kmalloc_starts_over {h} size again v ends pos small =
    let t = top size v in
    let w : IsOk (record { simple_heap_ptr = 0 }) = record {
      starts = λ z. absurd (z refl);
      below = omega arith;
      aligned = refl;
    } in
    let second =
      grants again w (kernel_heap_start + 8) (λ z. absurd (omega arith))
        (omega (arith, align_up8_lem again)) (omega arith) in
    rw
      (grants size v 0 (λ z. absurd (omega arith)) (omega (arith, align_up8_lem size))
        (omega arith))
      (refl, rw second refl)
