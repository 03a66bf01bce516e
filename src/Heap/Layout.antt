-- ===== src/Heap/Layout.antt =====
-- The blocks that `kmalloc` has handed out.
use myria.Base.{ℕ, ◌+◌, ◌-◌, ◌*◌, ◌/◌, ◌%◌, ◌^◌, ◌≤◌, ◌<◌, ◌≡◌, ◌≢◌, ◌⊎◌, arith, List, [], ◌∷◌, u64}
use myria.Base.Bits.{bit_and_fields, bit_and_mask, bit_and-zero}
use myria.Heap.{Heap, kernel_heap_start, kernel_heap_end, align_up8, ready, kmalloc, kfree}

pub align_up8_lem : (x : ℕ) → align_up8 x ≡ u64 (x + 7) / 8 * 8
unfolding align_up8
align_up8_lem x = ground (
  arith,
  bit_and_fields 3 (u64 (x + 8 - 1) / 2 ^ 3) (u64 (x + 8 - 1) % 2 ^ 3) (2 ^ 61 - 1) 0,
  bit_and_mask 61 (u64 (x + 8 - 1) / 2 ^ 3),
  bit_and-zero (u64 (x + 8 - 1) % 2 ^ 3),
)

-- The pointer is inside the window and aligned, or has its initial value.
pub record IsOk (h : Heap) : Type 0 where
  pub starts : h.simple_heap_ptr ≢ 0 → kernel_heap_start ≤ h.simple_heap_ptr
  pub below : h.simple_heap_ptr < kernel_heap_end
  pub aligned : h.simple_heap_ptr % 8 ≡ 0

pub ready_set : (n : ℕ) → n ≢ 0 → ready (record { simple_heap_ptr = n }) ≡ n
ready_set n h = ground arith

pub record Block : Type 0 where
  pub addr : ℕ
  pub size : ℕ

-- The blocks of the list lie between the start of the heap and `top`, the first one highest, and
-- do not overlap.
abbrev pub Layout : List Block → ℕ → Type 0
Layout [] top = kernel_heap_start ≤ top
Layout (b ∷ bs) top = (b.addr % 8 ≡ 0) × (b.addr + b.size ≤ top) × Layout bs b.addr

-- What a call for `size` bytes does: refuse, or hand out all that it was asked for.
pub data Served (h : Heap) (size : ℕ) : ℕ × Heap → Type 0 where
  refused :
      (t : Heap)
      → (size ≡ 0) ⊎ (kernel_heap_end ≤ ready h + (size + 7) / 8 * 8)
      → ready t ≡ ready h
      → IsOk t
      → Served h size (0, t)
  served :
      (t : Heap)
      → 0 < size
      → ready t ≡ ready h + (size + 7) / 8 * 8
      → ready t < kernel_heap_end
      → IsOk t
      → Served h size (ready h, t)

-- Calls from the start of the kernel: `bs` are the blocks handed out, the last one first.
pub data Calls : List Block → Heap → Type 0 where
  booted : Calls [] (record { simple_heap_ptr = 0 })
  mallocs :
      {bs : List Block} {h : Heap} (size : ℕ)
      → Calls bs h
      → size < 2 ^ 30
      → (kmalloc h size).0 ≢ 0
      → Calls (record { addr = (kmalloc h size).0; size = size } ∷ bs) (kmalloc h size).1
  refuses :
      {bs : List Block} {h : Heap} (size : ℕ)
      → Calls bs h
      → size < 2 ^ 30
      → (kmalloc h size).0 ≡ 0
      → Calls bs (kmalloc h size).1
  frees : {bs : List Block} {h : Heap} (ptr : ℕ) → Calls bs h → Calls bs (kfree h ptr)

Layout-le : (bs : List Block) (lo hi : ℕ) → lo ≤ hi → Layout bs lo → Layout bs hi
Layout-le [] lo hi le v = omega arith
Layout-le (b ∷ bs) lo hi le (a, e, v) = (a, omega arith, v)
