-- ===== src/Heap.antt =====
-- os/kernel/mm/vmm.c, the kernel heap: `kmalloc` hands out memory from a bump pointer in a window
-- of 1 MB above the kernel, and `kfree` returns none of it.
pub mod Layout
pub mod Wrap
mod Tests
use myria.Base.{ℕ, ◌+◌, ◌-◌, ◌*◌, ◌^◌, bit_and, ◌==◌, leb, if◌then◌else◌, u64}

-- KERNEL_VMA_BASE + 0x1000000
abbrev pub kernel_heap_start : ℕ
kernel_heap_start = 0xffff_ffff_8000_0000 + 0x1000000

-- The end of the window.
abbrev pub kernel_heap_end : ℕ
kernel_heap_end = kernel_heap_start + 1024 * 1024

-- `ALIGN_UP(x, 8)`; the sum wraps.
unfoldable pub align_up8 : ℕ → ℕ
align_up8 x = bit_and (u64 (x + 8 - 1)) (2 ^ 64 - 1 - (8 - 1))

-- The static variable of `kmalloc`: 0 before the first call that asks for memory.
pub record Heap : Type 0 where
  pub simple_heap_ptr : ℕ

-- "Initialize heap pointer on first use".
abbrev pub ready : Heap → ℕ
ready h = if h.simple_heap_ptr == 0 then kernel_heap_start else h.simple_heap_ptr

-- The result is the address of the block, 0 for NULL.
unfoldable pub kmalloc : Heap → ℕ → ℕ × Heap
kmalloc h size =
    if size == 0
    then (0, h)
    else let ptr = ready h in
      let next = u64 (ptr + align_up8 size) in
      if leb kernel_heap_end next
      then (0, record h { simple_heap_ptr = ptr })
      else (ptr, record h { simple_heap_ptr = next })

unfoldable pub kfree : Heap → ℕ → Heap
kfree h ptr = h
