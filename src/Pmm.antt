-- ===== src/Pmm.antt =====
-- os/kernel/mm/pmm_simple.c, the page frame allocator that the build links: a stack of freed
-- frames over a bump pointer. Its log lines are left out. The static variables are one record,
-- `free_pages` an array whose first `free_page_count` entries are live.
pub mod Stack
pub mod Invariant
pub mod Balance
pub mod Runs
pub mod Session
mod Tests
use myria.Base.{
  ℕ, zero, suc, ◌+◌, ◌-◌, ◌*◌, ◌/◌, ◌%◌, Option, none, some, Bool, ◌==◌, ◌||◌, ltb, leb,
  if◌then◌else◌, u32, u64, update, ◌^◌,
}

abbrev pub page_size : ℕ
page_size = 0x1000

abbrev pub max_free_pages : ℕ
max_free_pages = 1024

abbrev pub pmm_start_addr : ℕ
pmm_start_addr = 0x200000

abbrev pub pmm_end_addr : ℕ
pmm_end_addr = 0x40000000

pub record Pmm : Type 0 where
  pub free_pages : ℕ → ℕ
  pub free_page_count : ℕ
  pub next_page_addr : ℕ
  pub total_pages : ℕ
  pub allocated_pages : ℕ
  pub freed_pages : ℕ

unfoldable pub init_memory_pool : Pmm → Pmm
init_memory_pool s = record s {
  total_pages = (pmm_end_addr - pmm_start_addr) / page_size;
  free_page_count = 0;
  next_page_addr = pmm_start_addr;
}

unfoldable pub pmm_init : Pmm → Pmm
unfolding init_memory_pool
pmm_init s =
    init_memory_pool (record s { free_page_count = 0; allocated_pages = 0; freed_pages = 0 })

-- The result is the frame's address, 0 when memory has run out.
unfoldable pub pmm_alloc_page : Pmm → ℕ × Pmm
pmm_alloc_page s =
    if ltb 0 s.free_page_count
    then (
      s.free_pages (s.free_page_count - 1),
      record s {
        free_page_count = s.free_page_count - 1;
        allocated_pages = u64 (s.allocated_pages + 1);
      },
    )
    else if ltb s.next_page_addr pmm_end_addr
    then (
      s.next_page_addr,
      record s {
        next_page_addr = u64 (s.next_page_addr + page_size);
        allocated_pages = u64 (s.allocated_pages + 1);
      },
    )
    else (0, s)

unfoldable pub pmm_free_page : Pmm → ℕ → Pmm
pmm_free_page s phys_addr =
    if ltb phys_addr pmm_start_addr || leb pmm_end_addr phys_addr
    then s
    else if ltb s.free_page_count max_free_pages
    then record s {
      free_pages = update s.free_pages s.free_page_count phys_addr;
      free_page_count = u32 (s.free_page_count + 1);
      freed_pages = u64 (s.freed_pages + 1);
      allocated_pages =
          if ltb 0 s.allocated_pages then s.allocated_pages - 1 else s.allocated_pages;
    }
    else s

-- `count * PAGE_SIZE` and the sum wrap at 64 bits, as in the source.
unfoldable pub pmm_alloc_pages : Pmm → ℕ → ℕ × Pmm
pmm_alloc_pages s count =
    if count == 0
    then (0, s)
    else if leb (u64 (s.next_page_addr + u64 (count * page_size))) pmm_end_addr
    then (
      s.next_page_addr,
      record s {
        next_page_addr = u64 (s.next_page_addr + u64 (count * page_size));
        allocated_pages = u64 (s.allocated_pages + count);
      },
    )
    else (0, s)

-- The loop of `pmm_free_pages` from index `i`, with `left` rounds to go.
pub free_pages_from : Pmm → ℕ → ℕ → ℕ → Pmm
free_pages_from s phys_addr i zero = s
free_pages_from s phys_addr i (suc left) =
    free_pages_from (pmm_free_page s (u64 (phys_addr + u64 (i * page_size)))) phys_addr (i + 1) left

unfoldable pub pmm_free_pages : Pmm → ℕ → ℕ → Pmm
unfolding free_pages_from
pmm_free_pages s phys_addr count = free_pages_from s phys_addr 0 count

-- What is written through the three pointers; a null pointer gets nothing.
pub record Stats : Type 0 where
  pub total : Option ℕ
  pub free : Option ℕ
  pub used : Option ℕ

abbrev write_out : Bool → ℕ → Option ℕ
write_out wanted v = if wanted then some v else none

unfoldable pub pmm_get_stats : Pmm → Bool → Bool → Bool → Stats
pmm_get_stats s total free used = record {
  total = write_out total s.total_pages;
  free =
      write_out free
        (u64 (s.free_page_count + u64 (pmm_end_addr + 2 ^ 64 - s.next_page_addr) / page_size));
  used = write_out used s.allocated_pages;
}
