-- ===== src/Bitmap.antt =====
-- os/kernel/mm/pmm.c, the first frame allocator: a bitmap with one bit for each page. Log lines are
-- left out.
pub mod Bytes
pub mod Pages
pub mod FirstFit
pub mod Free
mod Tests
use myria.Pmm.{page_size}
use myria.Base.{
  ℕ, zero, suc, ◌+◌, ◌-◌, ◌*◌, ◌/◌, ◌%◌, ◌^◌, bit_and, bit_or, Bool, true, false, not, ◌==◌, ◌&&◌,
  ◌||◌, ltb, leb, if◌then◌else◌, Option, none, some, u8, u64, update,
}

abbrev pub max_pages : ℕ
max_pages = 8 * 1024

-- The static variables of pmm.c.
pub record BitmapPmm : Type 0 where
  pub total_memory : ℕ
  pub free_memory : ℕ
  pub used_memory : ℕ
  pub page_bitmap : ℕ → ℕ
  pub bitmap_pages : ℕ
  pub first_free_page : ℕ

unfoldable pub set_page_used : (ℕ → ℕ) → ℕ → ℕ → ℕ
set_page_used bitmap page_idx =
    update bitmap (page_idx / 8) (bit_or (bitmap (page_idx / 8)) (2 ^ (page_idx % 8)))

-- The complement is that of a 32-bit `int`.
unfoldable pub set_page_free : (ℕ → ℕ) → ℕ → ℕ → ℕ
set_page_free bitmap page_idx =
    update bitmap (page_idx / 8)
      (u8 (bit_and (bitmap (page_idx / 8)) (2 ^ 32 - 1 - 2 ^ (page_idx % 8))))

unfoldable pub is_page_free : (ℕ → ℕ) → ℕ → Bool
is_page_free bitmap page_idx = bit_and (bitmap (page_idx / 8)) (2 ^ (page_idx % 8)) == 0

unfoldable pub pmm_init : BitmapPmm → BitmapPmm
pmm_init p = record p {
  total_memory = 512 * 1024 * 1024;
  free_memory = 256 * 1024 * 1024;
  used_memory = 512 * 1024 * 1024 - 256 * 1024 * 1024;
  bitmap_pages = max_pages;
}

-- The state after `page` has been taken.
abbrev pub taken : BitmapPmm → ℕ → BitmapPmm
taken p page = record p {
  page_bitmap = set_page_used p.page_bitmap page;
  free_memory = u64 (p.free_memory + 2 ^ 64 - page_size);
  used_memory = u64 (p.used_memory + page_size);
  first_free_page =
      if page == p.first_free_page then u64 (p.first_free_page + 1) else p.first_free_page;
}

-- The search from `page`, with `left` pages to go; the result 0 is failure.
unfoldable pub first_fit_from : BitmapPmm → ℕ → ℕ → ℕ × BitmapPmm
first_fit_from p page zero = (0, p)
first_fit_from p page (suc left) =
    let rest = first_fit_from p (page + 1) left in
    if is_page_free p.page_bitmap page then (u64 (page * page_size), taken p page) else rest

unfoldable pub pmm_alloc_page : BitmapPmm → ℕ × BitmapPmm
pmm_alloc_page p = first_fit_from p p.first_free_page (p.bitmap_pages - p.first_free_page)

unfoldable pub pmm_free_page : BitmapPmm → ℕ → BitmapPmm
pmm_free_page p phys_addr =
    let page = phys_addr / page_size in
    if (phys_addr == 0) || not (phys_addr % page_size == 0)
    then p
    else if leb p.bitmap_pages page
    then p
    else if is_page_free p.page_bitmap page
    then p
    else record p {
      page_bitmap = set_page_free p.page_bitmap page;
      free_memory = u64 (p.free_memory + page_size);
      used_memory = u64 (p.used_memory + 2 ^ 64 - page_size);
      first_free_page = if ltb page p.first_free_page then page else p.first_free_page;
    }

-- Whether the pages from `page` on, `left` of them, are free.
unfoldable pub region_free : (ℕ → ℕ) → ℕ → ℕ → Bool
region_free bitmap page zero = true
region_free bitmap page (suc left) =
    let rest = region_free bitmap (page + 1) left in
    if is_page_free bitmap page then rest else false

unfoldable pub mark_from : (ℕ → ℕ) → ℕ → ℕ → ℕ → ℕ
mark_from bitmap page zero = bitmap
mark_from bitmap page (suc left) = mark_from (set_page_used bitmap page) (page + 1) left

-- The search for `count` pages from `start`, with `left` starts to go.
unfoldable pub region_from : BitmapPmm → ℕ → ℕ → ℕ → ℕ × BitmapPmm
region_from p count start zero = (0, p)
region_from p count start (suc left) =
    let rest = region_from p count (start + 1) left in
    if region_free p.page_bitmap start count
    then (
      u64 (start * page_size),
      record p {
        page_bitmap = mark_from p.page_bitmap start count;
        free_memory = u64 (p.free_memory + 2 ^ 64 - u64 (count * page_size));
        used_memory = u64 (p.used_memory + u64 (count * page_size));
      },
    )
    else rest

-- The last start, `bitmap_pages - count`, wraps when the count is larger.
unfoldable pub pmm_alloc_pages : BitmapPmm → ℕ → ℕ × BitmapPmm
pmm_alloc_pages p count =
    let last = u64 (p.bitmap_pages + 2 ^ 64 - count) in
    if count == 1
    then pmm_alloc_page p
    else region_from p count p.first_free_page (last + 1 - p.first_free_page)

unfoldable pub free_run_from : BitmapPmm → ℕ → ℕ → ℕ → BitmapPmm
free_run_from p phys_addr i zero = p
free_run_from p phys_addr i (suc left) =
    free_run_from (pmm_free_page p (u64 (phys_addr + u64 (i * page_size)))) phys_addr (i + 1) left

unfoldable pub pmm_free_pages : BitmapPmm → ℕ → ℕ → BitmapPmm
pmm_free_pages p phys_addr count = free_run_from p phys_addr 0 count
