-- ===== src/Bitmap/Tests.antt =====
-- A bitmap that has just been initialised.
use myria.Base.{arith}
use myria.Bitmap.{BitmapPmm, pmm_init, pmm_alloc_page, pmm_free_page}
use myria.Bitmap.FirstFit.{IsSound, AllocResult, pmm_alloc_page-AllocResult}
use myria.Bitmap.Free.{FreeResult, pmm_free_page-FreeResult}

abbrev at_boot : BitmapPmm
unfolding pmm_init
at_boot = pmm_init (record {
  total_memory = 0;
  free_memory = 0;
  used_memory = 0;
  page_bitmap = λ _. 0;
  bitmap_pages = 0;
  first_free_page = 0;
})

at_boot-IsSound : IsSound at_boot
unfolding pmm_init
at_boot-IsSound = record {
  small = omega arith;
  hint_within = omega arith;
  hint = λ q lt. absurd (omega arith);
}

pmm_alloc_page-AllocResult_example : AllocResult at_boot (pmm_alloc_page at_boot)
pmm_alloc_page-AllocResult_example = pmm_alloc_page-AllocResult at_boot at_boot-IsSound

pmm_free_page-FreeResult_example : FreeResult at_boot 0x5000 (pmm_free_page at_boot 0x5000)
pmm_free_page-FreeResult_example = pmm_free_page-FreeResult at_boot 0x5000 at_boot-IsSound
