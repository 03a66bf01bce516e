-- ===== src/Bitmap/Free.antt =====
-- `pmm_free_page` of pmm.c.
use myria.Base.{
  ℕ, ◌/◌, ◌%◌, ◌≤◌, ◌<◌, ◌≡◌, ◌≢◌, ◌⊎◌, ◌∙◌, refl, arith, inl, inr, Bool-cases, true, false, not,
  ltb, leb, ltb→lt, ◌==◌, ◌||◌, if◌then◌else◌,
}
use myria.Pmm.{page_size}
use myria.Bitmap.{BitmapPmm, is_page_free, set_page_free, pmm_free_page}
use myria.Bitmap.Pages.{set_page_free_self, set_page_free_other}
use myria.Bitmap.FirstFit.{IsSound}

-- The call did nothing, or the page that starts at the address, which was used, is free and no other page has
-- changed.
pub data FreeResult (p : BitmapPmm) (phys_addr : ℕ) : BitmapPmm → Type 0 where
  ignored :
      (phys_addr ≡ 0)
        ⊎ (phys_addr % page_size ≢ 0)
        ⊎ (p.bitmap_pages ≤ phys_addr / page_size)
        ⊎ (is_page_free p.page_bitmap (phys_addr / page_size) ≡ true)
      → FreeResult p phys_addr p
  freed :
      (p' : BitmapPmm)
      → phys_addr ≢ 0
      → phys_addr % page_size ≡ 0
      → phys_addr / page_size < p.bitmap_pages
      → is_page_free p.page_bitmap (phys_addr / page_size) ≡ false
      → is_page_free p'.page_bitmap (phys_addr / page_size) ≡ true
      → ((q : ℕ)
          → phys_addr / page_size ≢ q
          → is_page_free p'.page_bitmap q ≡ is_page_free p.page_bitmap q)
      → IsSound p'
      → FreeResult p phys_addr p'

-- The hint after a page has been freed.
freed-IsSound :
    (p p' : BitmapPmm) (page : ℕ)
    → IsSound p
    → page < p.bitmap_pages
    → p'.bitmap_pages ≡ p.bitmap_pages
    → p'.page_bitmap ≡ set_page_free p.page_bitmap page
    → p'.first_free_page ≡ (if ltb page p.first_free_page then page else p.first_free_page)
    → IsSound p'
freed-IsSound p p' page v lt pages bitmap hint = elim (Bool-cases (ltb page p.first_free_page)) [
  | inl below ↦
      let l = ltb→lt page p.first_free_page below in
      let h : p'.first_free_page ≡ page = hint ∙ rw below refl in
      record {
        small = omega (arith, pages, v.small);
        hint_within = omega (arith, pages, h);
        hint = λ q less. rw bitmap (
            set_page_free_other p.page_bitmap page q (λ e. omega (arith, h))
            ∙ v.hint q (omega (arith, h)));
      }
  | inr above ↦
      let h : p'.first_free_page ≡ p.first_free_page = hint ∙ rw above refl in
      let le : p.first_free_page ≤ page = ground arith in
      record {
        small = omega (arith, pages, v.small);
        hint_within = omega (arith, pages, h, v.hint_within);
        hint = λ q less. rw bitmap (
            set_page_free_other p.page_bitmap page q (λ e. omega (arith, h))
            ∙ v.hint q (omega (arith, h)));
      }
]

-- If no page below the hint is free, `pmm_free_page` ignores 0, an unaligned address, a page past
-- the bitmap and a free page; otherwise the page becomes free, no other page changes, and no page
-- below the new hint is free.
pub pmm_free_page-FreeResult :
    (p : BitmapPmm) (phys_addr : ℕ) → IsSound p → FreeResult p phys_addr (pmm_free_page p phys_addr)
unfolding pmm_free_page
pmm_free_page-FreeResult p a v = elim (Bool-cases ((a == 0) || not (a % page_size == 0))) [
  | inl bad ↦ rw bad (
      ignored (elim (Bool-cases (a == 0)) [
        | inl null ↦ inl (ground arith)
        | inr there ↦ inr (inl (ground arith))
      ]))
  | inr good ↦ elim (Bool-cases (leb p.bitmap_pages (a / page_size))) [
    | inl past ↦ rw (good, past) (ignored (inr (inr (inl (ground arith)))))
    | inr within ↦
        let lt : a / page_size < p.bitmap_pages = ground arith in
        elim (Bool-cases (is_page_free p.page_bitmap (a / page_size))) [
          | inl free ↦ rw (good, within, free) (ignored (inr (inr (inr free))))
          | inr used ↦
              rw (good, within, used)
                (freed _ (λ e. ground arith) (ground arith) lt used
                  (set_page_free_self p.page_bitmap (a / page_size))
                  (λ q ne. set_page_free_other p.page_bitmap (a / page_size) q ne)
                  (freed-IsSound p _ (a / page_size) v lt refl refl refl))
        ]
  ]
]
