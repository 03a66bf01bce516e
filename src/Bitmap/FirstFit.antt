-- ===== src/Bitmap/FirstFit.antt =====
-- `pmm_alloc_page` of pmm.c takes the lowest free page.
use myria.Base.{
  sym, ap, subst, ℕ, zero, suc, ◌+◌, ◌-◌, ◌*◌, ◌^◌, ◌≤◌, ◌<◌, ◌≡◌, ◌≢◌, ◌∙◌, refl, arith, inl, inr,
  Bool-cases, true, false, u64, ltb, ltb→lt, ◌==◌,
}
use myria.Pmm.{page_size}
use myria.Bitmap.{BitmapPmm, is_page_free, taken, first_fit_from, pmm_alloc_page}
use myria.Bitmap.Pages.{set_page_used_self, set_page_used_other}

-- The bitmap is within 4 GB, and no page below the hint is free.
pub record IsSound (p : BitmapPmm) : Type 0 where
  pub small : p.bitmap_pages ≤ 2 ^ 20
  pub hint_within : p.first_free_page ≤ p.bitmap_pages
  pub hint : (q : ℕ) → q < p.first_free_page → is_page_free p.page_bitmap q ≡ false

-- No page is free; or the lowest free page is taken, and no other page changes.
pub data AllocResult (p : BitmapPmm) : ℕ × BitmapPmm → Type 0 where
  full :
      ((q : ℕ) → q < p.bitmap_pages → is_page_free p.page_bitmap q ≡ false) → AllocResult p (0, p)
  lowest :
      (page : ℕ) (p' : BitmapPmm)
      → page < p.bitmap_pages
      → is_page_free p.page_bitmap page ≡ true
      → ((q : ℕ) → q < page → is_page_free p.page_bitmap q ≡ false)
      → is_page_free p'.page_bitmap page ≡ false
      → ((q : ℕ) → page ≢ q → is_page_free p'.page_bitmap q ≡ is_page_free p.page_bitmap q)
      → IsSound p'
      → AllocResult p (page * page_size, p')

module _ (p : BitmapPmm) (v : IsSound p) where
  taken-IsSound :
      (page : ℕ) → page < p.bitmap_pages → p.first_free_page ≤ page → IsSound (taken p page)
  taken-IsSound page lt le = elim (Bool-cases (page == p.first_free_page)) [
    | inl here ↦
        let same : page ≡ p.first_free_page = ground arith in
        let next : u64 (p.first_free_page + 1) ≡ p.first_free_page + 1 = omega (arith, v.small) in
        record {
          small = v.small;
          hint_within = rw (here, next) (omega arith);
          hint = λ q below.
              let below' : q < p.first_free_page + 1 = rw (here, next) at below in
              elim (Bool-cases (ltb q page)) [
                | inl less ↦
                    let l = ltb→lt q page less in
                    set_page_used_other p.page_bitmap page q (λ e. omega arith)
                    ∙ v.hint q (omega arith)
                | inr same_page ↦
                    let e : page ≡ q = ground arith in rw e (set_page_used_self p.page_bitmap q)
              ];
        }
    | inr above ↦ record {
      small = v.small;
      hint_within = rw above v.hint_within;
      hint = λ q below.
          let below' : q < p.first_free_page = rw above at below in
          set_page_used_other p.page_bitmap page q (λ e. omega arith) ∙ v.hint q below';
    }
  ]

  first_fit_from-AllocResult :
      (left page : ℕ)
      → page + left ≡ p.bitmap_pages
      → p.first_free_page ≤ page
      → ((q : ℕ) → q < page → is_page_free p.page_bitmap q ≡ false)
      → AllocResult p (first_fit_from p page left)
  unfolding first_fit_from
  first_fit_from-AllocResult zero page end le before = full (λ q lt. before q (omega arith))
  first_fit_from-AllocResult (suc left) page end le before =
      elim (Bool-cases (is_page_free p.page_bitmap page)) [
        | inl free ↦
            let lt : page < p.bitmap_pages = omega arith in
            let fits : u64 (page * 0x1000) ≡ page * 0x1000 = omega (arith, v.small) in
            rw (free, fits)
              (lowest page (taken p page) lt free before (set_page_used_self p.page_bitmap page)
                (λ q ne. set_page_used_other p.page_bitmap page q ne) (taken-IsSound page lt le))
        | inr used ↦ rw used (
            first_fit_from-AllocResult left (page + 1) (omega arith) (omega arith) λ q lt.
              elim (Bool-cases (ltb q page)) [
                | inl less ↦ before q (ltb→lt q page less)
                | inr same ↦ let e : q ≡ page = ground arith in rw e used
              ])
      ]

-- If no page below the hint is free, `pmm_alloc_page` returns 0 and changes nothing when all pages are
-- used, and takes the lowest free page otherwise; no other page changes, and no page below the new
-- hint is free.
pub pmm_alloc_page-AllocResult : (p : BitmapPmm) → IsSound p → AllocResult p (pmm_alloc_page p)
unfolding pmm_alloc_page
pmm_alloc_page-AllocResult p v =
    first_fit_from-AllocResult p v (p.bitmap_pages - p.first_free_page) p.first_free_page
      (omega (arith, v.hint_within)) (omega arith) v.hint

first_fit_from_hit :
    (p : BitmapPmm) (page left : ℕ)
    → 0 < left
    → is_page_free p.page_bitmap page ≡ true
    → first_fit_from p page left ≡ (u64 (page * page_size), taken p page)
unfolding first_fit_from
first_fit_from_hit p page zero lt free = absurd (omega arith)
first_fit_from_hit p page (suc left) lt free = rw free refl

-- When page 0 is free and the search starts there, it is taken and its address, 0, returned, which
-- callers read as a failure.
pub pmm_alloc_page_null :
    (p : BitmapPmm)
    → p.first_free_page ≡ 0
    → 0 < p.bitmap_pages
    → is_page_free p.page_bitmap 0 ≡ true
    → ((pmm_alloc_page p).0 ≡ 0) × (is_page_free (pmm_alloc_page p).1.page_bitmap 0 ≡ false)
unfolding pmm_alloc_page
pmm_alloc_page_null p start some_pages free =
    let hint : ℕ = p.first_free_page in
    let hit =
      first_fit_from_hit p hint (p.bitmap_pages - hint) (omega arith)
        (subst (λ q. is_page_free p.page_bitmap q ≡ true) (sym start) free) in
    (
      ap (λ (r : ℕ × BitmapPmm). r.0) hit ∙ (let z : u64 (hint * 0x1000) ≡ 0 = omega arith in z),
      ap (λ (r : ℕ × BitmapPmm). is_page_free r.1.page_bitmap 0) hit
          ∙ subst (λ q. is_page_free (taken p hint).page_bitmap q ≡ false) start
              (set_page_used_self p.page_bitmap hint),
    )
