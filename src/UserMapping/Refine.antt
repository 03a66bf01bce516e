-- ===== src/UserMapping/Refine.antt =====
-- `map_user_4k` against the abstract map from pages to page table entries.
use myria.Base.{
  ℕ, ◌^◌, ◌<◌, ◌≡◌, ◌≢◌, ◌⊎◌, ◌∙◌, ap, false, Bool, refl, sym, arith, Bool-cases, ◌==◌, inl, inr,
  some, List, length, true, bit_and, bit_or, subst,
}
use myria.Base.Bits.{bit_or_step, bit_or-lt}
use myria.Memory.{entry}
use myria.Frames.{FrameAllocator, Allocated}
use myria.Paging.{
  page_user, is_present, is_huge, pml4_index, pdpt_index, pd_index, pte_addr_mask, pte_to_phys,
}
use myria.Paging.Entries.{is_present_lem, pte_to_phys_lem}
use myria.Paging.Trees.{Role, Within}
use myria.Paging.Machine.{Machine, Sound, StepResult, stopped}
use myria.Paging.Walk.{WalkResult}
use myria.Vmm.Descend.{StepsDown, descend-WalkResult}
use myria.Vmm.Refusal.{RanOut}
use myria.Vmm.Refine.{Maps, write_leaf-Maps}
use myria.UserAs.{alloc_zeroed_page_phys, get_or_make_table_in_pml4}
use myria.UserAs.Refine.{get_or_make-StepResult}
use myria.UserMapping.Large.{LargeAbove, map_user_4k_large}
use myria.UserMapping.Fresh.{flags_in_either_order}
use myria.UserMapping.Failure.{map_user_4k_succeeds}
use myria.UserMapping.{clear_page, get_or_make_table, unless_huge, map_walk, map_user_4k}

module _ (A : FrameAllocator) where
  open A use {State, alloc, alloc_lem, Ok, Free}

  -- A step down is the one of user_as.c.
  pub get_or_make_table_eq :
      (f i : ℕ) (h : Machine State)
      → Ok h.pmm
      → get_or_make_table A f i h ≡ get_or_make_table_in_pml4 A f i page_user h
  unfolding get_or_make_table get_or_make_table_in_pml4 alloc_zeroed_page_phys clear_page
  get_or_make_table_eq f i h ok =
      let given : Allocated Ok Free h.pmm (alloc h.pmm) = alloc_lem h.pmm ok in
      elim (Bool-cases (is_present (entry h.mem f i))) [
        | inl there ↦ rw there refl
        | inr absent ↦ elim (Bool-cases ((alloc h.pmm).0 == 0)) [
          | inl none_left ↦ rw (absent, none_left) refl
          | inr some_left ↦
              let pos : (alloc h.pmm).0 ≢ 0 = λ z. ground arith in
              rw
                (
                  absent,
                  some_left,
                  some_left,
                  flags_in_either_order (alloc h.pmm).0 (given.aligned pos),
                )
                refl
        ]
      ]

  module _ {slot : ℕ → Type 0} {root : ℕ} {role : Role} {f i : ℕ} {p : List ℕ} {h : Machine State}
      (v : Sound A slot root role h) (at : role f ≡ some p) (upper : length p < 3) (hi : i < 512)
      (w : Within slot p i) where
    pub get_or_make_table-StepResult :
        StepResult A slot root role f i p h (get_or_make_table A f i h)
    get_or_make_table-StepResult =
        subst (StepResult A slot root role f i p h) (sym (get_or_make_table_eq f i h v.ok))
          (get_or_make-StepResult A v at upper hi w)

  unless_huge-StepsDown : (slot : ℕ → Type 0) (root : ℕ) → StepsDown A slot root (unless_huge A)
  unless_huge-StepsDown slot root role f i p h v at upper hi w =
      elim (Bool-cases (is_huge (entry h.mem f i))) [
        | inl huge ↦ rw huge (stopped h refl v)
        | inr small ↦ rw small (get_or_make_table-StepResult v at upper hi w)
      ]

  module _ {slot : ℕ → Type 0} {root : ℕ} {role : Role} {h : Machine State}
      (v : Sound A slot root role h) (va : ℕ) (w : slot (pml4_index va)) where
    -- The walk keeps every address mapped as it was, whether it arrives, meets a large page or
    -- runs out of memory.
    pub map_walk-WalkResult :
        WalkResult A slot root
          (pml4_index va)
          (pdpt_index va)
          (pd_index va)
          h
          (map_walk A root va h)
    unfolding map_walk
    map_walk-WalkResult =
        descend-WalkResult A v va w (get_or_make_table A) (unless_huge A)
          (λ role f i p h. get_or_make_table-StepResult) (unless_huge-StepsDown slot root)

  -- Mapping a page in a well-formed tree, large pages or not.
  pub map_user_4k-Maps :
      {slot : ℕ → Type 0} {role : Role} {h : Machine State} (cr3 va pa flags : ℕ)
      → Sound A slot (bit_and cr3 pte_addr_mask) role h
      → slot (pml4_index va)
      → is_present flags ≡ true
      → flags < 2 ^ 64
      → Maps A slot
          (bit_and cr3 pte_addr_mask)
          va
          (bit_or (bit_or (bit_and pa pte_addr_mask) flags) page_user)
          h
          (map_user_4k A cr3 va pa flags h)
  unfolding map_user_4k
  map_user_4k-Maps cr3 va pa flags v s there fits =
      let field : bit_and pa pte_addr_mask < 2 ^ 64 =
        unfold pte_to_phys in omega (arith, pte_to_phys_lem pa) in
      let low = bit_or-lt 64 (bit_and pa pte_addr_mask) flags field fits in
      write_leaf-Maps A va _
        (bit_or-lt 64 (bit_or (bit_and pa pte_addr_mask) flags) page_user low (omega arith))
        ((is_present_lem _).1 (
          let odd = (is_present_lem flags).0 there in
          omega (
            arith,
            bit_or_step (bit_and pa pte_addr_mask) flags,
            bit_or_step (bit_or (bit_and pa pte_addr_mask) flags) page_user,
          )))
        (map_walk-WalkResult v va s)

  -- In a well-formed table tree, mapping a user page, with flags of 64 bits that have PTE_PRESENT,
  -- keeps the tree well formed. If it succeeds, the page resolves to the entry for the frame with
  -- these flags and PTE_USER, and every other page of the tree to what it did before. If it fails,
  -- every page does. It fails if a large page is on the way to the address (past present entries,
  -- an entry of the second or third level has bit 7); otherwise it succeeds, unless the last call of
  -- the frame allocator has refused it a frame.
  pub map_user_4k-refines :
      {slot : ℕ → Type 0} {role : Role} {h : Machine State} (cr3 va pa flags : ℕ)
      → Sound A slot (bit_and cr3 pte_addr_mask) role h
      → slot (pml4_index va)
      → is_present flags ≡ true
      → flags < 2 ^ 64
      → Maps A slot
          (bit_and cr3 pte_addr_mask)
          va
          (bit_or (bit_or (bit_and pa pte_addr_mask) flags) page_user)
          h
          (map_user_4k A cr3 va pa flags h)
        × (((map_user_4k A cr3 va pa flags h).0 ≡ false)
            ⊎ (¬ LargeAbove h.mem (bit_and cr3 pte_addr_mask) va))
        × (((map_user_4k A cr3 va pa flags h).0 ≡ true)
            ⊎ LargeAbove h.mem (bit_and cr3 pte_addr_mask) va
            ⊎ RanOut A (map_user_4k A cr3 va pa flags h).1.pmm)
  map_user_4k-refines {h = h} cr3 va pa flags v s there fits = (
    map_user_4k-Maps cr3 va pa flags v s there fits,
    elim (Bool-cases (map_user_4k A cr3 va pa flags h).0) [
      | inl done ↦ inr (λ large.
          let stops = map_user_4k_large A cr3 va pa flags h large in
          let z : true ≡ false = sym done ∙ ap (λ (r : Bool × Machine State). r.0) stops.1 in cc)
      | inr refused ↦ inl refused
    ],
    map_user_4k_succeeds A cr3 va pa flags v s,
  )
