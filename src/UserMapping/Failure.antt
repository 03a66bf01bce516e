-- ===== src/UserMapping/Failure.antt =====
-- Why `map_user_4k` fails: a large page on the way, or no frame left.
use myria.Base.{
  ℕ, ◌%◌, ◌≡◌, ◌⊎◌, inl, inr, refl, ◌∙◌, arith, Bool-cases, true, false, Option, some, [], bit_and,
  bit_or,
}
use myria.Memory.{entry}
use myria.Frames.{FrameAllocator}
use myria.Paging.{
  page_user, pte_addr_mask, pml4_index, pdpt_index, pd_index, pte_to_phys, is_present, is_huge,
}
use myria.Paging.Entries.{index-lt, is_present_lem, pte_to_phys-aligned}
use myria.Paging.Trees.{Role}
use myria.Paging.Machine.{Machine, Sound}
use myria.Vmm.{and_then}
use myria.Vmm.Refusal.{RanOut, Explained, large, write_leaf-Explained}
use myria.UserMapping.{get_or_make_table, unless_huge, map_walk, map_user_4k}
use myria.UserMapping.UserBits.{
  SameButUser, OnlyUser, with_user, with_user-OnlyUser, OnlyUser-trans,
}
use myria.UserMapping.Large.{
  LargeAbove, second_entry, third_entry, is_huge_bit, step_present, first_step, pdpt, pdpt_aligned,
  h₁, same₁,
}
use myria.UserMapping.Fresh.{step_absent, last_step, and_then-Fresh, last-Fresh, rest-Fresh}

module _ (A : FrameAllocator) where
  open A use {State, alloc, alloc_lem, Ok, Free}

  -- From the table `t`, whose entry at `i` is small and present, past a second entry.
  module _ (h : Machine State) (root va : ℕ) (al : root % 4096 ≡ 0) (ok : Ok h.pmm)
      (top : entry h.mem root (pml4_index va) % 2 ≡ 1)
      (taken : ¬ Free h.pmm (pdpt A h root va al top)) where
    abbrev below : Option ℕ × Machine State
    below =
        and_then A (unless_huge A (pdpt A h root va al top) (pdpt_index va) (h₁ A h root va al top))
          (λ pd h'. unless_huge A pd (pd_index va) h')

    second :
        SameButUser
          (second_entry h.mem root va)
          (entry (h₁ A h root va al top).mem (pdpt A h root va al top) (pdpt_index va))
    second =
        same₁ A h root va al top (pdpt A h root va al top) (pdpt_index va)
          (pdpt_aligned A h root va al top) (index-lt va).1

    below_small :
        is_huge (second_entry h.mem root va) ≡ false → Explained A (LargeAbove h.mem root va) below
    below_small small =
        let f : ℕ = pdpt A h root va al top in
        let m : Machine State = h₁ A h root va al top in
        let i : ℕ = pdpt_index va in
        let fal = pdpt_aligned A h root va al top in
        let pd : ℕ = pte_to_phys (second_entry h.mem root va) in
        let n : Machine State = record m { mem = with_user m.mem f i } in
        rw (second.huge ∙ small) (elim (Bool-cases (is_present (second_entry h.mem root va))) [
          | inr absent ↦
              and_then-Fresh A (LargeAbove h.mem root va) _
                (λ pd h'. unless_huge A pd (pd_index va) h')
                (step_absent A m f i ok fal taken (index-lt va).1 (second.present ∙ absent))
                (last-Fresh A (LargeAbove h.mem root va) (pd_index va) (index-lt va).2)
          | inl there ↦
              let step : get_or_make_table A f i m ≡ (some pd, n) =
                step_present A m f i fal (index-lt va).1 (second.present ∙ there)
                ∙ rw second.frame refl in
              let pal = pte_to_phys-aligned (second_entry h.mem root va) in
              let same : OnlyUser h.mem n.mem =
                OnlyUser-trans h.mem m.mem n.mem (same₁ A h root va al top)
                  (with_user-OnlyUser m.mem f i fal (index-lt va).1) in
              let third = same pd (pd_index va) pal (index-lt va).2 in
              rw step (elim (Bool-cases (is_huge (third_entry h.mem root va))) [
                | inl huge ↦ rw (third.huge ∙ huge) (
                    large n (
                      top,
                      inr (
                        (is_present_lem (second_entry h.mem root va)).0 there,
                        (is_huge_bit (third_entry h.mem root va)).0 huge,
                      ),
                    ))
                | inr small' ↦
                    last_step A (LargeAbove h.mem root va) n pd (pd_index va) (third.huge ∙ small')
              ])
        ])

    below-Explained : Explained A (LargeAbove h.mem root va) below
    below-Explained = elim (Bool-cases (is_huge (second_entry h.mem root va))) [
      | inl huge ↦
          rw (second.huge ∙ huge)
            (large _ (top, inl ((is_huge_bit (second_entry h.mem root va)).0 huge)))
      | inr small ↦ below_small small
    ]

  map_walk-Explained :
      {slot : ℕ → Type 0} {root : ℕ} {role : Role} {h : Machine State} (va : ℕ)
      → Sound A slot root role h
      → slot (pml4_index va)
      → Explained A (LargeAbove h.mem root va) (map_walk A root va h)
  unfolding map_walk
  map_walk-Explained {root = root} {h = h} va v w =
      let l = index-lt va in
      let al = v.tree.aligned root [] v.tree.rooted in
      elim (Bool-cases (is_present (entry h.mem root (pml4_index va)))) [
        | inr absent ↦
            and_then-Fresh A (LargeAbove h.mem root va) _ _
              (step_absent A h root (pml4_index va) v.ok al (v.tree.taken root [] v.tree.rooted) l.0
                absent)
              (rest-Fresh A (LargeAbove h.mem root va) (pdpt_index va) (pd_index va) l.1 l.2)
        | inl there ↦
            let top = (is_present_lem (entry h.mem root (pml4_index va))).0 there in
            let named =
              v.tree.child root [] (pml4_index va) v.tree.rooted (omega arith) l.0 w there in
            rw (first_step A h root va al top)
              (below-Explained h root va al v.ok top (v.tree.taken _ _ named))
      ]

  -- In a well-formed tree the mapping succeeds, unless a large page is on the way or the frame
  -- allocator has just refused a frame.
  pub map_user_4k_succeeds :
      {slot : ℕ → Type 0} {role : Role} {h : Machine State} (cr3 va pa flags : ℕ)
      → Sound A slot (bit_and cr3 pte_addr_mask) role h
      → slot (pml4_index va)
      → ((map_user_4k A cr3 va pa flags h).0 ≡ true)
        ⊎ LargeAbove h.mem (bit_and cr3 pte_addr_mask) va
        ⊎ RanOut A (map_user_4k A cr3 va pa flags h).1.pmm
  unfolding map_user_4k
  map_user_4k_succeeds cr3 va pa flags v w =
      write_leaf-Explained A _ va (bit_or (bit_or (bit_and pa pte_addr_mask) flags) page_user) _
        (map_walk-Explained va v w)
