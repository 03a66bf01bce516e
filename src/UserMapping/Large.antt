-- ===== src/UserMapping/Large.antt =====
-- `map_user_4k` at an address that a large page covers.
use myria.Base.{
  ℕ, ◌/◌, ◌%◌, ◌^◌, ◌<◌, ◌≡◌, ◌↔◌, ◌⊎◌, inl, inr, refl, sym, subst, ◌∙◌, arith, Bool-cases, true,
  false, Option, none, some, bit_and, bit_or, u64,
}
use myria.Memory.{Memory, entry, set_entry}
use myria.Frames.{FrameAllocator}
use myria.Paging.{
  page_user, pte_addr_mask, pml4_index, pdpt_index, pd_index, pte_to_phys, is_present, is_huge,
}
use myria.Paging.Entries.{index-lt, is_present_lem, pte_to_phys-aligned}
use myria.Paging.Permissions.{is_huge_lem}
use myria.Paging.Machine.{Machine}
use myria.Vmm.Refine.{write_leaf}
use myria.UserMapping.UserBits.{
  SameButUser, OnlyUser, OnlyUser-trans, with_user, with_user-OnlyUser,
}
use myria.UserMapping.{get_or_make_table, unless_huge, map_walk, map_user_4k}

-- The entries of the second and of the third level on the way to an address.
abbrev pub second_entry : Memory → ℕ → ℕ → ℕ
second_entry m root va = entry m (pte_to_phys (entry m root (pml4_index va))) (pdpt_index va)

abbrev pub third_entry : Memory → ℕ → ℕ → ℕ
third_entry m root va = entry m (pte_to_phys (second_entry m root va)) (pd_index va)

-- On the way to the address, past present entries, one of these has bit 7.
abbrev pub LargeAbove : Memory → ℕ → ℕ → Type 0
LargeAbove m root va =
    (entry m root (pml4_index va) % 2 ≡ 1)
    × ((second_entry m root va / 2 ^ 7 % 2 ≡ 1)
        ⊎ ((second_entry m root va % 2 ≡ 1) × (third_entry m root va / 2 ^ 7 % 2 ≡ 1)))

pub is_huge_bit : (e : ℕ) → (is_huge e ≡ true) ↔ (e / 2 ^ 7 % 2 ≡ 1)
is_huge_bit e = ground (arith, is_huge_lem e)

module _ (A : FrameAllocator) where
  open A use {State}

  -- A step down past a present entry.
  pub step_present :
      (h : Machine State) (t i : ℕ)
      → t % 4096 ≡ 0
      → i < 512
      → is_present (entry h.mem t i) ≡ true
      → get_or_make_table A t i h
        ≡ (some (pte_to_phys (entry h.mem t i)), record h { mem = with_user h.mem t i })
  unfolding get_or_make_table with_user
  step_present h t i al lt there =
      let e : ℕ = entry h.mem t i in
      let same : pte_to_phys (entry (set_entry h.mem t i (u64 (bit_or e page_user))) t i)
          ≡ pte_to_phys e =
        (with_user-OnlyUser h.mem t i al lt t i al lt).frame in
      rw (there, same) refl

  huge_stops :
      (h : Machine State) (t i : ℕ)
      → is_huge (entry h.mem t i) ≡ true
      → unless_huge A t i h ≡ (none, h)
  huge_stops h t i huge = rw huge refl

  write_leaf-none :
      (va e : ℕ) (h : Machine State) (r : Option ℕ × Machine State)
      → r ≡ (none, h)
      → write_leaf A va e r ≡ (false, h)
  write_leaf-none va e h r q = subst (λ x. write_leaf A va e x ≡ (false, h)) (sym q) refl

  -- The walk stopped and has at most set user bits.
  abbrev Stops : Machine State → Option ℕ × Machine State → Type 0
  Stops h r = (n : Memory) × (r ≡ (none, record h { mem = n })) × OnlyUser h.mem n

  module _ (h : Machine State) (root va : ℕ) (al : root % 4096 ≡ 0)
      (top : entry h.mem root (pml4_index va) % 2 ≡ 1) where
    abbrev pub pdpt : ℕ
    pdpt = pte_to_phys (entry h.mem root (pml4_index va))

    abbrev pub h₁ : Machine State
    h₁ = record h { mem = with_user h.mem root (pml4_index va) }

    pub first_step : get_or_make_table A root (pml4_index va) h ≡ (some pdpt, h₁)
    first_step =
        step_present h root (pml4_index va) al (index-lt va).0
          ((is_present_lem (entry h.mem root (pml4_index va))).1 top)

    pub same₁ : OnlyUser h.mem h₁.mem
    same₁ = with_user-OnlyUser h.mem root (pml4_index va) al (index-lt va).0

    pub pdpt_aligned : pdpt % 4096 ≡ 0
    pdpt_aligned = pte_to_phys-aligned (entry h.mem root (pml4_index va))

    second : SameButUser (second_entry h.mem root va) (entry h₁.mem pdpt (pdpt_index va))
    second = same₁ pdpt (pdpt_index va) pdpt_aligned (index-lt va).1

    second_entry-Stops :
        is_huge (second_entry h.mem root va) ≡ true → Stops h (map_walk A root va h)
    unfolding map_walk
    second_entry-Stops huge = (
      h₁.mem,
      rw (first_step, huge_stops h₁ pdpt (pdpt_index va) (second.huge ∙ huge)) refl,
      same₁,
    )

    third_entry-Stops :
        is_huge (second_entry h.mem root va) ≡ false
        → second_entry h.mem root va % 2 ≡ 1
        → is_huge (third_entry h.mem root va) ≡ true
        → Stops h (map_walk A root va h)
    unfolding map_walk
    third_entry-Stops small there huge =
        let pd : ℕ = pte_to_phys (second_entry h.mem root va) in
        let i : ℕ = pdpt_index va in
        let h₂ : Machine State = record h₁ { mem = with_user h₁.mem pdpt i } in
        let step : get_or_make_table A pdpt i h₁ ≡ (some pd, h₂) =
          step_present h₁ pdpt i pdpt_aligned (index-lt va).1
            (second.present ∙ (is_present_lem (second_entry h.mem root va)).1 there)
          ∙ rw second.frame refl in
        let al₂ = pte_to_phys-aligned (second_entry h.mem root va) in
        let same₂ : OnlyUser h.mem h₂.mem =
          OnlyUser-trans h.mem h₁.mem h₂.mem same₁
            (with_user-OnlyUser h₁.mem pdpt i pdpt_aligned (index-lt va).1) in
        let third = (same₂ pd (pd_index va) al₂ (index-lt va).2).huge in
        (
          h₂.mem,
          rw (first_step, second.huge ∙ small, step, huge_stops h₂ pd (pd_index va) (third ∙ huge))
              refl,
          same₂,
        )

  -- Whatever else memory and the frame allocator hold, `map_user_4k` fails at an address with a
  -- large page on the way: past present entries, an entry of the second or third level has bit 7. It
  -- allocates no frame, and every entry of an aligned table is as it was or has only gained the user
  -- bit.
  pub map_user_4k_large :
      (cr3 va pa flags : ℕ) (h : Machine State)
      → LargeAbove h.mem (bit_and cr3 pte_addr_mask) va
      → (n : Memory) × (map_user_4k A cr3 va pa flags h ≡ (false, record h { mem = n }))
        × OnlyUser h.mem n
  unfolding map_user_4k
  map_user_4k_large cr3 va pa flags h (top, why) =
      let root : ℕ = bit_and cr3 pte_addr_mask in
      let al : root % 4096 ≡ 0 = unfold pte_to_phys in pte_to_phys-aligned cr3 in
      let stops : Stops h (map_walk A root va h) = elim why [
        | inl bit ↦ second_entry-Stops h root va al top ((is_huge_bit _).1 bit)
        | inr (there, bit) ↦ elim (Bool-cases (is_huge (second_entry h.mem root va))) [
          | inl huge ↦ second_entry-Stops h root va al top huge
          | inr small ↦ third_entry-Stops h root va al top small there ((is_huge_bit _).1 bit)
        ]
      ] in
      (
        stops.0,
        write_leaf-none va _ (record h { mem = stops.0 }) (map_walk A root va h) stops.1,
        stops.2,
      )
