-- ===== src/UserAs/Refine.antt =====
-- `user_map_4k_in_pml4` against the abstract map from pages to page table entries.
use myria.Base.{
  bit_and, bit_or, ℕ, ◌^◌, ◌<◌, ◌≡◌, ◌≢◌, refl, arith, true, Bool-cases, ◌==◌, inl, inr, Option,
  some, List, length, ◌∙◌, ◌⊎◌, sym, subst, ap, Bool, u64,
}
use myria.Memory.{zero_bytes, entry, set_entry}
use myria.Memory.Pages.{zero_bytes-ClearedPage, entry-set_entry_self, entry-set_entry_ne}
use myria.Frames.{FrameAllocator, Allocated}
use myria.Paging.{
  is_present, pml4_index, pdpt_index, pd_index, page_user, pte_to_phys, pte_addr_mask,
}
use myria.Paging.Entries.{zero_absent}
use myria.Paging.Trees.{Role, Within}
use myria.Paging.Machine.{
  Machine, Sound, StepResult, stopped, stepped, Sound-fewer, Stepped-kept, Stepped-fresh,
}
use myria.Paging.Walk.{WalkResult}
use myria.Vmm.Descend.{StepsDown, descend-WalkResult}
use myria.Vmm.Refusal.{RanOut, Explained, found, ran_out, write_leaf-Explained, and_then-Explained}
use myria.Vmm.Refine.{Maps, write_leaf, write_leaf-Maps}
use myria.UserAs.{
  alloc_zeroed_page_phys, get_or_make_table_in_pml4, user_walk, user_map_4k_in_pml4, user_flags,
}
use myria.UserAs.Flags.{or_user, user_table_entry, user_entry, user_entry_lem}

module _ (A : FrameAllocator) where
  open A use {State, alloc, alloc_lem, Ok, Free}

  module _ {slot : ℕ → Type 0} {root : ℕ} {role : Role} {f i : ℕ} {p : List ℕ} {h : Machine State}
      (v : Sound A slot root role h) (at : role f ≡ some p) (upper : length p < 3) (hi : i < 512)
      (w : Within slot p i) where
    given : Allocated Ok Free h.pmm (alloc h.pmm)
    given = alloc_lem h.pmm v.ok

    flipped : {x j : ℕ} → (x ≢ f) ⊎ (j ≢ i) → (f ≢ x) ⊎ (i ≢ j)
    flipped (inl ne) = inl (λ z. ne (sym z))
    flipped (inr ne) = inr (λ z. ne (sym z))

    pub get_or_make-StepResult :
        StepResult A slot root role f i p h (get_or_make_table_in_pml4 A f i page_user h)
    unfolding get_or_make_table_in_pml4 alloc_zeroed_page_phys
    get_or_make-StepResult = elim (Bool-cases (is_present (entry h.mem f i))) [
      | inl there ↦
          let e : ℕ = u64 (bit_or (entry h.mem f i) page_user) in
          let u = or_user (entry h.mem f i) there in
          let self = entry-set_entry_self h.mem f i e u.2 in
          let al = v.tree.aligned f p at in
          rw (there, self, u.1)
            (stepped _ _ (
              Stepped-kept A v at upper hi w (set_entry h.mem f i e) there
                (ap is_present self ∙ u.0) (ap pte_to_phys self ∙ u.1)
                (λ x j q known hj ne.
                  entry-set_entry_ne h.mem f i e x j al (v.tree.aligned x q known) hi hj
                    (flipped ne))))
      | inr absent ↦ elim (Bool-cases ((alloc h.pmm).0 == 0)) [
        | inl none_left ↦
            rw (absent, none_left) (stopped _ refl (Sound-fewer A v _ given.shrinks given.stays_ok))
        | inr some_left ↦
            let pos : (alloc h.pmm).0 ≢ 0 = λ z. ground arith in
            let links = user_table_entry (alloc h.pmm).0 (given.aligned pos) (given.in_range pos) in
            let s =
              Stepped-fresh A v at upper hi w (alloc h.pmm).0 (alloc h.pmm).1
                (zero_bytes h.mem (alloc h.pmm).0 0 4096) _ absent given pos
                (zero_bytes-ClearedPage (alloc h.pmm).0 h.mem) links.0 links.1 links.2
                zero_absent in
            rw (absent, some_left, some_left, s.points) (stepped (alloc h.pmm).0 _ s)
      ]
    ]

  module _ {slot : ℕ → Type 0} {root : ℕ} {role : Role} {h : Machine State}
      (v : Sound A slot root role h) (va : ℕ) (w : slot (pml4_index va)) where
    -- The walk keeps every address mapped as it was, whether it arrives or runs out of memory.
    pub user_walk-WalkResult :
        WalkResult A slot root
          (pml4_index va)
          (pdpt_index va)
          (pd_index va)
          h
          (user_walk A root va h)
    unfolding user_walk
    user_walk-WalkResult = descend-WalkResult A v va w go go step step
      where
        go : ℕ → ℕ → Machine State → Option ℕ × Machine State
        go f i h = get_or_make_table_in_pml4 A f i page_user h

        step : StepsDown A slot root go
        step role f i p h = get_or_make-StepResult

  -- The entry, if it is written.
  pub user_map_4k_in_pml4-Maps :
      {slot : ℕ → Type 0} {root : ℕ} {role : Role} {h : Machine State} (va pa : ℕ)
      (writable executable : Bool)
      → Sound A slot root role h
      → slot (pml4_index va)
      → pa < 2 ^ 52
      → Maps A slot root va
          (user_entry pa writable executable)
          h
          (user_map_4k_in_pml4 A root va pa writable executable h)
  unfolding user_map_4k_in_pml4
  user_map_4k_in_pml4-Maps {slot} {root} {role} {h} va pa writable executable v s fits =
      let e = user_entry_lem pa writable executable fits in
      let to : ℕ = user_entry pa writable executable in
      subst (λ (x : ℕ). Maps A slot root va to h (write_leaf A va x (user_walk A root va h)))
        (sym e.0) (write_leaf-Maps A va to e.1 e.2 (user_walk-WalkResult v va s))

  step-Explained :
      (Large : Type 0) (h : Machine State) (t i flags : ℕ)
      → Explained A Large (get_or_make_table_in_pml4 A t i flags h)
  unfolding get_or_make_table_in_pml4 alloc_zeroed_page_phys
  step-Explained Large h t i flags = elim (Bool-cases (is_present (entry h.mem t i))) [
    | inl there ↦ rw there (found _ _)
    | inr absent ↦ elim (Bool-cases ((alloc h.pmm).0 == 0)) [
      | inl none_left ↦
          rw (absent, none_left)
            (ran_out _ (record { before = h.pmm; refused = ground arith; then_left = refl }))
      | inr some_left ↦ rw (absent, some_left, some_left) (found _ _)
    ]
  ]

  user_walk-Explained :
      (Large : Type 0) (root va : ℕ) (h : Machine State) → Explained A Large (user_walk A root va h)
  unfolding user_walk
  user_walk-Explained Large root va h =
      and_then-Explained A _ (step-Explained Large h root (pml4_index va) page_user) λ pdpt h₁.
        and_then-Explained A _ (step-Explained Large h₁ pdpt (pdpt_index va) page_user)
          λ pd h₂. step-Explained Large h₂ pd (pd_index va) page_user

  -- The mapping succeeds, unless the last call of the frame allocator has refused it a frame.
  user_map_4k_in_pml4_succeeds :
      (root va pa : ℕ) (writable executable : Bool) (h : Machine State)
      → ((user_map_4k_in_pml4 A root va pa writable executable h).0 ≡ true)
        ⊎ RanOut A (user_map_4k_in_pml4 A root va pa writable executable h).1.pmm
  unfolding user_map_4k_in_pml4
  user_map_4k_in_pml4_succeeds root va pa writable executable h =
      elim (write_leaf-Explained A ⊥ va
        (bit_or (bit_and pa pte_addr_mask) (user_flags writable executable)) _
        (user_walk-Explained ⊥ root va h)) [
          | inl done ↦ inl done
          | inr (inl never) ↦ absurd never
          | inr (inr out) ↦ inr out
        ]

  -- In a well-formed table tree, mapping a user page to an address below 2^52 keeps it well formed. If it succeeds, the
  -- page resolves to the entry that holds the frame's number and these bits: present, user,
  -- writable just if that was asked for, and no-execute just if executable was not; every other
  -- page of the tree resolves to what it did before. If it fails, every page does; and
  -- it succeeds, unless the last call of the frame allocator has refused it a frame.
  pub user_map_4k_in_pml4-refines :
      {slot : ℕ → Type 0} {root : ℕ} {role : Role} {h : Machine State} (va pa : ℕ)
      (writable executable : Bool)
      → Sound A slot root role h
      → slot (pml4_index va)
      → pa < 2 ^ 52
      → Maps A slot root va
          (user_entry pa writable executable)
          h
          (user_map_4k_in_pml4 A root va pa writable executable h)
        × (((user_map_4k_in_pml4 A root va pa writable executable h).0 ≡ true)
            ⊎ RanOut A (user_map_4k_in_pml4 A root va pa writable executable h).1.pmm)
  user_map_4k_in_pml4-refines {root = root} {h = h} va pa writable executable v s fits = (
    user_map_4k_in_pml4-Maps va pa writable executable v s fits,
    user_map_4k_in_pml4_succeeds root va pa writable executable h,
  )
