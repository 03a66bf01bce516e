-- ===== src/Vmm/Step.antt =====
-- One step of `vmm_map_page`: the repeated "Get/create" fragment, and the walk of three of them.
use myria.Base.{ℕ, ◌<◌, ◌≡◌, ◌≢◌, refl, arith, Bool-cases, ◌==◌, inl, inr, some, List, length}
use myria.Memory.{zero_words, entry}
use myria.Memory.Pages.{zero_words-ClearedPage}
use myria.Frames.{FrameAllocator, Allocated}
use myria.Paging.{is_present, pml4_index, pdpt_index, pd_index}
use myria.Paging.Entries.{table_entry_links, zero_absent}
use myria.Paging.Trees.{Role, Within}
use myria.Paging.Machine.{
  Machine, Sound, StepResult, stopped, stepped, Sound-fewer, Stepped-kept, Stepped-fresh,
}
use myria.Paging.Walk.{WalkResult}
use myria.Vmm.Descend.{StepsDown, descend-WalkResult}
use myria.Vmm.{alloc_page_table, get_or_create, walk_or_create}

module _ (A : FrameAllocator) where
  open A use {State, alloc, alloc_lem, Ok, Free}

  module _ {slot : ℕ → Type 0} {root : ℕ} {role : Role} {f i : ℕ} {p : List ℕ} {h : Machine State}
      (v : Sound A slot root role h) (at : role f ≡ some p) (upper : length p < 3) (hi : i < 512)
      (w : Within slot p i) where
    given : Allocated Ok Free h.pmm (alloc h.pmm)
    given = alloc_lem h.pmm v.ok

    pub get_or_create-StepResult : StepResult A slot root role f i p h (get_or_create A f i h)
    unfolding get_or_create alloc_page_table
    get_or_create-StepResult = elim (Bool-cases (is_present (entry h.mem f i))) [
      | inl there ↦ rw there (
          stepped _ h
            (Stepped-kept A v at upper hi w h.mem there there refl (λ x j q e hj ne. refl)))
      | inr absent ↦ elim (Bool-cases ((alloc h.pmm).0 == 0)) [
        | inl none_left ↦
            rw (absent, none_left) (stopped _ refl (Sound-fewer A v _ given.shrinks given.stays_ok))
        | inr some_left ↦
            let pos : (alloc h.pmm).0 ≢ 0 = λ z. ground arith in
            let links =
              table_entry_links (alloc h.pmm).0 (given.aligned pos) (given.in_range pos) in
            let s =
              Stepped-fresh A v at upper hi w (alloc h.pmm).0 (alloc h.pmm).1
                (zero_words h.mem (alloc h.pmm).0 0 512) _ absent given pos
                (zero_words-ClearedPage (alloc h.pmm).0 h.mem) links.0 links.1 links.2
                zero_absent in
            rw (absent, some_left, some_left, s.points) (stepped (alloc h.pmm).0 _ s)
      ]
    ]

  module _ {slot : ℕ → Type 0} {root : ℕ} {role : Role} {h : Machine State}
      (v : Sound A slot root role h) (va : ℕ) (w : slot (pml4_index va)) where
    -- The walk keeps every address mapped as it was, whether it arrives or runs out of memory.
    pub walk_or_create-WalkResult :
        WalkResult A slot root
          (pml4_index va)
          (pdpt_index va)
          (pd_index va)
          h
          (walk_or_create A root va h)
    unfolding walk_or_create
    walk_or_create-WalkResult =
        descend-WalkResult A v va w (get_or_create A) (get_or_create A) step step
      where
        step : StepsDown A slot root (get_or_create A)
        step role f i p h = get_or_create-StepResult
