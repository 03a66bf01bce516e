-- ===== src/UserMapping/Space.antt =====
-- `setup_user_address_space`.
use myria.Base.{
  ℕ, ◌%◌, ◌^◌, ◌<◌, ◌≡◌, ◌≢◌, refl, sym, subst, arith, Bool, Bool-cases, inl, inr, true, false,
  Option, none, some, ◌==◌, ◌||◌, bit_and, if◌then◌else◌,
}
use myria.Pmm.{Pmm, pmm_alloc_page}
use myria.Frames.{Allocated}
use myria.Frames.Simple.{simple, IsFree, IsOk, pmm_alloc_page-Allocated}
use myria.Paging.{pte_addr_mask, pml4_index, lookup}
use myria.Paging.Entries.{page_of, is_present_lem}
use myria.Paging.Trees.{Role}
use myria.Paging.Machine.{Machine, Sound, Sound-fewer}
use myria.Vmm.Three.{Lays, three_maps}
use myria.UserMapping.{
  user_page_write, user_page_rw_noexec, map_code_and_stack, setup_user_address_space,
}
use myria.UserMapping.Refine.{map_user_4k-Maps}
use myria.UserMapping.Pages.{code_entry, stack_entry, zero_slot}

module _ {slot : ℕ → Type 0} (s : slot 0) where
  -- The mappings are made one after another, from a well-formed tree.
  map_code_and_stack-Lays :
      {role : Role} {h : Machine Pmm} (cr3 code_pa stack1_pa stack0_pa : ℕ)
      → Sound simple slot (bit_and cr3 pte_addr_mask) role h
      → Lays simple slot
          (bit_and cr3 pte_addr_mask)
          0x400000
          0x800000
          0x801000
          (code_entry code_pa)
          (stack_entry stack1_pa)
          (stack_entry stack0_pa)
          h
          (map_code_and_stack cr3 code_pa stack1_pa stack0_pa h)
  unfolding map_code_and_stack
  map_code_and_stack-Lays cr3 code_pa stack1_pa stack0_pa v =
      let z = zero_slot in
      let a =
        map_user_4k-Maps simple cr3 0x400000 code_pa user_page_write v (subst slot (sym z.0) s)
          ((is_present_lem user_page_write).1 refl) (omega arith) in
      let b =
        map_user_4k-Maps simple cr3 0x800000 stack1_pa user_page_rw_noexec a.sound
          (subst slot (sym z.1) s) ((is_present_lem user_page_rw_noexec).1 refl) (omega arith) in
      let c =
        map_user_4k-Maps simple cr3 0x801000 stack0_pa user_page_rw_noexec b.sound
          (subst slot (sym z.2) s) ((is_present_lem user_page_rw_noexec).1 refl) (omega arith) in
      three_maps simple (subst slot (sym z.0) s) (subst slot (sym z.1) s) (λ e. omega arith)
        (λ e. omega arith) (λ e. omega arith) _ _ _ a b c

-- Three distinct frames that were free, for the code page and the two stack pages.
pub record ThreeFrames (s : Pmm) (code stack1 stack0 : ℕ) : Type 0 where
  pub free_code : IsFree s code
  pub free_stack1 : IsFree s stack1
  pub free_stack0 : IsFree s stack0
  pub apart : (code ≢ stack1) × (code ≢ stack0) × (stack1 ≢ stack0)
  pub aligned : (code % 4096 ≡ 0) × (stack1 % 4096 ≡ 0) × (stack0 % 4096 ≡ 0)
  pub in_range : (code < 2 ^ 52) × (stack1 < 2 ^ 52) × (stack0 < 2 ^ 52)

-- A page that none of the three mappings is for.
abbrev pub Elsewhere : ℕ → Type 0
Elsewhere w =
    (page_of w ≢ page_of 0x400000) × (page_of w ≢ page_of 0x800000) × (page_of w ≢ page_of 0x801000)

-- The outcomes of `setup_user_address_space` from `h`: there were not three frames, and memory is
-- as before; a mapping failed; or all three were made.
pub data SpaceResult (slot : ℕ → Type 0) (root : ℕ) (h : Machine Pmm)
    : Option (ℕ × ℕ) × Machine Pmm → Type 0 where
  no_frames : (s : Pmm) → SpaceResult slot root h (none, record h { pmm = s })
  not_mapped :
      (role : Role) (h' : Machine Pmm)
      → Sound simple slot root role h'
      → ((w : ℕ) → slot (pml4_index w) → Elsewhere w → lookup h'.mem root w ≡ lookup h.mem root w)
      → SpaceResult slot root h (none, h')
  built :
      (code stack1 stack0 : ℕ) (h' : Machine Pmm)
      → ThreeFrames h.pmm code stack1 stack0
      → Lays simple slot root 0x400000 0x800000 0x801000
          (code_entry code)
          (stack_entry stack1)
          (stack_entry stack0)
          h
          (true, h')
      → SpaceResult slot root h (some (0x400000, 0x802000), h')

module _ (s : Pmm) (ok : IsOk s) where
  abbrev s₁ : Pmm
  s₁ = (pmm_alloc_page s).1

  abbrev s₂ : Pmm
  s₂ = (pmm_alloc_page s₁).1

  a₁ : Allocated IsOk IsFree s (pmm_alloc_page s)
  a₁ = pmm_alloc_page-Allocated s ok

  a₂ : Allocated IsOk IsFree s₁ (pmm_alloc_page s₁)
  a₂ = pmm_alloc_page-Allocated s₁ a₁.stays_ok

  a₃ : Allocated IsOk IsFree s₂ (pmm_alloc_page s₂)
  a₃ = pmm_alloc_page-Allocated s₂ a₂.stays_ok

  three_frames :
      (pmm_alloc_page s).0 ≢ 0
      → (pmm_alloc_page s₁).0 ≢ 0
      → (pmm_alloc_page s₂).0 ≢ 0
      → ThreeFrames s (pmm_alloc_page s).0 (pmm_alloc_page s₁).0 (pmm_alloc_page s₂).0
  three_frames p q r = record {
    free_code = a₁.was_free p;
    free_stack1 = a₁.shrinks _ (a₂.was_free q);
    free_stack0 = a₁.shrinks _ (a₂.shrinks _ (a₃.was_free r));
    apart = (
      λ e. a₁.is_taken p (subst (IsFree s₁) (sym e) (a₂.was_free q)),
      λ e. a₁.is_taken p (subst (IsFree s₁) (sym e) (a₂.shrinks _ (a₃.was_free r))),
      λ e. a₂.is_taken q (subst (IsFree s₂) (sym e) (a₃.was_free r)),
    );
    aligned = (a₁.aligned p, a₂.aligned q, a₃.aligned r);
    in_range = (a₁.in_range p, a₂.in_range q, a₃.in_range r);
  }

-- What the mappings leave, once there are frames.
mapped-SpaceResult :
    {slot : ℕ → Type 0} {root code stack1 stack0 : ℕ} {h h₀ : Machine Pmm} (b : Bool)
    (h' : Machine Pmm)
    → ThreeFrames h.pmm code stack1 stack0
    → h₀.mem ≡ h.mem
    → Lays simple slot root 0x400000 0x800000 0x801000
        (code_entry code)
        (stack_entry stack1)
        (stack_entry stack0)
        h₀
        (b, h')
    → SpaceResult slot root h (if b then (some (0x400000, 0x802000), h') else (none, h'))
mapped-SpaceResult true h' f same l = built _ _ _ h' f (record {
  role = l.role;
  sound = l.sound;
  first = l.first;
  second = l.second;
  third = l.third;
  others = λ w sw x y z. rw same at (l.others w sw x y z);
})
mapped-SpaceResult false h' f same l =
    not_mapped l.role h' l.sound (λ w sw e. rw same at (l.others w sw e.0 e.1 e.2))

-- In a well-formed table tree whose first top-level entry belongs to it, either there are not three
-- frames and memory stays as it was; or a mapping fails, and the tree is still well formed with
-- all other pages as they were; or the call returns the code's address and the stack's top, and the
-- three pages resolve to three distinct frames that were free, the others to what they did.
pub setup_user_address_space-SpaceResult :
    {slot : ℕ → Type 0} {role : Role} {h : Machine Pmm} (cr3 : ℕ)
    → Sound simple slot (bit_and cr3 pte_addr_mask) role h
    → slot 0
    → SpaceResult slot (bit_and cr3 pte_addr_mask) h (setup_user_address_space cr3 h)
unfolding setup_user_address_space
setup_user_address_space-SpaceResult {slot} {h = h} cr3 v s =
    elim (Bool-cases ((c == 0) || (t == 0) || (u == 0))) [
      | inl missing ↦ rw missing (no_frames _)
      | inr all ↦
          let l =
            map_code_and_stack-Lays s cr3 c t u
              (Sound-fewer simple v (s₂-after) fewer (a₃ h.pmm v.ok).stays_ok) in
          rw all (
            mapped-SpaceResult _ _
              (three_frames h.pmm v.ok (λ z. ground arith) (λ z. ground arith) (λ z. ground arith))
              refl l)
    ]
  where
    c : ℕ
    c = (pmm_alloc_page h.pmm).0

    t : ℕ
    t = (pmm_alloc_page (s₁ h.pmm v.ok)).0

    u : ℕ
    u = (pmm_alloc_page (s₂ h.pmm v.ok)).0

    s₂-after : Pmm
    s₂-after = (pmm_alloc_page (s₂ h.pmm v.ok)).1

    fewer : (q : ℕ) → IsFree s₂-after q → IsFree h.pmm q
    fewer q f = (a₁ h.pmm v.ok).shrinks q ((a₂ h.pmm v.ok).shrinks q ((a₃ h.pmm v.ok).shrinks q f))
