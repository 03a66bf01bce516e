-- ===== src/UserMapping/Protection.antt =====
-- `setup_user_address_space` followed by `make_code_page_executable`.
use myria.Base.{
  none, ◌⊎◌, inl, inr, Option-cases, ℕ, ◌≡◌, ◌∙◌, refl, sym, subst, arith, true, false, Option,
  some, bit_and,
}
use myria.Pmm.{Pmm}
use myria.Frames.Simple.{simple}
use myria.Memory.{Memory}
use myria.Paging.{pte_addr_mask, pml4_index, lookup, pte_to_phys, is_writable, no_execute}
use myria.Paging.Trees.{Role}
use myria.Paging.Machine.{Machine, Sound}
use myria.UserMapping.{setup_user_address_space, make_code_page_executable}
use myria.UserMapping.Executable.{Executable, make_code_page_executable-Executable}
use myria.UserMapping.Pages.{code_entry, stack_entry, code_entry_frame, stack_entry_bits, zero_slot}
use myria.UserMapping.Space.{
  ThreeFrames, Elsewhere, SpaceResult, no_frames, not_mapped, built,
  setup_user_address_space-SpaceResult,
}

-- The code page can be executed and not written, the stack pages written and not executed, and
-- each is a frame of its own that was free.
pub record WxorX (slot : ℕ → Type 0) (root : ℕ) (h : Machine Pmm) (n : Memory) : Type 0 where
  pub code : ℕ
  pub stack1 : ℕ
  pub stack0 : ℕ
  pub frames : ThreeFrames h.pmm (pte_to_phys code) (pte_to_phys stack1) (pte_to_phys stack0)
  pub code_page : lookup n root 0x400000 ≡ some code
  pub stack1_page : lookup n root 0x800000 ≡ some stack1
  pub stack0_page : lookup n root 0x801000 ≡ some stack0
  pub code_bits : (is_writable code ≡ false) × (no_execute code ≡ false)
  pub stack1_bits : (is_writable stack1 ≡ true) × (no_execute stack1 ≡ true)
  pub stack0_bits : (is_writable stack0 ≡ true) × (no_execute stack0 ≡ true)
  pub others : (w : ℕ) → slot (pml4_index w) → Elsewhere w → lookup n root w ≡ lookup h.mem root w

WxorX-after :
    {slot : ℕ → Type 0} {h : Machine Pmm} {r : Option (ℕ × ℕ) × Machine Pmm} (cr3 : ℕ) (p : ℕ × ℕ)
    → slot 0
    → SpaceResult slot (bit_and cr3 pte_addr_mask) h r
    → r.0 ≡ some p
    → WxorX slot (bit_and cr3 pte_addr_mask) h (make_code_page_executable cr3 p.0 r.1.mem)
WxorX-after cr3 p s (no_frames _) done = absurd cc
WxorX-after cr3 p s (not_mapped _ _ _ _) done = absurd cc
WxorX-after {slot} {h} cr3 p s (built code stack1 stack0 h' f l) done =
    let at : p ≡ (0x400000, 0x802000) = cc in
    let z = zero_slot in
    let x : Executable slot (bit_and cr3 pte_addr_mask) 0x400000 (code_entry code) h'.mem
        (make_code_page_executable cr3 0x400000 h'.mem) =
      make_code_page_executable-Executable cr3 0x400000 (code_entry code) l.sound.tree
        (subst slot (sym z.0) s) (l.first refl) in
    let b₁ = stack_entry_bits stack1 f.aligned.1 f.in_range.1 in
    let b₀ = stack_entry_bits stack0 f.aligned.2 f.in_range.2 in
    let same = x.same_frame ∙ code_entry_frame code f.aligned.0 f.in_range.0 in
    rw at (record {
      code = x.now;
      stack1 = stack_entry stack1;
      stack0 = stack_entry stack0;
      frames = rw (same, b₁.0, b₀.0) f;
      code_page = x.resolves;
      stack1_page = x.others 0x800000 (subst slot (sym z.1) s) (λ e. omega arith) ∙ l.second refl;
      stack0_page = x.others 0x801000 (subst slot (sym z.2) s) (λ e. omega arith) ∙ l.third refl;
      code_bits = (x.read_only, x.fetchable);
      stack1_bits = (b₁.1, b₁.2);
      stack0_bits = (b₀.1, b₀.2);
      others = λ w sw e. x.others w sw e.0 ∙ l.others w sw e.0 e.1 e.2;
    })

-- The call failed, or the code page at the address it returned can be made executable.
abbrev pub IsProtected : (ℕ → Type 0) → ℕ → Machine Pmm → Option (ℕ × ℕ) × Machine Pmm → Type 0
IsProtected slot cr3 h r =
    (r.0 ≡ none)
    ⊎ ((p : ℕ × ℕ) × (r.0 ≡ some p)
        × WxorX slot (bit_and cr3 pte_addr_mask) h (make_code_page_executable cr3 p.0 r.1.mem))

-- In a well-formed table tree whose first top-level entry belongs to it,
-- `setup_user_address_space` either fails, or it succeeds and, once its code page is made
-- executable, the code page is executable and not writable, both stack pages are writable and not
-- executable, each of the three is a frame of its own that was free, and no other page of the tree
-- has changed.
pub setup_user_address_space-WxorX :
    {slot : ℕ → Type 0} {role : Role} {h : Machine Pmm} (cr3 : ℕ)
    → Sound simple slot (bit_and cr3 pte_addr_mask) role h
    → slot 0
    → IsProtected slot cr3 h (setup_user_address_space cr3 h)
setup_user_address_space-WxorX {slot} {h = h} cr3 v s =
    let r = setup_user_address_space-SpaceResult cr3 v s in
    elim (Option-cases (setup_user_address_space cr3 h).0) [
      | inl failed ↦ inl failed
      | inr (p, done) ↦ inr (p, done, WxorX-after cr3 p s r done)
    ]
