-- ===== src/UserAs/Create.antt =====
-- The three mappings of `create_user_process`, and the pages that a new process sees.
use myria.Base.{
  ℕ, ◌^◌, ◌<◌, ◌≡◌, ◌≢◌, ◌∙◌, refl, sym, subst, arith, Bool, true, false, none, some, if◌then◌else◌,
}
use myria.Memory.{Memory}
use myria.Frames.{FrameAllocator}
use myria.Paging.{pml4_index, lookup, resolve}
use myria.Paging.Entries.{page_of}
use myria.Paging.Machine.{Machine}
use myria.Vmm.Refine.{Maps}
use myria.Vmm.Three.{Lays, three_maps}
use myria.UserAs.{map_process}
use myria.UserAs.Flags.{user_entry}
use myria.UserAs.Refine.{user_map_4k_in_pml4-Maps}
use myria.UserAs.Process.{Bare, Bare-Sound, UserHalf}

zero_slots : (pml4_index 0x10000 ≡ 0) × (pml4_index 0x800000 ≡ 0) × (pml4_index 0x801000 ≡ 0)
unfolding pml4_index
zero_slots = (refl, refl, refl)

module _ (A : FrameAllocator) where
  open A use {State, alloc, alloc_lem, Ok, Free}

  -- The mappings' result as that of `map_process`.
  as_process : ℕ → Bool × Machine State → ℕ × Machine State
  as_process pml4 r = (if r.0 then pml4 else 0, r.1)

  as_process_eq :
      (pml4 : ℕ) (r₁ r₂ r₃ : Bool × Machine State)
      → (if r₁.0
          then (if r₂.0 then (if r₃.0 then (pml4, r₃.1) else (0, r₃.1)) else (0, r₂.1))
          else (0, r₁.1))
        ≡ as_process pml4 (
            if r₁.0
            then (if r₂.0 then (if r₃.0 then (true, r₃.1) else (false, r₃.1)) else (false, r₂.1))
            else (false, r₁.1))
  unfolding as_process
  as_process_eq pml4 (false, h₁) r₂ r₃ = refl
  as_process_eq pml4 (true, h₁) (false, h₂) r₃ = refl
  as_process_eq pml4 (true, h₁) (true, h₂) (false, h₃) = refl
  as_process_eq pml4 (true, h₁) (true, h₂) (true, h₃) = refl

  -- The user's half of the space `pml4`: a code page that is executable and not writable, two stack
  -- pages that are writable and not executable, and nothing else.
  pub record UserPages (pml4 code stack1 stack0 : ℕ) (n : Memory) : Type 0 where
    pub code_page : lookup n pml4 0x10000 ≡ some (user_entry code false true)
    pub stack1_page : lookup n pml4 0x800000 ≡ some (user_entry stack1 true false)
    pub stack0_page : lookup n pml4 0x801000 ≡ some (user_entry stack0 true false)
    pub nothing_else :
        (w : ℕ)
        → pml4_index w < 256
        → page_of w ≢ page_of 0x10000
        → page_of w ≢ page_of 0x800000
        → page_of w ≢ page_of 0x801000
        → lookup n pml4 w ≡ none

  -- The three mappings in a bare space.
  pub data MapResult (pml4 code stack1 stack0 : ℕ) : ℕ × Machine State → Type 0 where
    refused : (h' : Machine State) → MapResult pml4 code stack1 stack0 (0, h')
    made :
        (h' : Machine State)
        → UserPages pml4 code stack1 stack0 h'.mem
        → MapResult pml4 code stack1 stack0 (pml4, h')

  Bare-lookup :
      {root : ℕ} {h : Machine State}
      → Bare A root h
      → (w : ℕ) → pml4_index w < 256
      → lookup h.mem root w ≡ none
  unfolding resolve
  Bare-lookup b w lt = rw (b.empty (pml4_index w) lt) refl

  Lays-MapResult :
      {pml4 code stack1 stack0 : ℕ} {h : Machine State} (r : Bool × Machine State)
      → Bare A pml4 h
      → Lays A UserHalf pml4 0x10000 0x800000 0x801000
          (user_entry code false true)
          (user_entry stack1 true false)
          (user_entry stack0 true false)
          h
          r
      → MapResult pml4 code stack1 stack0 (as_process pml4 r)
  unfolding as_process
  Lays-MapResult (false, h') b l = refused h'
  Lays-MapResult (true, h') b l = made h' (record {
    code_page = l.first refl;
    stack1_page = l.second refl;
    stack0_page = l.third refl;
    nothing_else = λ w lt x y z. l.others w lt x y z ∙ Bare-lookup b w lt;
  })

  maps-MapResult :
      {pml4 code stack1 stack0 : ℕ} {h : Machine State} (r₁ r₂ r₃ : Bool × Machine State)
      → Bare A pml4 h
      → Maps A UserHalf pml4 0x10000 (user_entry code false true) h r₁
      → Maps A UserHalf pml4 0x800000 (user_entry stack1 true false) r₁.1 r₂
      → Maps A UserHalf pml4 0x801000 (user_entry stack0 true false) r₂.1 r₃
      → MapResult pml4 code stack1 stack0 (
          if r₁.0
          then (if r₂.0 then (if r₃.0 then (pml4, r₃.1) else (0, r₃.1)) else (0, r₂.1))
          else (0, r₁.1))
  maps-MapResult {pml4} {code} {stack1} {stack0} r₁ r₂ r₃ b m₁ m₂ m₃ =
      let z = zero_slots in
      let low : 0 < 256 = omega arith in
      subst (MapResult pml4 code stack1 stack0) (sym (as_process_eq pml4 r₁ r₂ r₃)) (
        Lays-MapResult _ b (
          three_maps A (subst UserHalf (sym z.0) low) (subst UserHalf (sym z.1) low)
            (λ e. omega arith) (λ e. omega arith) (λ e. omega arith) r₁ r₂ r₃ m₁ m₂ m₃))

  pub map_process-MapResult :
      {pml4 : ℕ} {h : Machine State} (code stack1 stack0 : ℕ)
      → Bare A pml4 h
      → code < 2 ^ 52
      → stack1 < 2 ^ 52
      → stack0 < 2 ^ 52
      → MapResult pml4 code stack1 stack0 (map_process A pml4 code stack1 stack0 h)
  map_process-MapResult {pml4} {h} code stack1 stack0 b hc h1 h0 =
      let z = zero_slots in
      let low : 0 < 256 = omega arith in
      let s₁ : UserHalf (pml4_index 0x10000) = subst UserHalf (sym z.0) low in
      let s₂ : UserHalf (pml4_index 0x800000) = subst UserHalf (sym z.1) low in
      let s₃ : UserHalf (pml4_index 0x801000) = subst UserHalf (sym z.2) low in
      let m₁ = user_map_4k_in_pml4-Maps A 0x10000 code false true (Bare-Sound A b) s₁ hc in
      let m₂ = user_map_4k_in_pml4-Maps A 0x800000 stack1 true false m₁.sound s₂ h1 in
      let m₃ = user_map_4k_in_pml4-Maps A 0x801000 stack0 true false m₂.sound s₃ h0 in
      maps-MapResult _ _ _ b m₁ m₂ m₃
