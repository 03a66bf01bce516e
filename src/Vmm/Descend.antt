-- ===== src/Vmm/Descend.antt =====
-- Three steps down a table tree, whatever the steps are: the walks of `vmm_map_page` and of the
-- user mappings.
use myria.Base.{ℕ, ◌<◌, ◌≡◌, arith, Option, none, some, List, length, ◌∷◌, [], ◌∙◌}
use myria.Frames.{FrameAllocator}
use myria.Paging.{pml4_index, pdpt_index, pd_index}
use myria.Paging.Entries.{index-lt}
use myria.Paging.Trees.{Role, Within}
use myria.Paging.Machine.{Machine, Sound, Stepped, StepResult, stopped, stepped}
use myria.Paging.Walk.{WalkResult, failed, arrived, SameMap, Stepped-SameMap, three_steps}
use myria.Vmm.{and_then}

module _ (A : FrameAllocator) where
  open A use {State}

  -- A property of both outcomes of a step carries over to the step and its rest.
  and_then-cases :
      {slot : ℕ → Type 0} {root : ℕ} {role : Role} {f i : ℕ} {p : List ℕ} {h : Machine State}
      {r : Option ℕ × Machine State} (P : Option ℕ × Machine State → Type 0)
      (rest : ℕ → Machine State → Option ℕ × Machine State)
      → StepResult A slot root role f i p h r
      → ((h' : Machine State) → h'.mem ≡ h.mem → Sound A slot root role h' → P (none, h'))
      → ((c : ℕ) (h' : Machine State) → Stepped A slot root role f i p h c h' → P (rest c h'))
      → P (and_then A r rest)
  and_then-cases P rest (stopped h' same v) stop go = stop h' same v
  and_then-cases P rest (stepped c h' s) stop go = go c h' s

  last-cases :
      {slot : ℕ → Type 0} {root : ℕ} {role : Role} {f i : ℕ} {p : List ℕ} {h : Machine State}
      {r : Option ℕ × Machine State} (P : Option ℕ × Machine State → Type 0)
      → StepResult A slot root role f i p h r
      → ((h' : Machine State) → h'.mem ≡ h.mem → Sound A slot root role h' → P (none, h'))
      → ((c : ℕ) (h' : Machine State) → Stepped A slot root role f i p h c h' → P (some c, h'))
      → P r
  last-cases P (stopped h' same v) stop go = stop h' same v
  last-cases P (stepped c h' s) stop go = go c h' s

  -- From every well-formed tree and every entry above its last level, `go` stops or steps down.
  abbrev pub StepsDown :
      (ℕ → Type 0) → ℕ → (ℕ → ℕ → Machine State → Option ℕ × Machine State) → Type 0
  StepsDown slot root go =
      (role : Role) (f i : ℕ) (p : List ℕ) (h : Machine State)
      → Sound A slot root role h
      → role f ≡ some p
      → length p < 3
      → i < 512
      → Within slot p i
      → StepResult A slot root role f i p h (go f i h)

  module _ {slot : ℕ → Type 0} {root : ℕ} {role : Role} {h : Machine State}
      (v : Sound A slot root role h) (va : ℕ) (w : slot (pml4_index va))
      (top below : ℕ → ℕ → Machine State → Option ℕ × Machine State)
      (top_steps : StepsDown slot root top) (below_steps : StepsDown slot root below) where
    abbrev Result : Option ℕ × Machine State → Type 0
    Result = WalkResult A slot root (pml4_index va) (pdpt_index va) (pd_index va) h

    -- The walk keeps every address mapped as it was, whether it arrives or stops.
    pub descend-WalkResult : Result (
        and_then A
          (top root (pml4_index va) h)
          λ pdpt h₁. and_then A (below pdpt (pdpt_index va) h₁) λ pd h₂. below pd (pd_index va) h₂)
    descend-WalkResult =
        and_then-cases Result _ (top_steps _ _ _ _ _ v v.tree.rooted (omega arith) lt.0 w)
          (λ h' same s. failed role h' s (λ is l ok. rw same))
          λ pdpt h₁ a.
            and_then-cases Result _ (below_steps _ _ _ _ _ a.sound a.named (omega arith) lt.1 tt)
              (λ h' same s. failed a.later h' s (λ is l ok. rw same (first a is l ok)))
              λ pd h₂ b.
                last-cases Result (below_steps _ _ _ _ _ b.sound b.named (omega arith) lt.2 tt)
                  (λ h' same s. failed b.later h' s (λ is l ok. rw same (second a b is l ok)))
                  λ pt h₃ c. arrived pt h₃ (three_steps A v lt.0 lt.1 a b c)
      where
        lt : (pml4_index va < 512) × (pdpt_index va < 512) × (pd_index va < 512)
        lt = let l = index-lt va in (l.0, l.1, l.2)

        first :
            {pdpt : ℕ} {h₁ : Machine State}
            → Stepped A slot root role root (pml4_index va) [] h pdpt h₁
            → SameMap slot root h.mem h₁.mem
        first a = Stepped-SameMap A v v.tree.rooted (omega arith) a

        second :
            {pdpt pd : ℕ} {h₁ h₂ : Machine State}
            (a : Stepped A slot root role root (pml4_index va) [] h pdpt h₁)
            → Stepped A slot root a.later pdpt (pdpt_index va) (pml4_index va ∷ []) h₁ pd h₂
            → SameMap slot root h.mem h₂.mem
        second a b is l ok =
            Stepped-SameMap A a.sound a.named (omega arith) b is l ok ∙ first a is l ok
