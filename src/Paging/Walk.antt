-- ===== src/Paging/Walk.antt =====
-- Three steps down from the top-level table, with the tables created as needed.
use myria.Base.{ℕ, ◌<◌, ◌≡◌, inl, ap, ◌∙◌, arith, Option, none, some, List, [], ◌∷◌, length}
use myria.Memory.{Memory, entry}
use myria.Frames.{FrameAllocator}
use myria.Paging.{is_present, pte_to_phys, resolve}
use myria.Paging.Leaf.{Chain}
use myria.Paging.Trees.{Role, IsPath}
use myria.Paging.Growth.{resolve-Grows, level_ne}
use myria.Paging.Machine.{Machine, Sound, Stepped}

-- Every address resolves in `n` as it did in `m`.
abbrev pub SameMap : (ℕ → Type 0) → ℕ → Memory → Memory → Type 0
SameMap slot root m n =
    (is : List ℕ) → length is ≡ 4 → IsPath slot [] is → resolve n root is ≡ resolve m root is

module _ (A : FrameAllocator) where
  open A use {State}

  -- The walk ended at `pt`, the table for the indices `i4`, `i3`, `i2`.
  pub record Walked (slot : ℕ → Type 0) (root i4 i3 i2 : ℕ) (h : Machine State) (pt : ℕ)
      (h' : Machine State) : Type 0 where
    pub role : Role
    pub sound : Sound A slot root role h'
    pub same_map : SameMap slot root h.mem h'.mem
    pub chain : Chain root i4 i3 i2 pt role h'.mem

  pub data WalkResult (slot : ℕ → Type 0) (root i4 i3 i2 : ℕ) (h : Machine State)
      : Option ℕ × Machine State → Type 0 where
    failed :
        (role : Role) (h' : Machine State)
        → Sound A slot root role h'
        → SameMap slot root h.mem h'.mem
        → WalkResult slot root i4 i3 i2 h (none, h')
    arrived :
        (pt : ℕ) (h' : Machine State)
        → Walked slot root i4 i3 i2 h pt h'
        → WalkResult slot root i4 i3 i2 h (some pt, h')

  module _ {slot : ℕ → Type 0} {root : ℕ} where
    pub Stepped-SameMap :
        {role : Role} {f i c : ℕ} {p : List ℕ} {h h' : Machine State}
        → Sound A slot root role h
        → role f ≡ some p
        → length p < 3
        → Stepped A slot root role f i p h c h'
        → SameMap slot root h.mem h'.mem
    Stepped-SameMap v at upper s is l ok =
        resolve-Grows v.tree at upper s.grows is root [] v.tree.rooted (omega arith) ok

    module _ {role : Role} {i4 i3 i2 pdpt pd pt : ℕ} {h h₁ h₂ h₃ : Machine State}
        (v : Sound A slot root role h) (r4 : i4 < 512) (r3 : i3 < 512)
        (a : Stepped A slot root role root i4 [] h pdpt h₁)
        (b : Stepped A slot root a.later pdpt i3 (i4 ∷ []) h₁ pd h₂)
        (c : Stepped A slot root b.later pd i2 (i3 ∷ i4 ∷ []) h₂ pt h₃) where
      root_in_b : b.later root ≡ some []
      root_in_b = b.sound.tree.rooted

      pdpt_in_b : b.later pdpt ≡ some (i4 ∷ [])
      pdpt_in_b = b.keeps pdpt _ a.named

      at_pdpt : entry h₃.mem pdpt i3 ≡ entry h₂.mem pdpt i3
      at_pdpt =
          c.grows.others pdpt i3 _ pdpt_in_b r3
            (inl (level_ne b.later pdpt pd _ _ pdpt_in_b b.named (omega arith)))

      at_root : entry h₃.mem root i4 ≡ entry h₁.mem root i4
      at_root =
          c.grows.others root i4 _ root_in_b r4
            (inl (level_ne b.later root pd _ _ root_in_b b.named (omega arith)))
          ∙ b.grows.others root i4 _ a.sound.tree.rooted r4
              (inl (level_ne a.later root pdpt _ _ a.sound.tree.rooted a.named (omega arith)))

      pub three_steps : Walked slot root i4 i3 i2 h pt h₃
      three_steps = record {
        role = c.later;
        sound = c.sound;
        same_map = λ is l ok.
            Stepped-SameMap b.sound b.named (omega arith) c is l ok
            ∙ Stepped-SameMap a.sound a.named (omega arith) b is l ok
            ∙ Stepped-SameMap v v.tree.rooted (omega arith) a is l ok;
        chain = record {
          pdpt = pdpt;
          pd = pd;
          rooted = c.sound.tree.rooted;
          named4 = c.keeps pdpt _ pdpt_in_b;
          named3 = c.keeps pd _ b.named;
          named2 = c.named;
          link4 = (ap is_present at_root ∙ a.grows.linked, ap pte_to_phys at_root ∙ a.points);
          link3 = (ap is_present at_pdpt ∙ b.grows.linked, ap pte_to_phys at_pdpt ∙ b.points);
          link2 = (c.grows.linked, c.points);
        };
      }
