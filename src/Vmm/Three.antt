-- ===== src/Vmm/Three.antt =====
-- Three mappings in a row, each made only if the one before it succeeded: the code page and the
-- two stack pages of user_mapping.c and user_as.c.
use myria.Base.{ℕ, ◌≡◌, ◌≢◌, inr, ◌∙◌, Bool, true, false, some, if◌then◌else◌}
use myria.Frames.{FrameAllocator}
use myria.Paging.{pml4_index, lookup}
use myria.Paging.Entries.{page_of}
use myria.Paging.Trees.{Role}
use myria.Paging.Machine.{Machine, Sound}
use myria.Vmm.Refine.{Maps}

module _ (A : FrameAllocator) where
  open A use {State}

  -- From `h`, the calls ended in `r`: on success the three addresses resolve to the three entries;
  -- in any case pages other than theirs resolve as before.
  pub record Lays (slot : ℕ → Type 0) (root v₁ v₂ v₃ e₁ e₂ e₃ : ℕ) (h : Machine State)
      (r : Bool × Machine State) : Type 0 where
    pub role : Role
    pub sound : Sound A slot root role r.1
    pub first : r.0 ≡ true → lookup r.1.mem root v₁ ≡ some e₁
    pub second : r.0 ≡ true → lookup r.1.mem root v₂ ≡ some e₂
    pub third : r.0 ≡ true → lookup r.1.mem root v₃ ≡ some e₃
    pub others :
        (w : ℕ)
        → slot (pml4_index w)
        → page_of w ≢ page_of v₁
        → page_of w ≢ page_of v₂
        → page_of w ≢ page_of v₃
        → lookup r.1.mem root w ≡ lookup h.mem root w

  module _ {slot : ℕ → Type 0} {root v₁ v₂ v₃ e₁ e₂ e₃ : ℕ} {h : Machine State}
      (s₁ : slot (pml4_index v₁)) (s₂ : slot (pml4_index v₂)) (n₁₂ : page_of v₁ ≢ page_of v₂)
      (n₁₃ : page_of v₁ ≢ page_of v₃) (n₂₃ : page_of v₂ ≢ page_of v₃) where
    pub three_maps :
        (r₁ r₂ r₃ : Bool × Machine State)
        → Maps A slot root v₁ e₁ h r₁
        → Maps A slot root v₂ e₂ r₁.1 r₂
        → Maps A slot root v₃ e₃ r₂.1 r₃
        → Lays slot root v₁ v₂ v₃ e₁ e₂ e₃ h (
            if r₁.0
            then (if r₂.0 then (if r₃.0 then (true, r₃.1) else (false, r₃.1)) else (false, r₂.1))
            else (false, r₁.1))
    three_maps (false, h₁) r₂ r₃ a b c = record {
      role = a.role;
      sound = a.sound;
      first = λ odd. cc;
      second = λ odd. cc;
      third = λ odd. cc;
      others = λ w s x y z. a.others w s (inr x);
    }
    three_maps (true, h₁) (false, h₂) r₃ a b c = record {
      role = b.role;
      sound = b.sound;
      first = λ odd. cc;
      second = λ odd. cc;
      third = λ odd. cc;
      others = λ w s x y z. b.others w s (inr y) ∙ a.others w s (inr x);
    }
    three_maps (true, h₁) (true, h₂) (false, h₃) a b c = record {
      role = c.role;
      sound = c.sound;
      first = λ odd. cc;
      second = λ odd. cc;
      third = λ odd. cc;
      others = λ w s x y z. c.others w s (inr z) ∙ b.others w s (inr y) ∙ a.others w s (inr x);
    }
    three_maps (true, h₁) (true, h₂) (true, h₃) a b c = record {
      role = c.role;
      sound = c.sound;
      first = λ done. c.others v₁ s₁ (inr n₁₃) ∙ b.others v₁ s₁ (inr n₁₂) ∙ a.hit done;
      second = λ done. c.others v₂ s₂ (inr n₂₃) ∙ b.hit done;
      third = λ done. c.hit done;
      others = λ w s x y z. c.others w s (inr z) ∙ b.others w s (inr y) ∙ a.others w s (inr x);
    }
