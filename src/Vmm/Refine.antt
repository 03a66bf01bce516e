-- ===== src/Vmm/Refine.antt =====
-- `vmm_map_page` against the abstract map from pages to page table entries.
use myria.Base.{
  ℕ, ◌^◌, ◌<◌, ◌≡◌, ◌≢◌, ◌⊎◌, inl, inr, refl, sym, ◌∙◌, arith, Bool, true, false, Option, none,
  some, [], bit_or, subst,
}
use myria.Memory.{set_entry}
use myria.Frames.{FrameAllocator}
use myria.Paging.{
  page_present, pml4_index, pdpt_index, pd_index, pt_index, page_align_down, lookup, indices,
  resolve, is_present,
}
use myria.Paging.Entries.{
  leaf_entry, index-lt, index-page_align_down, page_align_down_lem, page_of, page_of_indices,
}
use myria.Paging.Trees.{Role, IsPath}
use myria.Paging.Leaf.{Tree-leaf, resolve-leaf_self, resolve-leaf_other}
use myria.Paging.Machine.{Machine, Sound}
use myria.Paging.Walk.{WalkResult, failed, arrived}
use myria.Vmm.{vmm_map_page}
use myria.Vmm.Step.{walk_or_create-WalkResult}

-- The indices of an address whose top-level entry belongs to the tree are a path of it.
pub indices-IsPath : (slot : ℕ → Type 0) (w : ℕ) → slot (pml4_index w) → IsPath slot [] (indices w)
indices-IsPath slot w s = let l = index-lt w in (l.0, s, (l.1, tt, (l.2, tt, (l.3, tt, tt))))

-- Addresses with the same indices lie in the same page.
pub page_of-indices_eq : (v w : ℕ) → indices v ≡ indices w → page_of v ≡ page_of w
page_of-indices_eq v w e = ground (arith, page_of_indices v, page_of_indices w)

pub align_down-lt : (a : ℕ) → a < 2 ^ 64 → page_align_down a < 2 ^ 64
align_down-lt a h = omega (arith, page_align_down_lem a h)

pub indices-page_align_down : (a : ℕ) → a < 2 ^ 64 → indices (page_align_down a) ≡ indices a
indices-page_align_down a h = let e = index-page_align_down a h in rw (e.0, e.1, e.2, e.3) refl

pub page_of-page_align_down : (a : ℕ) → a < 2 ^ 64 → page_of (page_align_down a) ≡ page_of a
page_of-page_align_down a h = omega (arith, page_align_down_lem a h)

module _ (A : FrameAllocator) where
  open A use {State}

  -- From `h`, the call returned `r`: it succeeded and `va` resolves to `e`, or it failed; no
  -- other page resolves differently, and after a failure none does.
  pub record Maps (slot : ℕ → Type 0) (root va e : ℕ) (h : Machine State) (r : Bool × Machine State)
      : Type 0 where
    pub role : Role
    pub sound : Sound A slot root role r.1
    pub hit : r.0 ≡ true → lookup r.1.mem root va ≡ some e
    pub others :
        (w : ℕ)
        → slot (pml4_index w)
        → (r.0 ≡ false) ⊎ (page_of w ≢ page_of va)
        → lookup r.1.mem root w ≡ lookup h.mem root w

  -- The last statements of `vmm_map_page`, once the walk has ended.
  abbrev pub write_leaf : ℕ → ℕ → Option ℕ × Machine State → Bool × Machine State
  write_leaf va e r = elim r.0 [
    | none ↦ (false, r.1)
    | some pt ↦ (true, record r.1 { mem = set_entry r.1.mem pt (pt_index va) e })
  ]

  pub write_leaf-Maps :
      {slot : ℕ → Type 0} {root : ℕ} {h : Machine State} {r : Option ℕ × Machine State} (va e : ℕ)
      → e < 2 ^ 64
      → is_present e ≡ true
      → WalkResult A slot root (pml4_index va) (pdpt_index va) (pd_index va) h r
      → Maps slot root va e h (write_leaf va e r)
  write_leaf-Maps {slot} va e fits there (failed role h' s same) = record {
    role = role;
    sound = s;
    hit = λ odd. cc;
    others = λ w sw _. same (indices w) refl (indices-IsPath slot w sw);
  }
  write_leaf-Maps {slot} va e fits there (arrived pt h' k) =
      let l = index-lt va in
      record {
        role = k.role;
        sound = record {
          ok = k.sound.ok;
          tree = Tree-leaf k.sound.tree k.chain (pt_index va) e l.3 fits;
        };
        hit = λ _.
            resolve-leaf_self k.sound.tree k.chain (pt_index va) e l.3 fits l.0 l.1 l.2 ∙ rw there;
        others = λ w sw why.
            resolve-leaf_other k.sound.tree k.chain (pt_index va) e l.3 fits (indices w) refl
              (indices-IsPath slot w sw) (apart w why)
            ∙ k.same_map (indices w) refl (indices-IsPath slot w sw);
      }
    where
      apart : (w : ℕ) → (true ≡ false) ⊎ (page_of w ≢ page_of va) → indices w ≢ indices va
      apart w (inl odd) = cc
      apart w (inr ne) = λ same. ne (page_of-indices_eq w va same)

  -- In a well-formed table tree, `vmm_map_page` on an address of the tree keeps the tree well
  -- formed. If it succeeds, the address's page resolves to the entry for the physical page with
  -- the given flags, and every other page of the tree to what it did before. If it fails, for
  -- want of table frames, every page resolves to what it did before.
  pub vmm_map_page-refines :
      {slot : ℕ → Type 0} {root : ℕ} {role : Role} {h : Machine State} (va pa flags : ℕ)
      → Sound A slot root role h
      → slot (pml4_index va)
      → va < 2 ^ 64
      → pa < 2 ^ 64
      → flags < 2 ^ 64
      → Maps slot root va
          (bit_or (bit_or (page_align_down pa) flags) page_present)
          h
          (vmm_map_page A root va pa flags h)
  unfolding vmm_map_page
  vmm_map_page-refines {slot} {root} {role} {h} va pa flags v s hv hp hf =
      let l = leaf_entry (page_align_down pa) flags (align_down-lt pa hp) hf in
      let i = index-page_align_down va hv in
      let m =
        write_leaf-Maps (page_align_down va) _ l.1 l.0
          (walk_or_create-WalkResult A v (page_align_down va) (subst slot (sym i.0) s)) in
      record {
        role = m.role;
        sound = m.sound;
        hit = λ done.
            subst
              (λ is.
                resolve (vmm_map_page A root va pa flags h).1.mem root is
                ≡ some (bit_or (bit_or (page_align_down pa) flags) page_present))
              (indices-page_align_down va hv) (m.hit done);
        others = λ w sw why. m.others w sw (rw (page_of-page_align_down va hv) why);
      }
