-- ===== src/Vmm/Ranges.antt =====
-- `vmm_map_pages` and `vmm_unmap_pages`: ranges of pages, and the rollback of a failure.
use native.Mathlib.Decide.{ℕ_discrete}
use native.Mathlib.Nat.{zero-add}
use myria.Base.{ℕ, zero, suc, ◌+◌, ◌*◌, ◌≤◌, ◌<◌, ◌≡◌, ◌≢◌, refl, ◌∙◌, arith, none, u64}
use myria.Memory.{Memory}
use myria.Paging.{pml4_index, lookup}
use myria.Paging.Entries.{page_of}
use myria.Paging.Trees.{Role, Tree}
use myria.Vmm.{vmm_unmap_page, vmm_unmap_pages_from, vmm_unmap_pages}
use myria.Vmm.Walk.{vmm_unmap_page-refines}

-- Address `i` of a range that starts at `start`, as the loops compute it.
abbrev pub nth : ℕ → ℕ → ℕ
nth start i = u64 (start + u64 (i * 0x1000))

-- The page of `w` is not among those numbered from `lo` up to `hi`.
abbrev pub Outside : ℕ → ℕ → ℕ → ℕ → Type 0
Outside start lo hi w = (i : ℕ) → lo ≤ i → i < hi → page_of w ≢ page_of (nth start i)

-- The first `count` pages of the range lie in the tree and are distinct.
pub record IsRange (slot : ℕ → Type 0) (start count : ℕ) : Type 0 where
  pub slots : (i : ℕ) → i < count → slot (pml4_index (nth start i))
  pub apart :
      (i j : ℕ) → i < count → j < count → i ≢ j → page_of (nth start i) ≢ page_of (nth start j)

pub record UnmapsRange (slot : ℕ → Type 0) (root : ℕ) (Free : ℕ → Type 0) (role : Role)
    (start lo hi : ℕ) (m n : Memory) : Type 0 where
  pub tree : Tree slot root Free role n
  pub gone : (i : ℕ) → lo ≤ i → i < hi → lookup n root (nth start i) ≡ none
  pub others :
      (w : ℕ) → slot (pml4_index w) → Outside start lo hi w → lookup n root w ≡ lookup m root w

module _ {slot : ℕ → Type 0} {root : ℕ} {Free : ℕ → Type 0} {role : Role} (start count : ℕ)
    (range : IsRange slot start count) where
  pub unmap_from :
      (left i : ℕ) (m : Memory)
      → Tree slot root Free role m
      → i + left ≤ count
      → UnmapsRange slot root Free role start i
          (i + left)
          m
          (vmm_unmap_pages_from m root start i left)
  unfolding vmm_unmap_pages_from
  unmap_from zero i m t h = record {
    tree = t;
    gone = λ k p q. absurd (omega arith);
    others = λ w sw out. refl;
  }
  unmap_from (suc left) i m t h =
      let first =
        vmm_unmap_page-refines t (nth start i) (range.slots i (omega arith)) (omega arith) in
      let rest =
        unmap_from left (i + 1) (vmm_unmap_page m root (nth start i)) first.tree (omega arith) in
      record {
        tree = rest.tree;
        gone = λ k p q. elim (ℕ_discrete k i) [
          | yes here ↦ rw here (
              rest.others (nth start i) (range.slots i (omega arith))
                (λ j a b. range.apart i j (omega arith) (omega arith) (λ z. absurd (omega arith)))
              ∙ first.gone)
          | no later ↦ rest.gone k (omega arith) (omega arith)
        ];
        others = λ w sw out.
            rest.others w sw (λ j a b. out j (omega arith) (omega arith))
            ∙ first.others w sw (out i (omega arith) (omega arith));
      }

  -- Unmapping a range of distinct pages of a well-formed tree leaves each of them resolving to no
  -- entry and every other page of the tree as it was.
  pub vmm_unmap_pages-UnmapsRange :
      (m : Memory)
      → Tree slot root Free role m
      → UnmapsRange slot root Free role start 0 count m (vmm_unmap_pages m root start count)
  unfolding vmm_unmap_pages
  vmm_unmap_pages-UnmapsRange m t = rw zero-add at (unmap_from count 0 m t (omega arith))
