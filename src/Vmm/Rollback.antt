-- ===== src/Vmm/Rollback.antt =====
-- `vmm_map_pages`: all pages of a range, or a rollback.
use native.Mathlib.Decide.{ℕ_discrete}
use native.Mathlib.Nat.{zero-add}
use myria.Base.{
  ℕ, zero, suc, ◌+◌, ◌^◌, ◌≤◌, ◌<◌, ◌≡◌, inl, inr, refl, ◌∙◌, arith, Bool, true, false, Bool-cases,
  none, some, bit_or, subst,
}
use myria.Frames.{FrameAllocator}
use myria.Paging.{page_present, pml4_index, page_align_down, lookup}
use myria.Paging.Trees.{Role}
use myria.Paging.Machine.{Machine, Sound}
use myria.Vmm.{vmm_unmap_pages_from, vmm_map_page, map_pages_from, vmm_map_pages}
use myria.Vmm.Refine.{Maps, vmm_map_page-refines}
use myria.Vmm.Ranges.{nth, Outside, IsRange, unmap_from}

-- The entry that maps page `i` of the range to its frame.
abbrev pub nth_entry : ℕ → ℕ → ℕ → ℕ
nth_entry paddr_start flags i =
    bit_or (bit_or (page_align_down (nth paddr_start i)) flags) page_present

suc-shift : (i left : ℕ) → i + 1 + left ≡ i + suc left
suc-shift i left = omega arith

module _ (A : FrameAllocator) where
  open A use {State}

  -- From `h`, mapping the pages from `lo` up to `hi` returned `r`.
  pub record MapsRange (slot : ℕ → Type 0) (root vaddr paddr flags lo hi : ℕ) (h : Machine State)
      (r : Bool × Machine State) : Type 0 where
    pub role : Role
    pub sound : Sound A slot root role r.1
    pub done :
        r.0 ≡ true
        → ((i : ℕ)
            → lo ≤ i
            → i < hi
            → lookup r.1.mem root (nth vaddr i) ≡ some (nth_entry paddr flags i))
          × ((w : ℕ)
              → slot (pml4_index w)
              → Outside vaddr lo hi w
              → lookup r.1.mem root w ≡ lookup h.mem root w)
    pub undone :
        r.0 ≡ false
        → (k : ℕ) × (lo ≤ k)
          × (k < hi)
          × ((i : ℕ) → i < k → lookup r.1.mem root (nth vaddr i) ≡ none)
          × ((w : ℕ)
              → slot (pml4_index w)
              → Outside vaddr 0 k w
              → lookup r.1.mem root w ≡ lookup h.mem root w)

  module _ {slot : ℕ → Type 0} {root : ℕ} (vaddr paddr flags count : ℕ) (small : flags < 2 ^ 64)
      (range : IsRange slot vaddr count) where
    stop_here :
        (i hi : ℕ) (h : Machine State) (r : Bool × Machine State)
        → i < hi
        → hi ≤ count
        → Maps A slot root (nth vaddr i) (nth_entry paddr flags i) h r
        → r.0 ≡ false
        → MapsRange slot root vaddr paddr flags i hi h
            (false, record r.1 { mem = vmm_unmap_pages_from r.1.mem root vaddr 0 i })
    stop_here i hi h r lt le m failed =
        let u =
          rw zero-add at (unmap_from vaddr count range i 0 r.1.mem m.sound.tree (omega arith)) in
        record {
          role = m.role;
          sound = record { ok = m.sound.ok; tree = u.tree };
          done = λ odd. cc;
          undone = λ _. (
            i,
            omega arith,
            lt,
            λ j p. u.gone j (omega arith) p,
            λ w sw out. u.others w sw out ∙ m.others w sw (inl failed),
          );
        }

    go_on :
        (i hi : ℕ) (h : Machine State) (r s : Bool × Machine State)
        → i < hi
        → hi ≤ count
        → Maps A slot root (nth vaddr i) (nth_entry paddr flags i) h r
        → r.0 ≡ true
        → MapsRange slot root vaddr paddr flags (i + 1) hi r.1 s
        → MapsRange slot root vaddr paddr flags i hi h s
    go_on i hi h r s lt le m worked rest = record {
      role = rest.role;
      sound = rest.sound;
      done = λ ok. (
        λ k p q. elim (ℕ_discrete k i) [
          | yes here ↦ rw here (
              (rest.done ok).1 (nth vaddr i) (range.slots i (omega arith))
                (λ j a b. range.apart i j (omega arith) (omega arith) (λ z. absurd (omega arith)))
              ∙ m.hit worked)
          | no later ↦ (rest.done ok).0 k (omega arith) q
        ],
        λ w sw out.
            (rest.done ok).1 w sw (λ j a b. out j (omega arith) b)
            ∙ m.others w sw (inr (out i (omega arith) lt)),
      );
      undone = λ bad.
          let (k, lo, up, gone, same) = rest.undone bad in
          (
            k,
            omega arith,
            up,
            gone,
            λ w sw out. same w sw out ∙ m.others w sw (inr (out i (omega arith) (omega arith))),
          );
    }

    map_from :
        (left i : ℕ) (role : Role) (h : Machine State)
        → Sound A slot root role h
        → i + left ≤ count
        → MapsRange slot root vaddr paddr flags i
            (i + left)
            h
            (map_pages_from A root vaddr paddr flags i left h)
    unfolding map_pages_from
    map_from zero i role h v le = record {
      role = role;
      sound = v;
      done = λ _. (λ k p q. absurd (omega arith), λ w sw out. refl);
      undone = λ odd. cc;
    }
    map_from (suc left) i role h v le =
        let m =
          vmm_map_page-refines A (nth vaddr i) (nth paddr i) flags v (range.slots i (omega arith))
            (omega arith) (omega arith) small in
        let r = vmm_map_page A root (nth vaddr i) (nth paddr i) flags h in
        elim (Bool-cases r.0) [
          | inl worked ↦ rw worked (
              go_on i (i + suc left) h r _ (omega arith) le m worked (
                subst
                  (λ hi.
                    MapsRange slot root vaddr paddr flags (i + 1) hi r.1
                      (map_pages_from A root vaddr paddr flags (i + 1) left r.1))
                  (suc-shift i left) (map_from left (i + 1) m.role r.1 m.sound (omega arith))))
          | inr failed ↦ rw failed (stop_here i (i + suc left) h r (omega arith) le m failed)
        ]

    -- Mapping a range of distinct pages of a well-formed tree either maps each page to its frame
    -- with the given flags and leaves all other pages as they were; or it fails at some page
    -- `k` of the range, leaves the pages before `k` unmapped, and all other pages, those
    -- from `k` on among them, as they were.
    pub vmm_map_pages-MapsRange :
        (role : Role) (h : Machine State)
        → Sound A slot root role h
        → MapsRange slot root vaddr paddr flags 0 count h
            (vmm_map_pages A root vaddr paddr count flags h)
    unfolding vmm_map_pages
    vmm_map_pages-MapsRange role h v = rw zero-add at (map_from count 0 role h v (omega arith))
