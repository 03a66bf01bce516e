-- ===== src/Vmm/Translate.antt =====
-- Mapping followed by translation, and which ranges of addresses are ranges of distinct pages.
use myria.Base.{ℕ, ◌+◌, ◌*◌, ◌^◌, ◌≤◌, ◌<◌, ◌≡◌, ◌≢◌, inr, sym, ap, ◌∙◌, arith, true, bit_or}
use myria.Base.Bits.{bit_or-zero}
use myria.Frames.{FrameAllocator}
use myria.Paging.{pml4_index, page_align_down, lookup, pte_to_phys}
use myria.Paging.Entries.{page_of, leaf_entry, page_align_down_lem, pte_to_phys_lem}
use myria.Paging.Trees.{Role}
use myria.Paging.Machine.{Machine, Sound}
use myria.Vmm.{vmm_map_page, vmm_get_physical}
use myria.Vmm.Refine.{vmm_map_page-refines, align_down-lt}
use myria.Vmm.Walk.{vmm_get_physical_lem, physical}
use myria.Vmm.Ranges.{nth}

frame_address : (pa : ℕ) → pa < 2 ^ 52 → pte_to_phys (page_align_down pa) ≡ page_align_down pa
frame_address pa h =
    omega (arith, pte_to_phys_lem (page_align_down pa), page_align_down_lem pa (omega arith))

-- After a successful mapping of `va` to the physical address `pa`, with flags that have no bit in
-- the address field, translating any address of the page of `va` gives the frame of `pa`, and
-- translating an address of another page of the tree gives what it gave before.
pub vmm_get_physical-vmm_map_page :
    (A : FrameAllocator) {slot : ℕ → Type 0} {root : ℕ} {role : Role} {h : Machine A.State}
    (va pa flags : ℕ)
    → Sound A slot root role h
    → slot (pml4_index va)
    → va < 2 ^ 64
    → pa < 2 ^ 52
    → flags < 2 ^ 64
    → pte_to_phys flags ≡ 0
    → (vmm_map_page A root va pa flags h).0 ≡ true
    → (vmm_get_physical (vmm_map_page A root va pa flags h).1.mem root va ≡ page_align_down pa)
      × ((w : ℕ)
          → slot (pml4_index w)
          → w < 2 ^ 64
          → page_of w ≢ page_of va
          → vmm_get_physical (vmm_map_page A root va pa flags h).1.mem root w
            ≡ vmm_get_physical h.mem root w)
vmm_get_physical-vmm_map_page A {root = root} {h = h} va pa flags v s hv hp hf clear worked =
    let hp' : pa < 2 ^ 64 = omega arith in
    let m = vmm_map_page-refines A va pa flags v s hv hp' hf in
    let l = leaf_entry (page_align_down pa) flags (align_down-lt pa hp') hf in
    (
      vmm_get_physical_lem _ root va hv
          ∙ ap physical (m.hit worked)
          ∙ l.2
          ∙ ap (bit_or (pte_to_phys (page_align_down pa))) clear
          ∙ bit_or-zero (pte_to_phys (page_align_down pa))
          ∙ frame_address pa hp,
      λ w sw hw ne.
          vmm_get_physical_lem _ root w hw
          ∙ ap physical (m.others w sw (inr ne))
          ∙ sym_physical w hw,
    )
  where
    sym_physical :
        (w : ℕ) → w < 2 ^ 64 → physical (lookup h.mem root w) ≡ vmm_get_physical h.mem root w
    sym_physical w hw = sym (vmm_get_physical_lem h.mem root w hw)

-- A range that does not pass the end of the address space, of at most 2 ^ 36 pages.
pub range_apart :
    (start count i j : ℕ)
    → start + count * 0x1000 ≤ 2 ^ 64
    → count ≤ 2 ^ 36
    → i < count
    → j < count
    → i ≢ j
    → page_of (nth start i) ≢ page_of (nth start j)
range_apart start count i j fits small hi hj ne = omega arith
