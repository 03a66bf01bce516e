-- ===== src/Vmm.antt =====
-- os/kernel/mm/vmm.c: mapping and unmapping pages in the kernel's table tree. The virtual
-- addresses `phys + KERNEL_VMA_BASE` of tables stand for `phys`; `current_pml4` is the table that
-- `vmm_init` finds. TLB flushes and log lines have no effect on this state and are left out.
pub mod Descend
pub mod Step
pub mod Walk
pub mod Refine
pub mod Refusal
pub mod Three
pub mod Ranges
pub mod Rollback
pub mod Translate
mod Tests
use myria.Base.{
  ℕ, zero, suc, ◌+◌, ◌*◌, bit_and, bit_or, Bool, true, false, ◌==◌, if◌then◌else◌, Option, none,
  some, u64,
}
use myria.Memory.{Memory, entry, set_entry, zero_words}
use myria.Frames.{FrameAllocator}
use myria.Paging.{
  page_present, page_write, pte_addr_mask, pml4_index, pdpt_index, pd_index, pt_index, pte_to_phys,
  is_present, page_align_down,
}
use myria.Paging.Machine.{Machine}

-- The table that `vmm_init` takes from the control register.
unfoldable pub vmm_init : ℕ → ℕ
vmm_init cr3 = bit_and cr3 pte_addr_mask

-- `none` is the `return 0` where an entry on the way is not present.
abbrev next_table : Memory → ℕ → ℕ → Option ℕ
next_table mem table index =
    if is_present (entry mem table index) then some (pte_to_phys (entry mem table index)) else none

infixl 5 ◌>>=◌
abbrev ◌>>=◌ {ℓ} : {B : Type ℓ} → Option ℕ → (ℕ → Option B) → Option B
none >>= f = none
some a >>= f = f a

-- The walk of `vmm_unmap_page` and `vmm_get_physical` down to the last table.
last_table : Memory → ℕ → ℕ → Option ℕ
last_table mem current_pml4 vaddr = do
  pdpt ← next_table mem current_pml4 (pml4_index vaddr)
  pd ← next_table mem pdpt (pdpt_index vaddr)
  next_table mem pd (pd_index vaddr)

unfoldable pub vmm_get_physical : Memory → ℕ → ℕ → ℕ
unfolding last_table
vmm_get_physical mem current_pml4 vaddr =
    let va = page_align_down vaddr in
    elim (last_table mem current_pml4 va) [
      | none ↦ 0
      | some pt ↦
          if is_present (entry mem pt (pt_index va))
          then pte_to_phys (entry mem pt (pt_index va))
          else 0
    ]

unfoldable pub vmm_unmap_page : Memory → ℕ → ℕ → Memory
unfolding last_table
vmm_unmap_page mem current_pml4 vaddr =
    let va = page_align_down vaddr in
    elim (last_table mem current_pml4 va) [
      | none ↦ mem
      | some pt ↦ set_entry mem pt (pt_index va) 0
    ]

unfoldable pub vmm_unmap_pages_from : Memory → ℕ → ℕ → ℕ → ℕ → Memory
vmm_unmap_pages_from mem current_pml4 vaddr_start i zero = mem
vmm_unmap_pages_from mem current_pml4 vaddr_start i (suc left) =
    vmm_unmap_pages_from (vmm_unmap_page mem current_pml4 (u64 (vaddr_start + u64 (i * 0x1000))))
      current_pml4 vaddr_start (i + 1) left

unfoldable pub vmm_unmap_pages : Memory → ℕ → ℕ → ℕ → Memory
unfolding vmm_unmap_pages_from
vmm_unmap_pages mem current_pml4 vaddr_start count =
    vmm_unmap_pages_from mem current_pml4 vaddr_start 0 count

module _ (A : FrameAllocator) where
  open A use {State, alloc}

  -- The result is the table's physical address, 0 when memory has run out.
  unfoldable pub alloc_page_table : Machine State → ℕ × Machine State
  alloc_page_table h =
      let (phys, s) = alloc h.pmm in
      if phys == 0
      then (0, record h { pmm = s })
      else (phys, record { mem = zero_words h.mem phys 0 512; pmm = s })

  -- "Get/create" a table: entry `index` of `table` leads to it. `none` is the `return false`.
  unfoldable pub get_or_create : ℕ → ℕ → Machine State → Option ℕ × Machine State
  get_or_create table index h =
      if is_present (entry h.mem table index)
      then (some (pte_to_phys (entry h.mem table index)), h)
      else let (phys, h₁) = alloc_page_table h in
        if phys == 0
        then (none, h₁)
        else let mem =
            set_entry h₁.mem table index (bit_or (bit_or phys page_present) page_write) in
          (some (pte_to_phys (entry mem table index)), record h₁ { mem = mem })

  -- A step that may fail, and then the rest.
  abbrev pub and_then {ℓ} :
      {B : Type ℓ}
      → Option ℕ × Machine State
      → (ℕ → Machine State → Option B × Machine State)
      → Option B × Machine State
  and_then r rest = elim r.0 [ none ↦ (none, r.1) | some table ↦ rest table r.1 ]

  -- Down to the table that holds the page's entry.
  unfoldable pub walk_or_create : ℕ → ℕ → Machine State → Option ℕ × Machine State
  walk_or_create current_pml4 vaddr h =
      and_then (get_or_create current_pml4 (pml4_index vaddr) h) λ pdpt h₁.
        and_then (get_or_create pdpt (pdpt_index vaddr) h₁)
          λ pd h₂. get_or_create pd (pd_index vaddr) h₂

  unfoldable pub vmm_map_page : ℕ → ℕ → ℕ → ℕ → Machine State → Bool × Machine State
  vmm_map_page current_pml4 vaddr paddr flags h =
      let va = page_align_down vaddr in
      let pa = page_align_down paddr in
      let r = walk_or_create current_pml4 va h in
      elim r.0 [
        | none ↦ (false, r.1)
        | some pt ↦ (
          true,
          record r.1 {
            mem = set_entry r.1.mem pt (pt_index va) (bit_or (bit_or pa flags) page_present);
          },
        )
      ]

  -- The loop of `vmm_map_pages` from page `i`; a failure unmaps the pages before it.
  pub map_pages_from : ℕ → ℕ → ℕ → ℕ → ℕ → ℕ → Machine State → Bool × Machine State
  map_pages_from current_pml4 vaddr_start paddr_start flags i zero h = (true, h)
  map_pages_from current_pml4 vaddr_start paddr_start flags i (suc left) h =
      let r =
        vmm_map_page current_pml4 (u64 (vaddr_start + u64 (i * 0x1000)))
          (u64 (paddr_start + u64 (i * 0x1000))) flags h in
      let rest = map_pages_from current_pml4 vaddr_start paddr_start flags (i + 1) left r.1 in
      if r.0
      then rest
      else (false, record r.1 { mem = vmm_unmap_pages_from r.1.mem current_pml4 vaddr_start 0 i })

  unfoldable pub vmm_map_pages : ℕ → ℕ → ℕ → ℕ → ℕ → Machine State → Bool × Machine State
  unfolding map_pages_from
  vmm_map_pages current_pml4 vaddr_start paddr_start count flags h =
      map_pages_from current_pml4 vaddr_start paddr_start flags 0 count h
