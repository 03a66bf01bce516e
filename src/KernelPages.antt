-- ===== src/KernelPages.antt =====
-- os/kernel/mm/paging.c: making the kernel's writable sections writable in the tables that the
-- boot loader left, and clearing .bss. A pointer from `phys_to_virt` stands for the physical address
-- behind it; the value of CR3 and the linker's section bounds are arguments.
pub mod Walks
pub mod Sections
pub mod Bss
mod Tests
use myria.Base.{
  ℕ, zero, suc, ◌+◌, ◌-◌, ◌/◌, ◌^◌, bit_and, bit_or, not, Bool, true, false, ltb, if◌then◌else◌,
  Option, none, some, u64, bit_not64, update,
}
use myria.Memory.{Memory, entry, set_entry, zero_bytes}
use myria.Paging.{
  page_write, pte_addr_mask, pml4_index, pdpt_index, pd_index, pt_index, pte_to_phys, is_present,
  is_writable, is_huge, page_align_down,
}

pub data LeafSize : Type 0 where
  leaf_4k : LeafSize
  leaf_2m : LeafSize
  leaf_1g : LeafSize

-- The part of `walk_t` that the callers read: the size of the leaf, and the entry that maps it,
-- as its table and index.
pub record Walk : Type 0 where
  pub leaf : LeafSize
  pub table : ℕ
  pub index : ℕ

-- `none` is `return false`.
unfoldable pub walk_va_to_leaf : Memory → ℕ → ℕ → Option Walk
walk_va_to_leaf mem cr3 va =
    let pml4 = bit_and cr3 pte_addr_mask in
    let pdpt = pte_to_phys (entry mem pml4 (pml4_index va)) in
    let pd = pte_to_phys (entry mem pdpt (pdpt_index va)) in
    let pt = pte_to_phys (entry mem pd (pd_index va)) in
    if not (is_present (entry mem pml4 (pml4_index va)))
    then none
    else if not (is_present (entry mem pdpt (pdpt_index va)))
    then none
    else if is_huge (entry mem pdpt (pdpt_index va))
    then some (record { leaf = leaf_1g; table = pdpt; index = pdpt_index va })
    else if not (is_present (entry mem pd (pd_index va)))
    then none
    else if is_huge (entry mem pd (pd_index va))
    then some (record { leaf = leaf_2m; table = pd; index = pd_index va })
    else if not (is_present (entry mem pt (pt_index va)))
    then none
    else some (record { leaf = leaf_4k; table = pt; index = pt_index va })

-- One case of the `switch`; the three differ in the pointer only.
unfoldable pub set_writable : Memory → ℕ → ℕ → Memory
set_writable mem table index =
    if is_writable (entry mem table index)
    then mem
    else set_entry mem table index (u64 (bit_or (entry mem table index) page_write))

unfoldable pub make_page_writable_minimal : ℕ → ℕ → Memory → Bool × Memory
make_page_writable_minimal cr3 va mem = elim (walk_va_to_leaf mem cr3 va) [
  | none ↦ (false, mem)
  | some w ↦ (true, set_writable mem w.table w.index)
]

-- `for (; va < end; va += 0x1000)`; `none` is the halt after a failure, or the end of the fuel.
unfoldable pub make_writable_from : ℕ → ℕ → ℕ → ℕ → Memory → Option Memory
make_writable_from cr3 end zero va mem = if ltb va end then none else some mem
make_writable_from cr3 end (suc fuel) va mem =
    let r = make_page_writable_minimal cr3 va mem in
    let rest = make_writable_from cr3 end fuel (u64 (va + 0x1000)) r.1 in
    if ltb va end then (if r.0 then rest else none) else some mem

-- `(addr + 0xFFF) & ~0xFFF`
abbrev pub page_align_up : ℕ → ℕ
page_align_up addr = page_align_down (u64 (addr + 0xFFF))

-- The fuel is `total_pages`.
unfoldable pub enable_bss_write_permissions : ℕ → ℕ → ℕ → Memory → Option Memory
enable_bss_write_permissions cr3 data_start bss_end mem =
    let total_pages = (page_align_up bss_end - page_align_down data_start) / 0x1000 in
    make_writable_from cr3 (page_align_up bss_end) total_pages (page_align_down data_start) mem

-- The clearing in chunks of 4 KB, from offset `i`, a `u64`; `none` is the end of the fuel.
unfoldable pub clear_chunks_from : ℕ → ℕ → ℕ → ℕ → Memory → Option Memory
clear_chunks_from bss bss_size zero i mem = if ltb i bss_size then none else some mem
clear_chunks_from bss bss_size (suc fuel) i mem =
    let chunk_size = if ltb (bss_size - i) 4096 then bss_size - i else 4096 in
    let rest =
      clear_chunks_from bss bss_size fuel (u64 (i + 4096))
        (zero_bytes mem (bss + i) 0 chunk_size) in
    if ltb i bss_size then rest else some mem

-- One chunk for each 4 KB begun.
unfoldable pub activate_kernel_page_tables : ℕ → ℕ → Memory → Option Memory
activate_kernel_page_tables bss_start bss_end mem =
    let bss_size = bss_end - bss_start in
    clear_chunks_from bss_start bss_size ((bss_size + 4095) / 4096) 0 (update mem bss_start 0)
