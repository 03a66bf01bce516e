-- ===== src/Paging.antt =====
-- Page table entries and the walk of a 4-level table, shared by os/kernel/mm/vmm.c, user_as.c,
-- user_mapping.c and paging.c, which each repeat these macros.
pub mod Entries
pub mod Permissions
pub mod Trees
pub mod Growth
pub mod Fresh
pub mod Machine
pub mod Walk
pub mod Leaf
use myria.Base.{
  ℕ, zero, suc, ◌+◌, ◌-◌, ◌*◌, ◌/◌, ◌%◌, ◌^◌, ◌&&◌, bit_and, bit_or, Bool, not, ◌==◌, if◌then◌else◌,
  Option, none, some, List, [], ◌∷◌,
}
use myria.Memory.{Memory, entry}

abbrev pub page_present : ℕ
page_present = 1

abbrev pub page_write : ℕ
page_write = 2

abbrev pub page_user : ℕ
page_user = 4

abbrev pub page_huge : ℕ
page_huge = 0x80

abbrev pub page_nx : ℕ
page_nx = 2 ^ 63

abbrev pub pte_addr_mask : ℕ
pte_addr_mask = 0x000F_FFFF_FFFF_F000

unfoldable pub pml4_index : ℕ → ℕ
pml4_index vaddr = bit_and (vaddr / 2 ^ 39) 0x1FF

unfoldable pub pdpt_index : ℕ → ℕ
pdpt_index vaddr = bit_and (vaddr / 2 ^ 30) 0x1FF

unfoldable pub pd_index : ℕ → ℕ
pd_index vaddr = bit_and (vaddr / 2 ^ 21) 0x1FF

unfoldable pub pt_index : ℕ → ℕ
pt_index vaddr = bit_and (vaddr / 2 ^ 12) 0x1FF

unfoldable pub pte_to_phys : ℕ → ℕ
pte_to_phys pte = bit_and pte pte_addr_mask

-- `pte & PAGE_PRESENT` as a truth value.
unfoldable pub is_present : ℕ → Bool
is_present pte = not (bit_and pte page_present == 0)

-- `pte & PTE_WRITABLE`, `pte & PTE_HUGEPAGE` and `pte & PTE_NOEXECUTE` as truth values.
unfoldable pub is_writable : ℕ → Bool
is_writable pte = not (bit_and pte page_write == 0)

unfoldable pub is_huge : ℕ → Bool
is_huge pte = not (bit_and pte page_huge == 0)

unfoldable pub no_execute : ℕ → Bool
no_execute pte = not (bit_and pte page_nx == 0)

-- `addr & ~(PAGE_SIZE - 1)`
unfoldable pub page_align_down : ℕ → ℕ
page_align_down addr = bit_and addr (2 ^ 64 - 1 - (0x1000 - 1))

-- What the processor's walk from the table `table` finds along a list of indices: the present
-- entry at the end, if every entry on the way is present.
unfoldable pub resolve : Memory → ℕ → List ℕ → Option ℕ
resolve m table [] = none
resolve m table (i ∷ []) = if is_present (entry m table i) then some (entry m table i) else none
resolve m table (i ∷ j ∷ is) =
    if is_present (entry m table i)
    then resolve m (pte_to_phys (entry m table i)) (j ∷ is)
    else none

abbrev pub indices : ℕ → List ℕ
indices va = pml4_index va ∷ pdpt_index va ∷ pd_index va ∷ pt_index va ∷ []

-- The page table entry that maps the address `va`.
abbrev pub lookup : Memory → ℕ → ℕ → Option ℕ
lookup m pml4 va = resolve m pml4 (indices va)
