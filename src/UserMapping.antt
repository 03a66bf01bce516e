-- ===== src/UserMapping.antt =====
-- os/kernel/mm/user_mapping.c: mapping user pages in the tables that the control register names.
-- A pointer from `phys_to_virt` stands for the physical address behind it; the value of CR3 is an
-- argument, and TLB flushes and log lines are left out.
pub mod UserBits
pub mod Large
pub mod Fresh
pub mod Failure
pub mod Refine
pub mod Executable
pub mod Pages
pub mod Space
pub mod Protection
pub mod Copy
mod Tests
use myria.Base.{
  ℕ, zero, suc, ◌+◌, ◌-◌, ◌^◌, bit_and, bit_or, Bool, true, false, not, ◌==◌, ◌||◌, ltb,
  if◌then◌else◌, Option, none, some, u64, bit_not64, update,
}
use myria.Memory.{Memory, entry, set_entry, zero_bytes}
use myria.Frames.{FrameAllocator}
use myria.Frames.Simple.{simple}
use myria.Pmm.{Pmm, pmm_alloc_page, pmm_free_page}
use myria.Paging.{
  page_present, page_write, page_user, page_nx, pte_addr_mask, pml4_index, pdpt_index, pd_index,
  pt_index, pte_to_phys, is_present, is_huge,
}
use myria.Paging.Machine.{Machine}
use myria.Vmm.{and_then}

abbrev pub user_page_write : ℕ
user_page_write = bit_or (bit_or page_present page_user) page_write

abbrev pub user_page_rw_noexec : ℕ
user_page_rw_noexec = bit_or (bit_or (bit_or page_present page_user) page_write) page_nx

unfoldable pub clear_page : Memory → ℕ → Memory
clear_page mem phys_addr = zero_bytes mem phys_addr 0 4096

module _ (A : FrameAllocator) where
  open A use {State, alloc}

  -- The table that the entry leads to; `none` is NULL.
  unfoldable pub get_or_make_table : ℕ → ℕ → Machine State → Option ℕ × Machine State
  get_or_make_table table index h =
      if not (is_present (entry h.mem table index))
      then (let (phys, s) = alloc h.pmm in
          let mem =
            set_entry (clear_page h.mem phys) table index
              (bit_or (bit_or (bit_or phys page_present) page_user) page_write) in
          if phys == 0
          then (none, record h { pmm = s })
          else (some (pte_to_phys (entry mem table index)), record { mem = mem; pmm = s }))
      else let mem =
          set_entry h.mem table index (u64 (bit_or (entry h.mem table index) page_user)) in
        (some (pte_to_phys (entry mem table index)), record h { mem = mem })

  -- A step to the next level, refused if the entry maps a large page.
  abbrev pub unless_huge : ℕ → ℕ → Machine State → Option ℕ × Machine State
  unless_huge table index h =
      let r = get_or_make_table table index h in
      if is_huge (entry h.mem table index) then (none, h) else r

  -- Down to the page table.
  unfoldable pub map_walk : ℕ → ℕ → Machine State → Option ℕ × Machine State
  map_walk pml4 user_va h = and_then A (get_or_make_table pml4 (pml4_index user_va) h) λ pdpt h₁.
      and_then A (unless_huge pdpt (pdpt_index user_va) h₁)
        λ pd h₂. unless_huge pd (pd_index user_va) h₂

  unfoldable pub map_user_4k : ℕ → ℕ → ℕ → ℕ → Machine State → Bool × Machine State
  map_user_4k cr3 user_va phys_addr flags h =
      let r = map_walk (bit_and cr3 pte_addr_mask) user_va h in
      elim r.0 [
        | none ↦ (false, r.1)
        | some pt ↦ (
          true,
          record r.1 {
            mem =
                set_entry r.1.mem pt (pt_index user_va)
                  (bit_or (bit_or (bit_and phys_addr pte_addr_mask) flags) page_user);
          },
        )
      ]

-- `if (pa) pmm_free_page(pa)`
abbrev free_if : ℕ → Pmm → Pmm
free_if pa s = if pa == 0 then s else pmm_free_page s pa

-- The three mappings of `setup_user_address_space`: the code page, then the two of the stack.
unfoldable pub map_code_and_stack : ℕ → ℕ → ℕ → ℕ → Machine Pmm → Bool × Machine Pmm
map_code_and_stack cr3 code_pa stack1_pa stack0_pa h =
    let m₁ = map_user_4k simple cr3 0x400000 code_pa user_page_write h in
    let m₂ = map_user_4k simple cr3 0x800000 stack1_pa user_page_rw_noexec m₁.1 in
    let m₃ = map_user_4k simple cr3 0x801000 stack0_pa user_page_rw_noexec m₂.1 in
    if m₁.0
    then (if m₂.0 then (if m₃.0 then (true, m₃.1) else (false, m₃.1)) else (false, m₂.1))
    else (false, m₁.1)

-- The addresses of the code and of the stack's top, which the source stores through pointers.
unfoldable pub setup_user_address_space : ℕ → Machine Pmm → Option (ℕ × ℕ) × Machine Pmm
setup_user_address_space cr3 h =
    let (code_pa, s₁) = pmm_alloc_page h.pmm in
    let (stack1_pa, s₂) = pmm_alloc_page s₁ in
    let (stack0_pa, s₃) = pmm_alloc_page s₂ in
    let m = map_code_and_stack cr3 code_pa stack1_pa stack0_pa (record h { pmm = s₃ }) in
    if (code_pa == 0) || (stack1_pa == 0) || (stack0_pa == 0)
    then (none, record h { pmm = free_if stack0_pa (free_if stack1_pa (free_if code_pa s₃)) })
    else if m.0
    then (some (0x400000, 0x800000 + 0x2000), m.1)
    else (none, m.1)

-- `for (i = 1; i < code_size; i++) dst[i] = src[i]`, from index `i` with `left` rounds to go.
unfoldable pub copy_code_from : Memory → ℕ → ℕ → ℕ → ℕ → Memory
copy_code_from mem dst src i zero = mem
copy_code_from mem dst src i (suc left) =
    copy_code_from (update mem (dst + i) (mem (src + i))) dst src (i + 1) left

-- The memory here is the address space of the caller, by virtual address.
unfoldable pub copy_user_code : Memory → ℕ → ℕ → ℕ → Bool × Memory
copy_user_code mem user_code_va kernel_code code_size =
    if ltb 4096 code_size then (false, mem) else (
      true,
      copy_code_from (update mem user_code_va (mem kernel_code)) user_code_va kernel_code 1
          (code_size - 1),
    )

-- The page table of an address, whatever the entries on the way hold.
unfoldable pub blind_walk : Memory → ℕ → ℕ → ℕ
blind_walk mem pml4 va =
    let pdpt = pte_to_phys (entry mem pml4 (pml4_index va)) in
    let pd = pte_to_phys (entry mem pdpt (pdpt_index va)) in
    pte_to_phys (entry mem pd (pd_index va))

unfoldable pub make_code_page_executable : ℕ → ℕ → Memory → Memory
make_code_page_executable cr3 code_va mem =
    let pt = blind_walk mem (bit_and cr3 pte_addr_mask) code_va in
    let i1 = pt_index code_va in
    let mem₁ = set_entry mem pt i1 (bit_and (entry mem pt i1) (bit_not64 page_write)) in
    set_entry mem₁ pt i1 (bit_and (entry mem₁ pt i1) (bit_not64 page_nx))
