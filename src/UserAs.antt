-- ===== src/UserAs.antt =====
-- os/kernel/mm/user_as.c: address spaces for user mode, over any frame allocator. A pointer from
-- `phys_to_virt` stands for the physical address behind it; cache flushes, log lines and the
-- checks that only print are left out. `kernel_pml4_template_phys` is an argument and a result.
pub mod Clone
pub mod Flags
pub mod Refine
pub mod Process
pub mod Create
pub mod Launch
mod Tests
use myria.Base.{
  ℕ, zero, suc, ◌+◌, ◌-◌, ◌^◌, bit_and, bit_or, Bool, true, false, ◌==◌, ◌&&◌, ◌||◌, ltb,
  if◌then◌else◌, Option, none, some, u64, update,
}
use myria.Memory.{Memory, entry, set_entry, zero_bytes}
use myria.Frames.{FrameAllocator}
use myria.Paging.{
  page_present, page_write, page_user, page_nx, pte_addr_mask, pml4_index, pdpt_index, pd_index,
  pt_index, pte_to_phys, is_present,
}
use myria.Paging.Machine.{Machine}
use myria.Vmm.{and_then}

-- `for (i = 256; i < 512; i++) to[i] = from[i]`, from index `i` with `left` rounds to go.
unfoldable pub copy_entries_from : Memory → ℕ → ℕ → ℕ → ℕ → Memory
copy_entries_from mem to from i zero = mem
copy_entries_from mem to from i (suc left) =
    copy_entries_from (set_entry mem to i (u64 (entry mem from i))) to from (i + 1) left

-- The copy of the payload, of `payload_size` bytes and a page at most.
unfoldable pub copy_payload_from : Memory → ℕ → (ℕ → ℕ) → ℕ → ℕ → ℕ → Memory
copy_payload_from mem code_page payload payload_size i zero = mem
copy_payload_from mem code_page payload payload_size i (suc left) =
    let rest =
      copy_payload_from (update mem (code_page + i) (payload i)) code_page payload payload_size
        (i + 1) left in
    if ltb i payload_size then rest else mem

-- The flags of a user page.
unfoldable pub user_flags : Bool → Bool → ℕ
user_flags writable executable =
    let flags = bit_or page_present page_user in
    let flags₁ = if writable then bit_or flags page_write else flags in
    if executable then flags₁ else bit_or flags₁ page_nx

module _ (A : FrameAllocator) where
  open A use {State, alloc}

  -- The result is the frame's address, 0 when memory has run out.
  unfoldable pub alloc_zeroed_page_phys : Machine State → ℕ × Machine State
  alloc_zeroed_page_phys h =
      let (pa, s) = alloc h.pmm in
      if pa == 0
      then (0, record h { pmm = s })
      else (pa, record { mem = zero_bytes h.mem pa 0 4096; pmm = s })

  -- The result is the template, 0 if there is no frame for it.
  unfoldable pub init_kernel_pml4_template : ℕ → Machine State → ℕ × Machine State
  init_kernel_pml4_template cr3 h =
      let r = alloc_zeroed_page_phys h in
      if r.0 == 0 then (0, r.1) else (
        r.0,
        record r.1 { mem = copy_entries_from r.1.mem r.0 (bit_and cr3 pte_addr_mask) 256 256 },
      )

  unfoldable pub user_as_create : ℕ → Machine State → ℕ × Machine State
  user_as_create template h =
      let r = alloc_zeroed_page_phys h in
      if template == 0
      then (0, h)
      else if r.0 == 0
      then (0, r.1)
      else (r.0, record r.1 { mem = copy_entries_from r.1.mem r.0 template 256 256 })

  -- The table that the entry leads to; `none` is NULL.
  unfoldable pub get_or_make_table_in_pml4 : ℕ → ℕ → ℕ → Machine State → Option ℕ × Machine State
  get_or_make_table_in_pml4 table_phys index upper_flags h =
      if is_present (entry h.mem table_phys index)
      then (let mem =
            set_entry h.mem table_phys index
              (u64 (bit_or (entry h.mem table_phys index) upper_flags)) in
          (some (pte_to_phys (entry mem table_phys index)), record h { mem = mem }))
      else let r = alloc_zeroed_page_phys h in
        let mem =
          set_entry r.1.mem table_phys index
            (bit_or (bit_or (bit_or r.0 page_present) page_write) upper_flags) in
        if r.0 == 0
        then (none, r.1)
        else (some (pte_to_phys (entry mem table_phys index)), record r.1 { mem = mem })

  -- Down to the page table. The tables' addresses, which the source reads again from the entries,
  -- are those returned.
  unfoldable pub user_walk : ℕ → ℕ → Machine State → Option ℕ × Machine State
  user_walk pml4_phys va h =
      and_then A (get_or_make_table_in_pml4 pml4_phys (pml4_index va) page_user h) λ pdpt h₁.
        and_then A (get_or_make_table_in_pml4 pdpt (pdpt_index va) page_user h₁)
          λ pd h₂. get_or_make_table_in_pml4 pd (pd_index va) page_user h₂

  unfoldable pub user_map_4k_in_pml4 :
      ℕ → ℕ → ℕ → Bool → Bool → Machine State → Bool × Machine State
  user_map_4k_in_pml4 pml4_phys va pa writable executable h =
      let r = user_walk pml4_phys va h in
      elim r.0 [
        | none ↦ (false, r.1)
        | some pt ↦ (
          true,
          record r.1 {
            mem =
                set_entry r.1.mem pt (pt_index va)
                  (bit_or (bit_and pa pte_addr_mask) (user_flags writable executable));
          },
        )
      ]

  -- The three mappings of `create_user_process`; 0 if one of them fails.
  abbrev pub map_process : ℕ → ℕ → ℕ → ℕ → Machine State → ℕ × Machine State
  map_process user_pml4 code_pa stack1_pa stack0_pa h =
      let m₁ = user_map_4k_in_pml4 user_pml4 0x10000 code_pa false true h in
      let m₂ = user_map_4k_in_pml4 user_pml4 0x800000 stack1_pa true false m₁.1 in
      let m₃ = user_map_4k_in_pml4 user_pml4 0x801000 stack0_pa true false m₂.1 in
      if m₁.0
      then (if m₂.0 then (if m₃.0 then (user_pml4, m₃.1) else (0, m₃.1)) else (0, m₂.1))
      else (0, m₁.1)

  unfoldable pub create_user_process : ℕ → (ℕ → ℕ) → ℕ → Machine State → ℕ × Machine State
  create_user_process template payload payload_size h =
      let u = user_as_create template h in
      let a = alloc_zeroed_page_phys u.1 in
      let b = alloc_zeroed_page_phys a.1 in
      let c = alloc_zeroed_page_phys b.1 in
      if u.0 == 0
      then (0, u.1)
      else if (a.0 == 0) || (b.0 == 0) || (c.0 == 0)
      then (0, c.1)
      else map_process u.0 a.0 b.0 c.0
          (record c.1 { mem = copy_payload_from c.1.mem a.0 payload payload_size 0 4096 })
