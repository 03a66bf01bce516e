-- ===== src/UserMapping/Pages.antt =====
-- The entries that `setup_user_address_space` writes.
use myria.Base.{ℕ, ◌+◌, ◌/◌, ◌%◌, ◌^◌, ◌<◌, ◌≡◌, refl, arith, true, bit_and, bit_or}
use myria.Base.Bits.{bit_or_fields, bit_or-zero, bit_or_low}
use myria.Paging.{pte_addr_mask, page_user, pml4_index, pte_to_phys, is_writable, no_execute}
use myria.Paging.Entries.{pte_to_phys_lem}
use myria.Paging.Permissions.{is_writable_lem, no_execute_lem}
use myria.UserMapping.{user_page_write, user_page_rw_noexec}

-- The entries for a frame, with the flags of the code page and of the stack pages.
abbrev pub code_entry : ℕ → ℕ
code_entry pa = bit_or (bit_or (bit_and pa pte_addr_mask) user_page_write) page_user

abbrev pub stack_entry : ℕ → ℕ
stack_entry pa = bit_or (bit_or (bit_and pa pte_addr_mask) user_page_rw_noexec) page_user

pub zero_slot : (pml4_index 0x400000 ≡ 0) × (pml4_index 0x800000 ≡ 0) × (pml4_index 0x801000 ≡ 0)
unfolding pml4_index
zero_slot = (refl, refl, refl)

module _ (pa : ℕ) (al : pa % 4096 ≡ 0) (fits : pa < 2 ^ 52) where
  masked : bit_and pa pte_addr_mask ≡ pa
  unfolding pte_to_phys
  masked = omega (arith, pte_to_phys_lem pa)

  code_entry_lem : code_entry pa ≡ pa + 7
  code_entry_lem = rw masked (
      ground (
        arith,
        bit_or_low 12 (pa / 4096) 7,
        bit_or_fields 12 (pa / 4096) 7 0 4,
        bit_or-zero (pa / 4096),
      ))

  high_bit : bit_or (pa / 4096) (2 ^ 51) ≡ pa / 4096 + 2 ^ 51
  high_bit = ground (arith, bit_or_fields 51 0 (pa / 4096) 1 0, bit_or-zero (pa / 4096))

  stack_entry_lem : stack_entry pa ≡ pa + 7 + 2 ^ 63
  stack_entry_lem = rw masked (
      ground (
        arith,
        bit_or_fields 12 (pa / 4096) 0 (2 ^ 51) 7,
        high_bit,
        bit_or_fields 12 (pa / 4096 + 2 ^ 51) 7 0 4,
        bit_or-zero (pa / 4096 + 2 ^ 51),
      ))

  pub code_entry_frame : pte_to_phys (code_entry pa) ≡ pa
  code_entry_frame = rw code_entry_lem (omega (arith, pte_to_phys_lem (pa + 7)))

  pub stack_entry_bits :
      (pte_to_phys (stack_entry pa) ≡ pa)
      × (is_writable (stack_entry pa) ≡ true)
      × (no_execute (stack_entry pa) ≡ true)
  stack_entry_bits = rw stack_entry_lem (
    omega (arith, pte_to_phys_lem (pa + 7 + 2 ^ 63)),
    (is_writable_lem (pa + 7 + 2 ^ 63)).1 (omega arith),
    (no_execute_lem (pa + 7 + 2 ^ 63)).1 (omega arith),
  )
