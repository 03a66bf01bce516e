-- ===== src/Paging/Permissions.antt =====
-- The permission bits of entries, and the words that `&` and `|` with them yield.
use myria.Base.{
  ℕ, ◌+◌, ◌-◌, ◌*◌, ◌/◌, ◌%◌, ◌^◌, ◌<◌, ◌≡◌, ◌↔◌, refl, not, ◌==◌, arith, true, false, bit_and,
  bit_not64,
}
use myria.Base.Bits.{bit_and_single, bit_and_fields, bit_and_mask}
use myria.Paging.{page_write, page_nx, is_present, is_writable, is_huge, no_execute, pte_to_phys}
use myria.Paging.Entries.{is_present_lem, pte_to_phys_lem}

pub is_writable_lem : (e : ℕ) → (is_writable e ≡ true) ↔ (e / 2 % 2 ≡ 1)
unfolding is_writable
is_writable_lem e = ground (arith, bit_and_single 1 e)

pub no_execute_lem : (e : ℕ) → (no_execute e ≡ true) ↔ (e / 2 ^ 63 % 2 ≡ 1)
unfolding no_execute
no_execute_lem e = ground (arith, bit_and_single 63 e)

pub is_huge_lem : (e : ℕ) → is_huge e ≡ not (e / 2 ^ 7 % 2 * 2 ^ 7 == 0)
unfolding is_huge
is_huge_lem e = rw (bit_and_single 7 e) refl

pub clear_write_lem : (e : ℕ) → bit_and e (bit_not64 page_write) ≡ e / 4 % 2 ^ 62 * 4 + e % 2
clear_write_lem e = ground (
  arith,
  bit_and_fields 2 (e / 4) (e % 4) (2 ^ 62 - 1) 1,
  bit_and_mask 62 (e / 4),
  bit_and_mask 1 (e % 4),
)

pub clear_nx_lem : (e : ℕ) → bit_and e (bit_not64 page_nx) ≡ e % 2 ^ 63
clear_nx_lem e = bit_and_mask 63 e

-- An entry after `&= ~PTE_WRITABLE` and `&= ~PTE_NOEXECUTE`.
pub executable_entry :
    (e : ℕ)
    → let x = bit_and (bit_and e (bit_not64 page_write)) (bit_not64 page_nx) in
      (x < 2 ^ 64)
      × (is_present x ≡ is_present e)
      × (pte_to_phys x ≡ pte_to_phys e)
      × (is_writable x ≡ false)
      × (no_execute x ≡ false)
executable_entry e =
    rw (clear_nx_lem (bit_and e (bit_not64 page_write)), clear_write_lem e)
      (
        omega arith,
        ground (arith, is_present_lem e, is_present_lem ((e / 4 % 2 ^ 62 * 4 + e % 2) % 2 ^ 63)),
        omega (arith, pte_to_phys_lem e, pte_to_phys_lem ((e / 4 % 2 ^ 62 * 4 + e % 2) % 2 ^ 63)),
        ground (arith, is_writable_lem ((e / 4 % 2 ^ 62 * 4 + e % 2) % 2 ^ 63)),
        ground (arith, no_execute_lem ((e / 4 % 2 ^ 62 * 4 + e % 2) % 2 ^ 63)),
      )
