-- ===== src/Paging/Entries.antt =====
-- Laws of page table entries and of the indices of an address.
use myria.Base.{
  refl, bit_and, false, ℕ, ◌+◌, ◌-◌, ◌*◌, ◌/◌, ◌%◌, ◌^◌, ◌<◌, ◌≡◌, ◌↔◌, bit_or, arith, true,
}
use myria.Base.Bits.{
  bit_and-bit_or, bit_and_fields, bit_and_mask, bit_and-zero, bit_or_fields, bit_or_step, bit_or-lt,
  bit_or_low, bit_or-zero,
}
use myria.Paging.{
  pte_addr_mask, page_present, page_write, pml4_index, pdpt_index, pd_index, pt_index, pte_to_phys,
  is_present, page_align_down,
}

pub pte_to_phys_lem : (e : ℕ) → pte_to_phys e ≡ e / 2 ^ 12 % 2 ^ 40 * 2 ^ 12
unfolding pte_to_phys
pte_to_phys_lem e = ground (
  arith,
  bit_and_fields 12 (e / 2 ^ 12) (e % 2 ^ 12) (2 ^ 40 - 1) 0,
  bit_and_mask 40 (e / 2 ^ 12),
  bit_and-zero (e % 2 ^ 12),
)

pub is_present_lem : (e : ℕ) → (is_present e ≡ true) ↔ (e % 2 ≡ 1)
unfolding is_present
is_present_lem e = ground (arith, bit_and_mask 1 e)

pub pte_to_phys-aligned : (e : ℕ) → pte_to_phys e % 4096 ≡ 0
pte_to_phys-aligned e = omega (arith, pte_to_phys_lem e)

pub page_align_down_lem : (a : ℕ) → a < 2 ^ 64 → page_align_down a ≡ a / 2 ^ 12 * 2 ^ 12
unfolding page_align_down
page_align_down_lem a h = ground (
  arith,
  bit_and_fields 12 (a / 2 ^ 12) (a % 2 ^ 12) (2 ^ 52 - 1) 0,
  bit_and_mask 52 (a / 2 ^ 12),
  bit_and-zero (a % 2 ^ 12),
)

pub index-lt :
    (va : ℕ)
    → (pml4_index va < 512) × (pdpt_index va < 512) × (pd_index va < 512) × (pt_index va < 512)
unfolding pml4_index pdpt_index pd_index pt_index
index-lt va = omega (
  arith,
  bit_and_mask 9 (va / 2 ^ 39),
  bit_and_mask 9 (va / 2 ^ 30),
  bit_and_mask 9 (va / 2 ^ 21),
  bit_and_mask 9 (va / 2 ^ 12),
)

-- The 36-bit number of the page that holds an address.
abbrev pub page_of : ℕ → ℕ
page_of va = va / 2 ^ 12 % 2 ^ 36

pub page_of_indices :
    (va : ℕ)
    → page_of va ≡ ((pml4_index va * 512 + pdpt_index va) * 512 + pd_index va) * 512 + pt_index va
unfolding pml4_index pdpt_index pd_index pt_index
page_of_indices va = omega (
  arith,
  bit_and_mask 9 (va / 2 ^ 39),
  bit_and_mask 9 (va / 2 ^ 30),
  bit_and_mask 9 (va / 2 ^ 21),
  bit_and_mask 9 (va / 2 ^ 12),
)

-- An entry for a fresh table is present and points to it.
pub table_entry :
    (g : ℕ) → g % 4096 ≡ 0 → g < 2 ^ 52 → bit_or (bit_or g page_present) page_write ≡ g + 3
table_entry g h k =
    ground
      (arith, bit_or_low 12 (g / 4096) 1, bit_or_fields 12 (g / 4096) 1 0 2, bit_or-zero (g / 4096))

table_entry_fields :
    (g : ℕ)
    → g % 4096 ≡ 0
    → g < 2 ^ 52
    → (is_present (g + 3) ≡ true) × (pte_to_phys (g + 3) ≡ g) × (g + 3 < 2 ^ 64)
table_entry_fields g h k =
    ((is_present_lem (g + 3)).1 (omega arith), omega (arith, pte_to_phys_lem (g + 3)), omega arith)

-- `phys | PAGE_PRESENT | PAGE_WRITE`
pub table_entry_links :
    (g : ℕ)
    → g % 4096 ≡ 0
    → g < 2 ^ 52
    → let e = bit_or (bit_or g page_present) page_write in
      (is_present e ≡ true) × (pte_to_phys e ≡ g) × (e < 2 ^ 64)
table_entry_links g h k = rw (table_entry g h k) (table_entry_fields g h k)

pub zero_absent : is_present 0 ≡ false
unfolding is_present
zero_absent = refl

-- The flags of a present leaf do not touch the address, if they have no address bits.
pub leaf_entry :
    (pa flags : ℕ)
    → pa < 2 ^ 64
    → flags < 2 ^ 64
    → let e = bit_or (bit_or pa flags) page_present in
      (is_present e ≡ true)
      × (e < 2 ^ 64)
      × (pte_to_phys e ≡ bit_or (pte_to_phys pa) (pte_to_phys flags))
unfolding pte_to_phys
leaf_entry pa flags p q = (
  (is_present_lem _).1 (omega (arith, bit_or_step (bit_or pa flags) 1)),
  bit_or-lt 64 (bit_or pa flags) 1 (bit_or-lt 64 pa flags p q) (omega arith),
  ground (
    arith,
    bit_and-bit_or (bit_or pa flags) page_present pte_addr_mask,
    bit_and-bit_or pa flags pte_addr_mask,
    bit_or-zero (bit_or (bit_and pa pte_addr_mask) (bit_and flags pte_addr_mask)),
  ),
)

-- Rounding an address down to its page keeps the indices.
pub index-page_align_down :
    (a : ℕ)
    → a < 2 ^ 64
    → let b = page_align_down a in
      (pml4_index b ≡ pml4_index a)
      × (pdpt_index b ≡ pdpt_index a)
      × (pd_index b ≡ pd_index a)
      × (pt_index b ≡ pt_index a)
unfolding pml4_index pdpt_index pd_index pt_index
index-page_align_down a h =
    let e39 : page_align_down a / 2 ^ 39 ≡ a / 2 ^ 39 = omega (arith, page_align_down_lem a h) in
    let e30 : page_align_down a / 2 ^ 30 ≡ a / 2 ^ 30 = omega (arith, page_align_down_lem a h) in
    let e21 : page_align_down a / 2 ^ 21 ≡ a / 2 ^ 21 = omega (arith, page_align_down_lem a h) in
    let e12 : page_align_down a / 2 ^ 12 ≡ a / 2 ^ 12 = omega (arith, page_align_down_lem a h) in
    (rw e39, rw e30, rw e21, rw e12)
