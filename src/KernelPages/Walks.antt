-- ===== src/KernelPages/Walks.antt =====
-- Setting the write bit of an entry changes no walk.
use native.Mathlib.Decide.{ℕ_discrete}
use myria.Base.{
  ℕ, ◌+◌, ◌*◌, ◌/◌, ◌%◌, ◌^◌, ◌<◌, ◌≡◌, ◌≢◌, ◌⊎◌, inl, inr, refl, sym, arith, Bool-cases, true,
  false, bit_and, bit_or, u64,
}
use myria.Base.Bits.{bit_or_fields, bit_or-zero, bit_or_step}
use myria.Memory.{Memory, entry, set_entry}
use myria.Memory.Pages.{entry-set_entry_self, entry-set_entry_ne}
use myria.Paging.{
  page_write, pte_addr_mask, pml4_index, pdpt_index, pd_index, pt_index, pte_to_phys, is_present,
  is_writable, is_huge,
}
use myria.Paging.Entries.{index-lt, is_present_lem, pte_to_phys_lem, pte_to_phys-aligned}
use myria.Paging.Permissions.{is_writable_lem, is_huge_lem}
use myria.KernelPages.{walk_va_to_leaf, set_writable}

-- `e'` is `e`, or `e` as a word with its write bit, bit 1, set where it was
-- clear; so it maps what `e` does.
pub record SameButWrite (e e' : ℕ) : Type 0 where
  pub present : is_present e' ≡ is_present e
  pub huge : is_huge e' ≡ is_huge e
  pub frame : pte_to_phys e' ≡ pte_to_phys e
  pub write : is_writable e ≡ true → is_writable e' ≡ true
  pub rest : (e' ≡ e) ⊎ ((e / 2 % 2 ≡ 0) × (e' ≡ u64 (e + 2)))

or_write_fields : (e : ℕ) → bit_or e page_write ≡ e / 4 * 4 + (e % 2 + 2)
or_write_fields e = ground (
  arith,
  bit_or_fields 2 (e / 4) (e % 4) 0 2,
  bit_or-zero (e / 4),
  bit_or_step (e % 4) 2,
  bit_or_step (e % 4 / 2) 1,
  bit_or-zero 0,
)

pub or_write-SameButWrite :
    (e : ℕ) → is_writable e ≡ false → SameButWrite e (u64 (bit_or e page_write))
or_write-SameButWrite e not_yet = record {
  present = ground (arith, low, is_present_lem e, is_present_lem (u64 (bit_or e page_write)));
  huge = rw (is_huge_lem e, is_huge_lem (u64 (bit_or e page_write))) (rw bit7 refl);
  frame = omega (arith, low, pte_to_phys_lem e, pte_to_phys_lem (u64 (bit_or e page_write)));
  write = λ _. (is_writable_lem (u64 (bit_or e page_write))).1 (omega (arith, low));
  rest = inr (clear, omega (arith, low, clear));
}
  where
    low : u64 (bit_or e page_write) ≡ u64 (e / 4 * 4 + (e % 2 + 2))
    low = rw (or_write_fields e) refl

    bit7 : u64 (bit_or e page_write) / 2 ^ 7 % 2 ≡ e / 2 ^ 7 % 2
    bit7 = omega (arith, low)

    clear : e / 2 % 2 ≡ 0
    clear = ground (arith, is_writable_lem e)

pub or_write-is_writable : (e : ℕ) → is_writable (u64 (bit_or e page_write)) ≡ true
or_write-is_writable e =
    (is_writable_lem (u64 (bit_or e page_write))).1 (omega (arith, or_write_fields e))

-- `n` differs from `m` by write bits of entries at most.
abbrev pub OnlyWrites : Memory → Memory → Type 0
OnlyWrites m n = (t j : ℕ) → t % 4096 ≡ 0 → j < 512 → SameButWrite (entry m t j) (entry n t j)

pub SameButWrite-self : (e : ℕ) → SameButWrite e e
SameButWrite-self e = record {
  present = refl;
  huge = refl;
  frame = refl;
  write = λ w. w;
  rest = inl refl;
}

pub set_writable-OnlyWrites :
    (m : Memory) (t i : ℕ) → t % 4096 ≡ 0 → i < 512 → OnlyWrites m (set_writable m t i)
unfolding set_writable
set_writable-OnlyWrites m t i al hi f j fal hj = elim (Bool-cases (is_writable (entry m t i))) [
  | inl already ↦ rw already (SameButWrite-self (entry m f j))
  | inr not_yet ↦ rw not_yet (elim (ℕ_discrete t f) [
    | no other ↦ unchanged (inl other)
    | yes same ↦ elim (ℕ_discrete i j) [
      | no other ↦ unchanged (inr other)
      | yes here ↦
          rw (sym same, sym here, entry-set_entry_self m t i v (omega arith))
            (or_write-SameButWrite (entry m t i) not_yet)
    ]
  ])
]
  where
    v : ℕ
    v = u64 (bit_or (entry m t i) page_write)

    unchanged : (t ≢ f) ⊎ (i ≢ j) → SameButWrite (entry m f j) (entry (set_entry m t i v) f j)
    unchanged ne =
        rw (entry-set_entry_ne m t i v f j al fal hi hj ne) (SameButWrite-self (entry m f j))

pub set_writable-is_writable :
    (m : Memory) (t i : ℕ) → is_writable (entry (set_writable m t i) t i) ≡ true
unfolding set_writable
set_writable-is_writable m t i = elim (Bool-cases (is_writable (entry m t i))) [
  | inl already ↦ rw already already
  | inr not_yet ↦
      rw (not_yet, entry-set_entry_self m t i (u64 (bit_or (entry m t i) page_write)) (omega arith))
        (or_write-is_writable (entry m t i))
]

-- So every walk ends at the same entry.
pub walk_va_to_leaf-OnlyWrites :
    (m n : Memory)
    → OnlyWrites m n
    → (cr3 va : ℕ) → walk_va_to_leaf n cr3 va ≡ walk_va_to_leaf m cr3 va
unfolding walk_va_to_leaf
walk_va_to_leaf-OnlyWrites m n o cr3 va =
    let l = index-lt va in
    let top : bit_and cr3 pte_addr_mask % 4096 ≡ 0 =
      unfold pte_to_phys in pte_to_phys-aligned cr3 in
    let pml4 : ℕ = bit_and cr3 pte_addr_mask in
    let pdpt : ℕ = pte_to_phys (entry m pml4 (pml4_index va)) in
    let pd : ℕ = pte_to_phys (entry m pdpt (pdpt_index va)) in
    let pt : ℕ = pte_to_phys (entry m pd (pd_index va)) in
    let a = o pml4 (pml4_index va) top l.0 in
    let b = o pdpt (pdpt_index va) (pte_to_phys-aligned (entry m pml4 (pml4_index va))) l.1 in
    let c = o pd (pd_index va) (pte_to_phys-aligned (entry m pdpt (pdpt_index va))) l.2 in
    let d = o pt (pt_index va) (pte_to_phys-aligned (entry m pd (pd_index va))) l.3 in
    rw (a.frame, b.frame, c.frame, a.present, b.present, b.huge, c.present, c.huge, d.present) refl
