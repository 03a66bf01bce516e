-- ===== src/UserAs/Flags.antt =====
-- The entries that user_as.c writes.
use myria.Base.{
  ℕ, ◌+◌, ◌*◌, ◌/◌, ◌%◌, ◌^◌, ◌<◌, ◌≡◌, refl, arith, Bool, true, false, bit_or, bit_and, u64,
  if◌then◌else◌,
}
use myria.Base.Bits.{bit_or_fields, bit_or-zero, bit_or_step, bit_or-lt, zero-bit_or}
use myria.Paging.{page_present, page_write, page_user, pte_addr_mask, is_present, pte_to_phys}
use myria.Paging.Entries.{is_present_lem, pte_to_phys_lem, table_entry}
use myria.UserAs.{user_flags}

-- Setting the user bit of an entry keeps the rest.
pub or_user :
    (e : ℕ)
    → is_present e ≡ true
    → (is_present (u64 (bit_or e page_user)) ≡ true)
      × (pte_to_phys (u64 (bit_or e page_user)) ≡ pte_to_phys e)
      × (u64 (bit_or e page_user) < 2 ^ 64)
or_user e there = (
  (is_present_lem _).1 (let odd = (is_present_lem e).0 there in omega (arith, low)),
  omega (arith, low, pte_to_phys_lem e, pte_to_phys_lem (u64 (bit_or e page_user))),
  omega arith,
)
  where
    low : (bit_or e page_user / 2 ^ 12 ≡ e / 2 ^ 12) × (bit_or e page_user % 2 ≡ e % 2)
    low = ground (
      arith,
      bit_or_fields 12 (e / 2 ^ 12) (e % 2 ^ 12) 0 4,
      bit_or-zero (e / 2 ^ 12),
      bit_or-lt 12 (e % 2 ^ 12) 4 (omega arith) (omega arith),
      bit_or_step e 4,
    )

-- `new_phys | PTE_PRESENT | PTE_WRITABLE | PTE_USER`
pub user_table_entry :
    (g : ℕ)
    → g % 4096 ≡ 0
    → g < 2 ^ 52
    → let e = bit_or (bit_or (bit_or g page_present) page_write) page_user in
      (is_present e ≡ true) × (pte_to_phys e ≡ g) × (e < 2 ^ 64)
user_table_entry g al fits =
    rw (table_entry g al fits, seven)
      (
        (is_present_lem (g + 7)).1 (omega arith),
        omega (arith, pte_to_phys_lem (g + 7)),
        omega arith,
      )
  where
    seven : bit_or (g + 3) page_user ≡ g + 7
    seven = ground (arith, bit_or_fields 12 (g / 4096) 3 0 4, bit_or-zero (g / 4096))

-- The flags of a user page by the processor's bits: present is bit 0, writable bit 1, user bit 2 and
-- no-execute bit 63.
abbrev pub permission_bits : Bool → Bool → ℕ
permission_bits writable executable =
    1 + (if writable then 2 else 0) + 4 + (if executable then 0 else 2 ^ 63)

-- The entry that maps a page to the frame of `pa` with these flags.
abbrev pub user_entry : ℕ → Bool → Bool → ℕ
user_entry pa writable executable = pa / 2 ^ 12 * 2 ^ 12 + permission_bits writable executable

user_flags_lem : (w x : Bool) → user_flags w x ≡ permission_bits w x
unfolding user_flags
user_flags_lem true true = refl
user_flags_lem true false = refl
user_flags_lem false true = refl
user_flags_lem false false = refl

-- A frame's number and flags of bits 0 to 11 and perhaps bit 63 do not overlap.
or_flags :
    (q h l : ℕ)
    → q < 2 ^ 51
    → h < 2
    → l < 2 ^ 12
    → bit_or (q * 2 ^ 12) (h * 2 ^ 63 + l) ≡ q * 2 ^ 12 + (h * 2 ^ 63 + l)
or_flags q h l fits one low = ground (
  arith,
  bit_or_fields 12 q 0 (h * 2 ^ 51) l,
  zero-bit_or l,
  bit_or_fields 51 0 q h 0,
  zero-bit_or h,
  bit_or-zero q,
)

field : (pa : ℕ) → pa < 2 ^ 52 → bit_and pa pte_addr_mask ≡ pa / 2 ^ 12 * 2 ^ 12
field pa fits = unfold pte_to_phys in omega (arith, pte_to_phys_lem pa)

-- What user_as.c writes is this entry.
pub user_entry_lem :
    (pa : ℕ) (w x : Bool)
    → pa < 2 ^ 52
    → (bit_or (bit_and pa pte_addr_mask) (user_flags w x) ≡ user_entry pa w x)
      × (user_entry pa w x < 2 ^ 64)
      × (is_present (user_entry pa w x) ≡ true)
user_entry_lem pa w x fits = rw (field pa fits, user_flags_lem w x) (by_cases w x)
  where
    by_cases :
        (w x : Bool)
        → (bit_or (pa / 2 ^ 12 * 2 ^ 12) (permission_bits w x) ≡ user_entry pa w x)
          × (user_entry pa w x < 2 ^ 64)
          × (is_present (user_entry pa w x) ≡ true)
    by_cases true true = (
      or_flags (pa / 2 ^ 12) 0 7 (omega arith) (omega arith) (omega arith),
      omega arith,
      (is_present_lem _).1 (omega arith),
    )
    by_cases true false = (
      or_flags (pa / 2 ^ 12) 1 7 (omega arith) (omega arith) (omega arith),
      omega arith,
      (is_present_lem _).1 (omega arith),
    )
    by_cases false true = (
      or_flags (pa / 2 ^ 12) 0 5 (omega arith) (omega arith) (omega arith),
      omega arith,
      (is_present_lem _).1 (omega arith),
    )
    by_cases false false = (
      or_flags (pa / 2 ^ 12) 1 5 (omega arith) (omega arith) (omega arith),
      omega arith,
      (is_present_lem _).1 (omega arith),
    )
