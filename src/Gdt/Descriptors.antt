-- ===== src/Gdt/Descriptors.antt =====
-- Descriptors as the processor reads them.
use myria.Base.{
  ℕ, ◌+◌, ◌*◌, ◌/◌, ◌%◌, ◌^◌, ◌<◌, ◌≡◌, ◌≢◌, refl, arith, sym, ◌∙◌, bit_and, bit_or, update_self,
  update_ne,
}
use myria.Base.Bits.{
  bit_and_mask, bit_and_fields, bit_and-zero, bit_or_fields, bit_or-zero, zero-bit_or,
}
use myria.Gdt.{GdtEntry, gdt_set_entry, gdt_set_tss}

abbrev pub entry_base : GdtEntry → ℕ
entry_base e = e.base_low + e.base_mid * 2 ^ 16 + e.base_high * 2 ^ 24

abbrev pub entry_limit : GdtEntry → ℕ
entry_limit e = e.limit_low + e.granularity % 2 ^ 4 * 2 ^ 16

abbrev pub entry_flags : GdtEntry → ℕ
entry_flags e = e.granularity / 2 ^ 4

-- The eight bytes of an entry as one word.
abbrev pub descriptor : GdtEntry → ℕ
descriptor e =
    e.limit_low
    + e.base_low * 2 ^ 16
    + e.base_mid * 2 ^ 32
    + e.access * 2 ^ 40
    + e.granularity * 2 ^ 48
    + e.base_high * 2 ^ 56

high_nibble : (g : ℕ) → g < 2 ^ 8 → bit_and g 0xF0 ≡ g / 2 ^ 4 * 2 ^ 4
high_nibble g h = ground (
  arith,
  bit_and_fields 4 (g / 2 ^ 4) (g % 2 ^ 4) 15 0,
  bit_and_mask 4 (g / 2 ^ 4),
  bit_and-zero (g % 2 ^ 4),
)

nibbles : (l g : ℕ) → l < 2 ^ 4 → bit_or l (g * 2 ^ 4) ≡ g * 2 ^ 4 + l
nibbles l g h = ground (arith, bit_or_fields 4 0 l g 0, zero-bit_or g, bit_or-zero l)

-- What the processor reads from the entry just set, for a limit of 20 bits and a base of 32.
pub record Reads (base limit access granularity : ℕ) (e : GdtEntry) : Type 0 where
  pub base_is : entry_base e ≡ base % 2 ^ 32
  pub limit_is : entry_limit e ≡ limit % 2 ^ 20
  pub access_is : e.access ≡ access
  pub flags_are : entry_flags e ≡ granularity / 2 ^ 4

-- An entry set in the descriptor table reads back as the low 32 bits of the base, the low 20 bits
-- of the limit, the access byte and the upper half of the granularity byte; no other entry
-- changes.
pub gdt_set_entry-Reads :
    (gdt : ℕ → GdtEntry) (index base limit access granularity : ℕ)
    → granularity < 2 ^ 8
    → Reads base limit access granularity
        (gdt_set_entry gdt index base limit access granularity index)
      × ((j : ℕ) → j ≢ index → gdt_set_entry gdt index base limit access granularity j ≡ gdt j)
unfolding gdt_set_entry
gdt_set_entry-Reads gdt index base limit access granularity small = (
  rw
      (update_self gdt index (record {
        base_low = bit_and base 0xFFFF;
        base_mid = bit_and (base / 2 ^ 16) 0xFF;
        base_high = bit_and (base / 2 ^ 24) 0xFF;
        limit_low = bit_and limit 0xFFFF;
        granularity = bit_or (bit_and (limit / 2 ^ 16) 0x0F) (bit_and granularity 0xF0);
        access = access;
      }))
      (record {
        base_is = omega (
          arith,
          bit_and_mask 16 base,
          bit_and_mask 8 (base / 2 ^ 16),
          bit_and_mask 8 (base / 2 ^ 24),
        );
        limit_is = rw gran (omega (arith, bit_and_mask 16 limit));
        access_is = refl;
        flags_are = rw gran (omega arith);
      }),
  λ j ne. update_ne gdt index j _ (λ z. ne (sym z)),
)
  where
    gran :
        bit_or (bit_and (limit / 2 ^ 16) 0x0F) (bit_and granularity 0xF0)
        ≡ granularity / 2 ^ 4 * 2 ^ 4 + limit / 2 ^ 16 % 2 ^ 4
    gran =
        rw (high_nibble granularity small, bit_and_mask 4 (limit / 2 ^ 16))
          (nibbles (limit / 2 ^ 16 % 2 ^ 4) (granularity / 2 ^ 4) (omega arith))

-- The 64-bit base of a system descriptor, in two entries.
abbrev pub system_base : GdtEntry → GdtEntry → ℕ
system_base lo hi = entry_base lo + (hi.limit_low + hi.base_low * 2 ^ 16) * 2 ^ 32

-- A task state segment set at an index reads back with its whole 64-bit base and its limit of 20
-- bits, and no entry but the two changes.
pub gdt_set_tss-Reads :
    (gdt : ℕ → GdtEntry) (index base limit access : ℕ)
    → base < 2 ^ 64
    → limit < 2 ^ 20
    → (system_base
          (gdt_set_tss gdt index base limit access index)
          (gdt_set_tss gdt index base limit access (index + 1))
        ≡ base)
      × (entry_limit (gdt_set_tss gdt index base limit access index) ≡ limit)
      × ((gdt_set_tss gdt index base limit access index).access ≡ access)
      × ((j : ℕ) → j ≢ index → j ≢ index + 1 → gdt_set_tss gdt index base limit access j ≡ gdt j)
unfolding gdt_set_tss
gdt_set_tss-Reads gdt index base limit access hb hl =
    let r = gdt_set_entry-Reads gdt index base limit access 0 (omega arith) in
    let g : ℕ → GdtEntry = gdt_set_entry gdt index base limit access 0 in
    let hi : GdtEntry = record {
      limit_low = bit_and (base / 2 ^ 32) 0xFFFF;
      base_low = bit_and (base / 2 ^ 48) 0xFFFF;
      base_mid = 0;
      access = 0;
      granularity = 0;
      base_high = 0;
    } in
    let first = update_ne g (index + 1) index hi (λ z. absurd (omega arith)) in
    let second = update_self g (index + 1) hi in
    (
      rw (first, second)
          (omega
            (arith, r.0.base_is, bit_and_mask 16 (base / 2 ^ 32), bit_and_mask 16 (base / 2 ^ 48))),
      rw first (omega (arith, r.0.limit_is)),
      rw first r.0.access_is,
      λ j a b. update_ne g (index + 1) j hi (λ z. b (sym z)) ∙ r.1 j a,
    )
