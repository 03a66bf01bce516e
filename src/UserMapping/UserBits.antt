-- ===== src/UserMapping/UserBits.antt =====
-- Tables whose entries differ by user bits, as the walk of `map_user_4k` leaves them.
use myria.Base.{
  ℕ, ◌+◌, ◌*◌, ◌/◌, ◌%◌, ◌^◌, ◌<◌, ◌≡◌, ◌≢◌, ◌⊎◌, inl, inr, refl, sym, ◌∙◌, arith, bit_or, u64,
}
use native.Mathlib.Decide.{ℕ_discrete}
use myria.Base.Bits.{bit_or_fields, bit_or-zero, bit_or_step}
use myria.Memory.{Memory, entry, set_entry}
use myria.Memory.Pages.{entry-set_entry_self, entry-set_entry_ne}
use myria.Paging.{page_user, pte_to_phys, is_present, is_huge}
use myria.Paging.Entries.{is_present_lem, pte_to_phys_lem}
use myria.Paging.Permissions.{is_huge_lem}

-- As words, `e'` is `e`, or `e` with its user bit, bit 2, set where it was clear; so it maps what `e`
-- does.
pub record SameButUser (e e' : ℕ) : Type 0 where
  pub rest : (e' % 2 ^ 64 ≡ e % 2 ^ 64) ⊎ ((e / 4 % 2 ≡ 0) × (e' % 2 ^ 64 ≡ (e + 4) % 2 ^ 64))
  pub present : is_present e' ≡ is_present e
  pub huge : is_huge e' ≡ is_huge e
  pub frame : pte_to_phys e' ≡ pte_to_phys e

pub or_user-SameButUser : (e : ℕ) → SameButUser e (u64 (bit_or e page_user))
or_user-SameButUser e = record {
  rest = elim (ℕ_discrete (e / 4 % 2) 0) [
    | yes clear ↦ inr (clear, omega (arith, low, clear))
    | no set ↦ inl (omega (arith, low))
  ];
  present = ground (arith, low, is_present_lem e, is_present_lem (u64 (bit_or e page_user)));
  huge = rw (is_huge_lem e, is_huge_lem (u64 (bit_or e page_user))) (rw bit7 refl);
  frame = omega (arith, low, pte_to_phys_lem e, pte_to_phys_lem (u64 (bit_or e page_user)));
}
  where
    low : bit_or e page_user ≡ e / 8 * 8 + (e % 4 + 4)
    low = ground (
      arith,
      bit_or_fields 3 (e / 8) (e % 8) 0 4,
      bit_or-zero (e / 8),
      bit_or_step (e % 8) 4,
      bit_or_step (e % 8 / 2) 2,
      bit_or_step (e % 8 / 4) 1,
      bit_or-zero 0,
    )

    bit7 : u64 (bit_or e page_user) / 2 ^ 7 % 2 ≡ e / 2 ^ 7 % 2
    bit7 = omega (arith, low)

-- `n` differs from `m` by user bits of entries at most.
abbrev pub OnlyUser : Memory → Memory → Type 0
OnlyUser m n = (t j : ℕ) → t % 4096 ≡ 0 → j < 512 → SameButUser (entry m t j) (entry n t j)

-- Setting the user bit of one entry.
unfoldable pub with_user : Memory → ℕ → ℕ → Memory
with_user m t i = set_entry m t i (u64 (bit_or (entry m t i) page_user))

pub with_user-OnlyUser :
    (m : Memory) (t i : ℕ) → t % 4096 ≡ 0 → i < 512 → OnlyUser m (with_user m t i)
unfolding with_user
with_user-OnlyUser m t i al hi f j fal hj = elim (ℕ_discrete t f) [
  | no other ↦ unchanged (inl other)
  | yes same ↦ elim (ℕ_discrete i j) [
    | no other ↦ unchanged (inr other)
    | yes here ↦
        rw
          (
            sym same,
            sym here,
            entry-set_entry_self m t i (u64 (bit_or (entry m t i) page_user)) (omega arith),
          )
          (or_user-SameButUser (entry m t i))
  ]
]
  where
    unchanged :
        (t ≢ f) ⊎ (i ≢ j)
        → SameButUser
            (entry m f j)
            (entry (set_entry m t i (u64 (bit_or (entry m t i) page_user))) f j)
    unchanged ne =
        rw (entry-set_entry_ne m t i (u64 (bit_or (entry m t i) page_user)) f j al fal hi hj ne)
          (record { rest = inl refl; present = refl; huge = refl; frame = refl })

pub OnlyUser-trans : (m n o : Memory) → OnlyUser m n → OnlyUser n o → OnlyUser m o
OnlyUser-trans m n o a b t j al lt =
    let x = a t j al lt in
    let y = b t j al lt in
    record {
      rest = elim x.rest [
        | inl same ↦ elim y.rest [
          | inl same' ↦ inl (same' ∙ same)
          | inr (clear, set) ↦ inr (omega (arith, same, clear), omega (arith, same, set))
        ]
        | inr (clear, set) ↦ elim y.rest [
          | inl same' ↦ inr (clear, same' ∙ set)
          | inr (clear', set') ↦ absurd (omega (arith, clear, set, clear'))
        ]
      ];
      present = y.present ∙ x.present;
      huge = y.huge ∙ x.huge;
      frame = y.frame ∙ x.frame;
    }
